-- ===== src/Redis.antt =====
-- internal/platform/redis/redis.go: the lock on a wallet's nonces and the round-robin cursor.
pub mod Cursor
pub mod RoundRobin
pub mod Lock
pub mod Retry
pub mod Returns
pub mod Exclusion
