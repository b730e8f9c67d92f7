-- ===== src/Startup.antt =====
-- What main sets up: cmd/bundler/main.go, with the settings of internal/platform/env/env.go, the logger
-- of internal/platform/logger/logger.go and the dialling of internal/platform/redis/redis.go.
pub mod Levels
pub mod Log
pub mod Wiring
pub mod WiringLaws
pub mod Server
pub mod ServerLaws
