-- ===== src/Kms.antt =====
-- internal/platform/kms: the keystore, the decryption service and the provider over both. The SQL
-- driver and the HTTP client are parameters.
pub mod Provider
pub mod Sqlite
pub mod Nhn
pub mod Wildcard
