-- ===== src/Signer.antt =====
-- internal/signer: accounts, the pools of bundler wallets and the two server keys.
pub mod Account
pub mod Order
pub mod OrderLaws
pub mod Manager
pub mod Pools
pub mod Stability
pub mod History
