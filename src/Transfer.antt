-- ===== src/Transfer.antt =====
-- internal/transfer: native and ERC-20 transfers out of a wallet or an account.
pub mod Gas
pub mod GasLaws
pub mod Send
pub mod Account
pub mod AccountLaws
pub mod SendLaws
pub mod Nonces
pub mod Request
pub mod RequestLaws
pub mod HandleLaws
