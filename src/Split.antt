-- ===== src/Split.antt =====
-- internal/split: a payment out of the wallet of a server key to two recipients, through the router
-- contract, which checks two signatures.
pub mod Types
pub mod TypedData
pub mod Permit
pub mod Build
pub mod BuildLaws
pub mod Allowance
pub mod AllowanceLaws
pub mod Execute
pub mod ExecuteLaws
pub mod Retry
pub mod Request
pub mod RequestLaws
pub mod HandleLaws
