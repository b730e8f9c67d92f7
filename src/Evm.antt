-- ===== src/Evm.antt =====
-- internal/evm: the chain client that the program calls, gas and fees, numbers from JSON.
pub mod Client
pub mod Gas
pub mod Quiet
pub mod GasBounds
pub mod Send
pub mod Number
pub mod NumberLaws
