-- ===== src/Userop.antt =====
-- internal/userop: the JSON-RPC handler and the batches of user operations.
pub mod Types
pub mod Packing
pub mod Batcher
pub mod Flush
pub mod Submissions
pub mod Nonces
pub mod Enqueue
pub mod EndToEnd
pub mod Dispatch
pub mod Conservation
pub mod Drain
pub mod Refinement
pub mod Rpc
pub mod Http
pub mod Routing
