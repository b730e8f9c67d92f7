-- ===== src/Tests.antt =====
-- Runs of the modelled code at concrete inputs, which show that the hypotheses of the theorems hold
-- there. `World` holds what they share.
mod World
mod Classify
mod Fees
mod Locks
mod Wallets
mod Settings
mod Requests
mod Batches
mod Transfers
mod Splits
mod Retries
mod Deployments
mod Clients
mod Starts
mod Calls
mod Nonces
mod Servers
