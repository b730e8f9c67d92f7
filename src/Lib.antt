-- ===== src/Lib.antt =====
-- A verification library of the bundler: the ERC-4337 JSON-RPC service that collects user
-- operations per chain and submits them through a pool of hot wallets.
--
-- The parts and their files:
--   Base      the Go prelude: texts as lists of code points, strings, strconv, int64, errors
--   Txerror   internal/platform/txerror: the classification of failures (`Normalize`)
--   Evm       internal/evm: numbers and bytes of requests (Number), fees and gas (Gas), sending and
--             receipts (Send); Client is what is used of go-ethereum, a parameter throughout
--   Chain     internal/chain: the settings of a chain and the choice of one
--   Redis     internal/platform/redis: the cursor (Cursor), the lock as one call runs it (Lock) and as
--             the interleavings of many calls (Exclusion)
--   Kms       internal/platform/kms: names and encrypted keys, decryption
--   Signer    internal/signer: the wallets of a chain and the server keys, with their caches, and the
--             histories of the manager's calls (History)
--   Core      internal/core: `SendManagedTx` over the locker, and the nonces of a wallet as the
--             interleavings of many calls with the node (Nonces)
--   Userop    internal/userop: the JSON-RPC handler (Rpc, Http), the packing of an operation (Packing),
--             the submission of a batch (Batcher), the dispatcher of a chain's queue (Dispatch), the two
--             bags that the queue stands for (Refinement), and `Enqueue` as one caller sees it (Enqueue)
--   Transfer  internal/transfer: the fees of a user operation (Gas), transfers out of a server wallet
--             (Send) and out of an account (Account), and the handler (Request)
--   Split     internal/split: payments to two recipients through the router. The handler (Request), the
--             permit (Permit), the typed data (TypedData), the allowance of the token (Allowance), the
--             signed call (Build), the service's Execute (Execute) and its second attempt (Retry)
--   Httpx     internal/platform/httpx: the answers of the handlers below and how a handler ends
--   Ethclient internal/platform/ethclient: the cache of clients, as the interleavings of many calls
--   Deploy    internal/deploy: the deployment of a wallet by the factory
--   Entrypoint  internal/entrypoint: deposits into the gas pool and withdrawals
--   Startup   cmd/bundler, internal/platform/env and logger: what main sets up (Wiring), the levels and
--             attributes of the log (Levels, Log), and the way of a request to its handler (Server)
--   Abi       the ABIs of the contracts, and that every call fits them (Calls)
--   Tests     runs at concrete inputs
--
-- How they interact: `serve` of `Startup` hands a request to the handler of its route. `handle_rpc`
-- chooses the chain by `resolve_chain_id` and hands the packed operation to its argument `enqueue`;
-- `Userop.Enqueue` is what the batcher gives for it, with a parameter `turn` for the batch in which the
-- dispatcher of `Dispatch` puts the operation. A flush of the queue is
-- `flush`, which submits under `with_nonce_lock` at the key `nonce_lock_key`; the wallet is the one at
-- the index that `next_index` chose in the pool of `bundler_pool`. Failures are answered through
-- `normalize`. A payment of `Split` holds the lock of its wallet over the allowance and the call; a
-- deployment and the gas pool send through `send_managed_tx`. `start` of `Startup` gives the settings
-- that the others run with.
--
-- State is passed explicitly: a call on the world `W` is a function `W → Result A × W`, and the locker,
-- a client and a keystore are records of such calls. What runs concurrently (the redis lock, the
-- dispatcher with its flushes, the cache of clients, the calls of a wallet with the node) is a step relation,
-- and the runs are all orders of its steps. The steps of `Core.Nonces` contain those of `Redis.Exclusion`, and
-- `Transfer.Nonces` ties them to the bodies that the functions of `Core`, `Userop` and `Transfer` run.
--
-- Bounds: integers of big.Int are the integers, uint64 and int64 have their wrap-around written out
-- where the code relies on it; fees are natural numbers, as a node returns no negative ones. The loops
-- are structural: the tries of the lock are counted down from ten, and the poll for a receipt takes the
-- number of ticks until it is told to stop. The fuel of `to_digits` is one more than the number.
--
-- The wait for an approval of `Split` takes its length from a parameter `clock`.
--
-- Panics: a function that may read a nil pointer or panic returns an `Option`, whose `none` is the panic:
-- the nil transaction or receipt of deployments and of the gas pool, the nil deadline and amount of a
-- permit, and `big.NewFloat` at a setting of the fees that is NaN. `Httpx.finish` makes the handler's
-- end of it. Nil pointers that a library takes are handed to it (`big_ptr`).
--
-- Not modelled: the HTTP server with its signals and shutdown; the writing of log lines and the reading
-- of struct tags; and what go-ethereum, the redis and SQL drivers, net/http's multiplexer and
-- encoding/json do, which are parameters. The nonces of `Core.Nonces` are those of a wallet that nobody
-- else sends from.
pub mod Base
pub mod Txerror
pub mod Evm
pub mod Chain
pub mod Redis
pub mod Kms
pub mod Signer
pub mod Core
pub mod Userop
pub mod Transfer
pub mod Split
pub mod Httpx
pub mod Ethclient
pub mod Deploy
pub mod Entrypoint
pub mod Startup
pub mod Abi
pub mod Tests
