-- ===== src/Startup/Server.antt =====
-- main.go: a request from the server to the handler of its route. `http.ServeMux` is a library: `mux`
-- gives the pattern that it chooses among those that were registered, and the part of the path that
-- stands for `{chainId}`. The decoding of a body into a struct is encoding/json's.
use bundler_go.Base.{
  ℕ, ℤ, List, [], ◌∷◌, Text, text_eq, Option, none, some, Result, ok, err, GoError, M,
  if◌then◌else◌, map,
}
use bundler_go.Core.{Deps}
use bundler_go.Deploy.{DeployBody, DeployResponse, handle_deploy}
use bundler_go.Entrypoint.{GasPoolBody, GasPoolResponse, handle_transfer}
use bundler_go.Evm.Client.{Geth}
use bundler_go.Evm.Number.{Float}
use bundler_go.Evm.Send.{End}
use bundler_go.Httpx.{Response, Outcome}
use bundler_go.Split.Request.{ExecBody, handle_execute}
use bundler_go.Split.Types.{SplitResult}
use bundler_go.Startup.Wiring.{Endpoint, health, deploy, transfer, entrypoint, split, rpc, routes}
use bundler_go.Transfer.Gas.{ParseGwei}
use bundler_go.Transfer.Request.{TransferBody, transfer as handle_order}
use bundler_go.Transfer.Send.{Sent}
use bundler_go.Userop.Http.{rpc as handle_http}
use bundler_go.Userop.Rpc.{Json, RpcResponse}
use bundler_go.Userop.Types.{PackedUserOp}

pub record Request : Type 0 where
  pub method : Text
  pub path : Text
  -- the body, as far as it could be read
  pub body : Text
  pub read_error : Option GoError

-- encoding/json at the bodies of the handlers.
pub record Decoders (F : Type 0) : Type 0 where
  pub deploy_body : Text → Option DeployBody
  pub transfer_body : Text → Option (TransferBody F)
  pub pool_body : Text → Option GasPoolBody
  pub split_body : Text → Option (ExecBody F)
  pub rpc_json : Json

-- What is sent back: the server's own answer where no route fits, a status alone, or a handler's end.
pub data Reply : Type 0 where
  unrouted : Reply
  alive : ℕ → Reply
  deployment : Outcome DeployResponse → Reply
  transferred : Outcome Sent → Reply
  pool_move : Outcome GasPoolResponse → Reply
  payment : Outcome SplitResult → Reply
  rpc_reply : Response RpcResponse → Reply

-- The handler that was registered for a pattern.
unfoldable pub handler_of : Text → List (Text × Endpoint) → Option Endpoint
handler_of pattern [] = none
handler_of pattern ((p, h) ∷ rest) = if text_eq pattern p then some h else handler_of pattern rest

unfoldable pub read_body : Request → Result Text
read_body r = elim r.read_error [ none ↦ ok r.body | some e ↦ err e ]

-- What the handlers share, and what they take from outside: the number of the event Deployed, the time,
-- the waits of a payment, the floating-point reader of a setting, and the queue of operations.
pub record Services (F S Key Signed : Type 0) : Type 0 where
  pub fl : Float F
  pub geth : Geth Key Signed
  pub deps : Deps S Key Signed
  pub decoders : Decoders F
  pub deployed_id : ℕ
  pub now : S → Text
  pub clock : Text → S → End × ℕ
  pub pause : S → S
  pub parse : ParseGwei F
  pub enqueue : ℤ → PackedUserOp → M S Text

module _ {F S Key Signed : Type 0} (x : Services F S Key Signed) where
  open x use {fl, geth, deps, decoders, deployed_id, now, clock, pause, parse, enqueue}

  -- The handlers as main registers them.
  unfoldable pub call_handler : Endpoint → Text → Request → S → Reply × S
  unfolding read_body handle_deploy handle_order handle_transfer handle_execute handle_http
  call_handler health segment r s = (alive 200, s)
  call_handler deploy segment r s =
      let (out, s') = handle_deploy geth deployed_id deps (decoders.deploy_body r.body) s in
      (deployment out, s')
  call_handler transfer segment r s =
      let (out, s') = handle_order fl geth deps parse enqueue (decoders.transfer_body r.body) s in
      (transferred out, s')
  call_handler entrypoint segment r s =
      let (out, s') = handle_transfer fl geth deps now (decoders.pool_body r.body) s in
      (pool_move out, s')
  call_handler split segment r s =
      let (out, s') = handle_execute fl geth clock pause deps (decoders.split_body r.body) s in
      (payment out, s')
  call_handler rpc segment r s =
      let (out, s') =
        handle_http geth decoders.rpc_json deps.getenv enqueue (read_body r) segment s in
      (rpc_reply out, s')

  -- What a pattern leads to.
  unfoldable pub dispatch : Option Endpoint → Text → Request → S → Reply × S
  unfolding call_handler
  dispatch none segment r s = (unrouted, s)
  dispatch (some h) segment r s = call_handler h segment r s

  -- `mux.ServeHTTP`
  unfoldable pub serve : (List Text → Text → Text → Option (Text × Text)) → Request → S → Reply × S
  unfolding handler_of routes dispatch
  serve mux r s = elim (mux (map (λ (e : Text × Endpoint). e.0) routes) r.method r.path) [
    | none ↦ (unrouted, s)
    | some (pattern, segment) ↦ dispatch (handler_of pattern routes) segment r s
  ]
