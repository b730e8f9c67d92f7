-- ===== src/Tests/Requests.antt =====
-- rpc.go at a request for chain 10 under the path of chain 1.
use bundler_go.Base.{
  ℕ, ℤ, pos, ◌≡◌, refl, [], ◌∷◌, Text, codes, none, some, Result, ok, M, inl, suc, ltb, length,
  new_error, GoError, Option, parse_int, trim_space, text_eq, if◌then◌else◌, format_int,
}
use bundler_go.Userop.Types.{PackedUserOp, UserOperation}
use bundler_go.Userop.Rpc.{
  RpcRequest, Json, string, effective_chain_id, handle_rpc, handle_send_user_op,
}
use bundler_go.Userop.Routing.{WellFormed, handle_rpc-WellFormed, handle_rpc-params_chain}
use bundler_go.Chain.{resolve_chain_id}
use bundler_go.Evm.Number.{parse_hex_bytes}
use bundler_go.Redis.Lock.{with_nonce_lock, take_lock}
use bundler_go.Userop.Batcher.{Submit}
use bundler_go.Userop.Enqueue.{Turn, enqueue as enqueue_op}
use bundler_go.Userop.EndToEnd.{AnsweredBy, handle_rpc-AnsweredBy}
use bundler_go.Userop.Packing.{to_packed}
use bundler_go.Tests.World.{geth, getenv, deps}

abbrev request : RpcRequest
request = record {
  id = some (codes "1");
  method = codes "eth_sendUserOperation";
  params = codes "{}" ∷ codes "\"0x0000\"" ∷ codes "10" ∷ [];
}

abbrev chain_request : RpcRequest
chain_request = record { id = none; method = codes "eth_chainId"; params = [] }

abbrev user_operation : UserOperation
user_operation = record {
  sender = codes "0x01";
  nonce = some (pos 1);
  init_code = codes "0x";
  call_data = codes "0x";
  call_gas_limit = none;
  verification_gas_limit = none;
  pre_verification_gas = none;
  max_fee_per_gas = none;
  max_priority_fee_per_gas = none;
  paymaster_and_data = [];
  signature = codes "0x";
}

-- The bodies are named; a number is its own text.
abbrev json : Json
json = record {
  request = λ body. if text_eq body (codes "send") then (request, none) else (chain_request, none);
  number = λ raw. some raw;
  string = λ raw. none;
  user_operation = λ raw. ok user_operation;
}

abbrev enqueue : ℤ → PackedUserOp → M ℕ Text
enqueue chain_id op w = (ok (format_int chain_id), w)

abbrev hex : Text → Result Text
hex s = ok s

handle_rpc-WellFormed_example :
    WellFormed
      (some (codes "1"))
      (handle_rpc hex hex geth json getenv enqueue (codes "send") (pos 1) 0).0
handle_rpc-WellFormed_example =
    handle_rpc-WellFormed hex hex geth json getenv enqueue (codes "send") (pos 1) 0

handle_rpc-params_chain_example :
    handle_rpc hex hex geth json getenv enqueue (codes "send") (pos 1) 0
    ≡ handle_send_user_op hex hex geth json getenv enqueue request (pos 10) 0
unfolding format_int
handle_rpc-params_chain_example =
    handle_rpc-params_chain hex hex geth json getenv enqueue (codes "send") (pos 1) 0 request
      (codes "10") (pos 10) refl refl refl (inl refl) refl refl

-- The operation stands behind another one in its batch, and the chain takes single operations only.
abbrev other_op : PackedUserOp
other_op = record {
  sender = 1;
  nonce = pos 0;
  init_code = [];
  call_data = [];
  call_gas_limit = pos 1;
  verification_gas_limit = pos 1;
  pre_verification_gas = pos 1;
  max_fee_per_gas = pos 1;
  max_priority_fee_per_gas = pos 1;
  paymaster_and_data = [];
  signature = [];
}

abbrev turn : ℕ → Turn
turn w = record { before = other_op ∷ []; after = []; wallet = 0 }

abbrev submit : Submit ℕ ℕ
submit chain_id wallet ops w =
    if ltb 1 (length ops)
    then ((codes "", some (new_error (codes "out of gas"))), suc w)
    else ((codes "0x7", none), suc w)

abbrev alive : ℕ → Option GoError × ℕ
alive w = (none, w)

handle_rpc-AnsweredBy_example :
    (c : ℤ) × (resolve_chain_id getenv (effective_chain_id json request (pos 1)) ≡ ok c)
    × AnsweredBy geth deps submit turn alive json request c (string (codes "0x7"))
unfolding handle_rpc enqueue_op with_nonce_lock take_lock to_packed parse_hex_bytes parse_int
    resolve_chain_id trim_space
handle_rpc-AnsweredBy_example =
    handle_rpc-AnsweredBy geth deps submit turn alive json (codes "send") (pos 1) 0 request
      {r = string (codes "0x7")} refl refl refl
