-- ===== src/Userop/Rpc.antt =====
-- userop/rpc.go and userop.go: the JSON-RPC handler. The decoders of encoding/json and the batcher's
-- `Enqueue` are parameters.
use bundler_go.Base.{
  ℤ, pos, negsuc, ◌++◌, List, [], ◌∷◌, Text, codes, text_eq, is_empty, trim_space, has_prefix, drop,
  parse_int, eq_ℤ, Bool, ◌||◌, Option, none, some, Result, ok, err, GoError, M, if◌then◌else◌,
  get_elem?,
}
use bundler_go.Chain.{Env, entry_point, resolve_chain_id}
use bundler_go.Evm.Client.{Geth}
use bundler_go.Evm.Number.{hex_quantity}
use bundler_go.Txerror.{Category, Normalized, normalize}
use bundler_go.Userop.Types.{PackedUserOp, UserOperation}
use bundler_go.Userop.Packing.{to_packed}

-- `rpcRequest`; `id` is none for nil.
pub record RpcRequest : Type 0 where
  pub id : Option Text
  pub method : Text
  pub params : List Text

-- encoding/json at the types that the handler reads. A request that fails to decode is filled as far
-- as it came.
pub record Json : Type 0 where
  pub request : Text → RpcRequest × Option GoError
  pub number : Text → Option Text
  pub string : Text → Option Text
  pub user_operation : Text → Result UserOperation

-- `error.data` of a failed transaction.
pub record TxData : Type 0 where
  pub code : Text
  pub category : Category
  pub ethers_code : Text
  pub tx_hash : Text
  pub retryable : Bool

pub record RpcError : Type 0 where
  pub code : ℤ
  pub message : Text
  pub data_field : Option TxData

-- What a method returns: a string, a list of them, or an object.
pub data Reply : Type 0 where
  string : Text → Reply
  strings : List Text → Reply
  object : List (Text × Text) → Reply

pub record RpcResponse : Type 0 where
  pub jsonrpc : Text
  pub id : Text
  pub result : Option Reply
  pub error : Option RpcError

unfoldable pub id_or_null : Option Text → Text
id_or_null none = codes "null"
id_or_null (some id) = id

-- `errResp`
unfoldable pub err_resp : Option Text → ℤ → Text → RpcResponse
unfolding id_or_null
err_resp id code message = record {
  jsonrpc = codes "2.0";
  id = id_or_null id;
  result = none;
  error = some (record { code = code; message = message; data_field = none });
}

-- `okResp`
unfoldable pub ok_resp : Option Text → Reply → RpcResponse
unfolding id_or_null
ok_resp id result = record {
  jsonrpc = codes "2.0";
  id = id_or_null id;
  result = some result;
  error = none;
}

-- The string case of `parseChainIDFromParams`; `0x` and `0X` are read in base 16.
unfoldable pub chain_id_of_string : Text → Option ℤ
chain_id_of_string s =
    if has_prefix s (codes "0x") || has_prefix s (codes "0X")
    then parse_int 16 (drop 2 s)
    else parse_int 10 s

unfoldable pub string_chain_id : Json → Text → ℤ
unfolding chain_id_of_string
string_chain_id json raw = elim (json.string raw) [
  | none ↦ pos 0
  | some s ↦ elim (chain_id_of_string (trim_space s)) [ none ↦ pos 0 | some n ↦ n ]
]

-- `parseChainIDFromParams`, 0 where there is no chain id.
unfoldable pub parse_chain_id_from_params : Json → List Text → ℤ
unfolding string_chain_id
parse_chain_id_from_params json params = elim (get_elem? params 2) [
  | none ↦ pos 0
  | some raw ↦ elim (json.number raw) [
    | none ↦ string_chain_id json raw
    | some num ↦ elim (parse_int 10 num) [ none ↦ string_chain_id json raw | some n ↦ n ]
  ]
]

-- `pathChainID` of `RPC`
unfoldable pub path_chain_id : Text → ℤ
path_chain_id s = if is_empty s then pos 0 else elim (parse_int 10 s) [ none ↦ pos 0 | some n ↦ n ]

-- The chain that a request asks for: params[2], then the path.
unfoldable pub effective_chain_id : Json → RpcRequest → ℤ → ℤ
unfolding parse_chain_id_from_params
effective_chain_id json req path =
    let from_params =
      if text_eq req.method (codes "eth_sendUserOperation")
        || text_eq req.method (codes "eth_estimateUserOperationGas")
      then parse_chain_id_from_params json req.params
      else pos 0 in
    if eq_ℤ from_params (pos 0) then path else from_params

-- `txErrorResp`
module _ (hex_decode : Text → Result Text) (unpack_revert : Text → Result Text) where
  unfoldable pub tx_data : Normalized → TxData
  tx_data n = record {
    code = n.code;
    category = n.category;
    ethers_code = n.native_code;
    tx_hash = n.tx_hash;
    retryable = n.retryable;
  }

  unfoldable pub tx_error_resp : Option Text → GoError → RpcResponse
  unfolding id_or_null tx_data
  tx_error_resp id e = elim (normalize hex_decode unpack_revert (some e)) [
    | none ↦ err_resp id (negsuc 31999) e.message
    | some n ↦ record {
      jsonrpc = codes "2.0";
      id = id_or_null id;
      result = none;
      error = some (record {
        code = if eq_ℤ n.rpc_code (pos 0) then negsuc 31999 else n.rpc_code;
        message = n.message;
        data_field = some (tx_data n);
      });
    }
  ]

  module _ {S Key Signed : Type 0} (geth : Geth Key Signed) (json : Json) (getenv : Env)
      (enqueue : ℤ → PackedUserOp → M S Text) where
    -- `handleSendUserOp`
    unfoldable pub handle_send_user_op : RpcRequest → ℤ → S → RpcResponse × S
    unfolding err_resp ok_resp tx_error_resp
    handle_send_user_op req chain_id s = elim (get_elem? req.params 0) [
      | none ↦ (err_resp req.id (negsuc 32601) (codes "Missing userOp"), s)
      | some raw ↦ elim (json.user_operation raw) [
        | err e ↦ (err_resp req.id (negsuc 32601) (codes "invalid userOp: " ++ e.message), s)
        | ok uo ↦ elim (to_packed geth uo) [
          | err e ↦ (err_resp req.id (negsuc 32601) e.message, s)
          | ok packed ↦
              let (r, s') = enqueue chain_id packed s in
              elim r [
                | err e ↦ (tx_error_resp req.id e, s')
                | ok hash ↦ (ok_resp req.id (string hash), s')
              ]
        ]
      ]
    ]

    -- The switch of `handleRPC`.
    unfoldable pub dispatch_method : RpcRequest → ℤ → S → RpcResponse × S
    unfolding handle_send_user_op hex_quantity
    dispatch_method req chain_id s =
        if text_eq req.method (codes "eth_chainId")
        then (ok_resp req.id (string (hex_quantity geth chain_id)), s)
        else if text_eq req.method (codes "eth_supportedEntryPoints")
        then elim (entry_point getenv) [
          | err e ↦ (err_resp req.id (negsuc 32601) e.message, s)
          | ok ep ↦ (ok_resp req.id (strings (ep ∷ [])), s)
        ]
        else if text_eq req.method (codes "eth_estimateUserOperationGas")
        then (
          ok_resp req.id (
              object (
                (codes "preVerificationGas", codes "0x0")
                ∷ (codes "verificationGasLimit", codes "0x0")
                ∷ (codes "callGasLimit", codes "0x0")
                ∷ [])),
          s,
        )
        else if text_eq req.method (codes "eth_sendUserOperation")
        then handle_send_user_op req chain_id s
        else (err_resp req.id (negsuc 32600) (codes "Method not found"), s)

    -- `handleRPC` on a request that has been decoded.
    unfoldable pub handle_request : RpcRequest → ℤ → S → RpcResponse × S
    unfolding dispatch_method effective_chain_id
    handle_request req path s = elim (resolve_chain_id getenv (effective_chain_id json req path)) [
      | err e ↦ (err_resp req.id (negsuc 32601) e.message, s)
      | ok chain_id ↦ dispatch_method req chain_id s
    ]

    -- `handleRPC`, from what `json.Unmarshal` makes of the body.
    unfoldable pub handle_decoded : RpcRequest × Option GoError → ℤ → S → RpcResponse × S
    unfolding handle_request
    handle_decoded (req, some e) path s =
        (err_resp req.id (negsuc 32599) (codes "Invalid Request"), s)
    handle_decoded (req, none) path s =
        if is_empty req.method
        then (err_resp req.id (negsuc 32599) (codes "Invalid Request"), s)
        else handle_request req path s

    -- `handleRPC`
    unfoldable pub handle_rpc : Text → ℤ → S → RpcResponse × S
    unfolding handle_decoded
    handle_rpc body path s = handle_decoded (json.request body) path s
