-- ===== src/Userop/Routing.antt =====
-- userop/rpc.go: which chain a request is served on, and the form of the answers.
use bundler_go.Base.{
  ℤ, pos, ◌≡◌, refl, sym, subst, ◌⊎◌, inl, inr, List, [], ◌∷◌, Text, codes, text_eq, is_empty,
  parse_int-format_int, format_int, in_int64, get_elem?, All, is_digit, has_prefix, ◌||◌, ◌==◌,
  trim_space_lem, numeral-NoSpace, format_int-chars, eq_ℤ, true, false, Option, none, some,
  Option-cases, Result, GoError, Result-cases, M, Bool-cases, arith,
}
use bundler_go.Chain.{Env, entry_point, resolve_chain_id}
use bundler_go.Chain.Startup.{resolve_chain_id-given}
use bundler_go.Evm.Client.{Geth}
use bundler_go.Txerror.{normalize}
use bundler_go.Userop.Types.{PackedUserOp}
use bundler_go.Userop.Packing.{to_packed}
use bundler_go.Userop.Rpc.{
  RpcRequest, Json, RpcError, RpcResponse, Reply, id_or_null, err_resp, ok_resp,
  parse_chain_id_from_params, string_chain_id, chain_id_of_string, effective_chain_id,
  tx_error_resp, handle_send_user_op, dispatch_method, handle_request, handle_decoded, handle_rpc,
}

-- An answer of JSON-RPC: a result or an error but not both, and an error has a code.
abbrev pub Answer : Option Reply → Option RpcError → Type 0
Answer none none = ⊥
Answer none (some e) = eq_ℤ e.code (pos 0) ≡ false
Answer (some r) none = Unit
Answer (some r) (some e) = ⊥

abbrev pub WellFormed : Option Text → RpcResponse → Type 0
WellFormed id r = (r.jsonrpc ≡ codes "2.0") × (r.id ≡ id_or_null id) × Answer r.result r.error

numeral-no_hex :
    (s : Text)
    → All (λ c. (is_digit c || (c == b'-')) ≡ true) s
    → (has_prefix s (codes "0x") || has_prefix s (codes "0X")) ≡ false
numeral-no_hex [] h = refl
numeral-no_hex (a ∷ []) h = ground (arith, h.0)
numeral-no_hex (a ∷ b ∷ s) h = ground (arith, h.0, h.1.0)

-- What the tests of the method say where it is `eth_sendUserOperation`.
abbrev pub IsSend : Text → Type 0
IsSend m =
    (text_eq m (codes "eth_sendUserOperation") ≡ true)
    × (text_eq m (codes "eth_chainId") ≡ false)
    × (text_eq m (codes "eth_supportedEntryPoints") ≡ false)
    × (text_eq m (codes "eth_estimateUserOperationGas") ≡ false)
    × (is_empty m ≡ false)

pub IsSend-method : (m : Text) → m ≡ codes "eth_sendUserOperation" → IsSend m
IsSend-method m e = subst IsSend (sym e) (refl, refl, refl, refl, refl)

module _ (hex_decode : Text → Result Text) (unpack_revert : Text → Result Text)
    {S Key Signed : Type 0} (geth : Geth Key Signed) (json : Json) (getenv : Env)
    (enqueue : ℤ → PackedUserOp → M S Text) where
  tx_error_resp-WellFormed :
      (id : Option Text) (e : GoError) → WellFormed id (tx_error_resp hex_decode unpack_revert id e)
  unfolding tx_error_resp normalize
  tx_error_resp-WellFormed id e = (refl, refl, ground arith)

  handle_send_user_op-WellFormed :
      (req : RpcRequest) (c : ℤ) (s : S)
      → WellFormed req.id
          (handle_send_user_op hex_decode unpack_revert geth json getenv enqueue req c s).0
  unfolding handle_send_user_op err_resp ok_resp
  handle_send_user_op-WellFormed req c s = elim (Option-cases (get_elem? req.params 0)) [
    | inl e ↦ rw (e, handle_send_user_op) (refl, refl, refl)
    | inr (raw, e) ↦ elim (Result-cases (json.user_operation raw)) [
      | inr (x, k) ↦ rw (e, k, handle_send_user_op) (refl, refl, refl)
      | inl (uo, k) ↦ elim (Result-cases (to_packed geth uo)) [
        | inr (x, m) ↦ rw (e, k, m, handle_send_user_op) (refl, refl, refl)
        | inl (packed, m) ↦ elim (Result-cases (enqueue c packed s).0) [
          | inr (x, n) ↦ rw (e, k, m, n, handle_send_user_op) (tx_error_resp-WellFormed req.id x)
          | inl (hash, n) ↦ rw (e, k, m, n, handle_send_user_op) (refl, refl, tt)
        ]
      ]
    ]
  ]

  dispatch_method-WellFormed :
      (req : RpcRequest) (c : ℤ) (s : S)
      → WellFormed req.id
          (dispatch_method hex_decode unpack_revert geth json getenv enqueue req c s).0
  unfolding dispatch_method err_resp ok_resp
  dispatch_method-WellFormed req c s =
      elim (Bool-cases (text_eq req.method (codes "eth_chainId"))) [
        | inl e ↦ rw (e, dispatch_method) (refl, refl, tt)
        | inr e ↦ elim (Bool-cases (text_eq req.method (codes "eth_supportedEntryPoints"))) [
          | inl k ↦ elim (Result-cases (entry_point getenv)) [
            | inr (x, m) ↦ rw (e, k, m, dispatch_method) (refl, refl, refl)
            | inl (ep, m) ↦ rw (e, k, m, dispatch_method) (refl, refl, tt)
          ]
          | inr k ↦ elim (Bool-cases (text_eq req.method (codes "eth_estimateUserOperationGas"))) [
            | inl m ↦ rw (e, k, m, dispatch_method) (refl, refl, tt)
            | inr m ↦ elim (Bool-cases (text_eq req.method (codes "eth_sendUserOperation"))) [
              | inl n ↦ rw (e, k, m, n, dispatch_method) (handle_send_user_op-WellFormed req c s)
              | inr n ↦ rw (e, k, m, n, dispatch_method) (refl, refl, refl)
            ]
          ]
        ]
      ]

  handle_request-WellFormed :
      (req : RpcRequest) (path : ℤ) (s : S)
      → WellFormed req.id
          (handle_request hex_decode unpack_revert geth json getenv enqueue req path s).0
  unfolding handle_request err_resp ok_resp
  handle_request-WellFormed req path s =
      elim (Result-cases (resolve_chain_id getenv (effective_chain_id json req path))) [
        | inr (x, e) ↦ rw (e, handle_request) (refl, refl, refl)
        | inl (c, e) ↦ rw (e, handle_request) (dispatch_method-WellFormed req c s)
      ]

  handle_decoded-WellFormed :
      (decoded : RpcRequest × Option GoError) (path : ℤ) (s : S)
      → WellFormed decoded.0.id
          (handle_decoded hex_decode unpack_revert geth json getenv enqueue decoded path s).0
  unfolding handle_decoded err_resp
  handle_decoded-WellFormed (req, some x) path s = (refl, refl, refl)
  handle_decoded-WellFormed (req, none) path s = elim (Bool-cases (is_empty req.method)) [
    | inl k ↦ rw (k, handle_decoded) (refl, refl, refl)
    | inr k ↦ rw (k, handle_decoded) (handle_request-WellFormed req path s)
  ]

  -- Every answer of `handleRPC` is one of JSON-RPC 2.0: it has the id of the request as far as it was
  -- decoded, or null, and either a result or an error whose code is not 0, never both or neither.
  pub handle_rpc-WellFormed :
      (body : Text) (path : ℤ) (s : S)
      → WellFormed
          (json.request body).0.id
          (handle_rpc hex_decode unpack_revert geth json getenv enqueue body path s).0
  unfolding handle_rpc
  handle_rpc-WellFormed body path s = handle_decoded-WellFormed (json.request body) path s

  handle_decoded-read_only :
      (decoded : RpcRequest × Option GoError) (path : ℤ) (s : S)
      → text_eq decoded.0.method (codes "eth_sendUserOperation") ≡ false
      → (handle_decoded hex_decode unpack_revert geth json getenv enqueue decoded path s).1 ≡ s
  unfolding handle_decoded handle_request dispatch_method
  handle_decoded-read_only (req, some x) path s h = refl
  handle_decoded-read_only (req, none) path s h = ground (arith, h)

  -- A method other than `eth_sendUserOperation` changes nothing, whatever the request holds.
  handle_rpc-read_only :
      (body : Text) (path : ℤ) (s : S)
      → text_eq (json.request body).0.method (codes "eth_sendUserOperation") ≡ false
      → (handle_rpc hex_decode unpack_revert geth json getenv enqueue body path s).1 ≡ s
  unfolding handle_rpc
  handle_rpc-read_only body path s h = handle_decoded-read_only (json.request body) path s h

  string_chain_id-number :
      (raw : Text) (c : ℤ)
      → json.string raw ≡ some (format_int c)
      → in_int64 c ≡ true
      → string_chain_id json raw ≡ c
  unfolding string_chain_id chain_id_of_string
  string_chain_id-number raw c m r =
      let chars = format_int-chars c in
      rw
        (
          string_chain_id,
          m,
          trim_space_lem (format_int c) (numeral-NoSpace (format_int c) chars),
          numeral-no_hex (format_int c) chars,
          parse_int-format_int c r,
          string_chain_id,
        )
        refl

  parse_chain_id_number :
      (params : List Text) (raw : Text) (c : ℤ)
      → get_elem? params 2 ≡ some raw
      → (json.number raw ≡ some (format_int c))
        ⊎ ((json.number raw ≡ none) × (json.string raw ≡ some (format_int c)))
      → in_int64 c ≡ true
      → parse_chain_id_from_params json params ≡ c
  unfolding parse_chain_id_from_params string_chain_id chain_id_of_string
  parse_chain_id_number params raw c e (inl k) r =
      rw (e, k, parse_int-format_int c r, parse_chain_id_from_params) refl
  parse_chain_id_number params raw c e (inr (k, m)) r =
      rw (e, k, parse_chain_id_from_params) (string_chain_id-number raw c m r)

  effective_chain_id-params :
      (req : RpcRequest) (path c : ℤ)
      → text_eq req.method (codes "eth_sendUserOperation") ≡ true
      → parse_chain_id_from_params json req.params ≡ c
      → eq_ℤ c (pos 0) ≡ false
      → effective_chain_id json req path ≡ c
  unfolding effective_chain_id
  effective_chain_id-params req path c m q n = rw (m, q, n) refl

  pub dispatch_method-send :
      (req : RpcRequest) (c : ℤ) (s : S)
      → IsSend req.method
      → dispatch_method hex_decode unpack_revert geth json getenv enqueue req c s
        ≡ handle_send_user_op hex_decode unpack_revert geth json getenv enqueue req c s
  unfolding dispatch_method
  dispatch_method-send req c s (h, a, b, d, k) = rw (a, b, d, h, dispatch_method) refl

  handle_decoded-send :
      (req : RpcRequest) (path c : ℤ) (s : S)
      → IsSend req.method
      → parse_chain_id_from_params json req.params ≡ c
      → eq_ℤ c (pos 0) ≡ false
      → handle_decoded hex_decode unpack_revert geth json getenv enqueue (req, none) path s
        ≡ handle_send_user_op hex_decode unpack_revert geth json getenv enqueue req c s
  unfolding handle_decoded handle_request
  handle_decoded-send req path c s (h, a, b, d, ne) q n =
      rw
        (
          ne,
          effective_chain_id-params req path c h q n,
          resolve_chain_id-given getenv c n,
          handle_request,
          handle_decoded,
        )
        (dispatch_method-send req c s (h, a, b, d, ne))

  -- An `eth_sendUserOperation` whose params[2] is the decimal form of a chain id other than 0, as a
  -- number or as a string, is served on that chain, whatever the path and the default say.
  pub handle_rpc-params_chain :
      (body : Text) (path : ℤ) (s : S) (req : RpcRequest) (raw : Text) (c : ℤ)
      → json.request body ≡ (req, none)
      → req.method ≡ codes "eth_sendUserOperation"
      → get_elem? req.params 2 ≡ some raw
      → (json.number raw ≡ some (format_int c))
        ⊎ ((json.number raw ≡ none) × (json.string raw ≡ some (format_int c)))
      → in_int64 c ≡ true
      → eq_ℤ c (pos 0) ≡ false
      → handle_rpc hex_decode unpack_revert geth json getenv enqueue body path s
        ≡ handle_send_user_op hex_decode unpack_revert geth json getenv enqueue req c s
  unfolding handle_rpc
  handle_rpc-params_chain body path s req raw c e m p k r n = rw e (
      handle_decoded-send req path c s (IsSend-method req.method m)
        (parse_chain_id_number req.params raw c p k r) n)
