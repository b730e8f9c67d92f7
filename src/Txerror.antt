-- ===== src/Txerror.antt =====
-- internal/platform/txerror/txerror.go: the classification of transaction and RPC failures.
-- `hexutil.Decode` and `abi.UnpackRevert` are parameters.
pub mod Codes
pub mod Contract
pub mod Wrap
use Codes.{find_revert_code}
use bundler_go.Base.{
  ℕ, ◌+◌, ◌≤◌, ◌<◌, ◌≡◌, Bool, true, false, not, ◌&&◌, ◌||◌, Option, none, some, List, [], ◌∷◌,
  ◌++◌, Text, codes, is_empty, text_eq, to_lower, contains, ℤ, pos, negsuc, leb_ℤ, GoError, Result,
  ok, err, if◌then◌else◌,
}

pub data Category : Type 0 where
  revert insufficient_funds nonce network timeout server unknown : Category

pub record Normalized : Type 0 where
  pub status : ℕ
  pub rpc_code : ℤ
  pub category : Category
  pub code : Text
  pub native_code : Text
  pub reason : Text
  pub tx_hash : Text
  pub retryable : Bool
  pub message : Text

-- The map from a revert code to its description.
unfoldable pub revert_messages : List (Text × Text)
revert_messages =
    (codes "AC001", codes "caller is not EntryPoint")
    ∷ (codes "AC004", codes "target call failed")
    ∷ (codes "AC005", codes "native transfer failed")
    ∷ (codes "AC006", codes "beneficiary not set")
    ∷ (codes "AC007", codes "insufficient ERC20 balance")
    ∷ (codes "AC008", codes "ERC20 transfer failed")
    ∷ (codes "AC009", codes "forwarding disabled")
    ∷ (codes "AC010", codes "signature verification failed")
    ∷ (codes "EP001", codes "insufficient deposit")
    ∷ (codes "EP003", codes "insufficient gas balance")
    ∷ (codes "EP011", codes "account not deployed")
    ∷ (codes "PM006", codes "insufficient token balance")
    ∷ (codes "PM007", codes "insufficient token allowance")
    ∷ []

unfoldable pub find_message : Text → List (Text × Text) → Option Text
find_message k [] = none
find_message k ((j, m) ∷ rest) = if text_eq j k then some m else find_message k rest

-- `revertMessages[k]`
unfoldable pub revert_message : Text → Option Text
unfolding find_message revert_messages
revert_message k = find_message k revert_messages

unfoldable pub first_non_empty : Text → Text → Text
first_non_empty a b = if not (is_empty a) then a else b

-- `FindStringSubmatch` on the reason, then on the message.
unfoldable pub search_texts : Text → Text → Text
search_texts reason msg = elim (find_revert_code reason) [
  | some c ↦ c
  | none ↦ elim (find_revert_code msg) [ some c ↦ c | none ↦ [] ]
]

-- The code in the reason or the message; the empty text if there is none.
unfoldable pub extract_revert_code : Text → Text → Text
unfolding revert_message search_texts
extract_revert_code reason msg = elim (revert_message reason) [
  | some m ↦ if not (is_empty reason) then reason else search_texts reason msg
  | none ↦ search_texts reason msg
]

module _ (hex_decode : Text → Result Text) (unpack_revert : Text → Result Text) where
  -- The decoded revert reason, empty if there is none.
  unfoldable pub extract_reason : GoError → Text
  extract_reason e = elim e.error_data [
    | none ↦ []
    | some text ↦ elim (hex_decode text) [
      | err x ↦ []
      | ok b ↦ elim (unpack_revert b) [ err x ↦ [] | ok r ↦ r ]
    ]
  ]

-- The code of `extractRPC`, zero if there is none.
unfoldable pub extract_code : GoError → ℤ
extract_code e = elim e.error_code [ none ↦ pos 0 | some c ↦ c ]

-- The texts that `Normalize` looks for, in the lower-case text of message and reason.
unfoldable pub is_nonce_text : Text → Bool
is_nonce_text low =
    contains low (codes "nonce") || contains low (codes "replacement transaction underpriced")

unfoldable pub is_timeout_text : Text → Bool
is_timeout_text low = contains low (codes "timeout") || contains low (codes "deadline exceeded")

unfoldable pub is_network_text : Text → Bool
is_network_text low =
    contains low (codes "connection refused")
    || contains low (codes "connection reset")
    || contains low (codes "no such host")
    || contains low (codes "eof")

-- `rpcCode <= -32000 && rpcCode >= -32099`
unfoldable pub is_server_code : ℤ → Bool
is_server_code c = leb_ℤ c (negsuc 31999) && leb_ℤ (negsuc 32098) c

-- A failure that is not a revert: no native code, reason or hash.
abbrev pub plain : ℕ → Category → Text → ℤ → Bool → Text → Normalized
plain status category code rpc_code retryable message = record {
  status = status;
  rpc_code = rpc_code;
  category = category;
  code = code;
  native_code = [];
  reason = [];
  tx_hash = [];
  retryable = retryable;
  message = message;
}

abbrev pub reverted : Text → Text → ℤ → Text → Normalized
reverted revert_code reason rpc_code base = record {
  status = 422;
  rpc_code = rpc_code;
  category = revert;
  code = if is_empty revert_code then codes "CALL_EXCEPTION" else revert_code;
  native_code = codes "CALL_EXCEPTION";
  reason = first_non_empty reason revert_code;
  tx_hash = [];
  retryable = false;
  message = elim (revert_message revert_code) [ some m ↦ m | none ↦ base ];
}

-- The text that the heuristics read: `strings.ToLower(msg + " " + reason)`.
abbrev pub low_text : Text → Text → Text
low_text msg reason = to_lower (msg ++ (codes " " ++ reason))

-- `Normalize` from the reason and the code that `extractRPC` returns.
unfoldable pub classify : Text → Text → ℤ → Normalized
unfolding is_nonce_text is_timeout_text is_network_text is_server_code
classify msg reason rpc_code =
    let revert_code = extract_revert_code reason msg in
    let base = first_non_empty reason msg in
    let low = low_text msg reason in
    if not (is_empty revert_code) || contains low (codes "execution reverted")
    then reverted revert_code reason rpc_code base
    else if contains low (codes "insufficient funds")
    then plain 422 insufficient_funds (codes "INSUFFICIENT_FUNDS") rpc_code false base
    else if is_nonce_text low
    then plain 409 nonce (codes "BUNDLER_NONCE_CONFLICT") rpc_code true base
    else if is_timeout_text low
    then plain 503 timeout (codes "RPC_TIMEOUT") rpc_code true base
    else if is_network_text low
    then plain 503 network (codes "RPC_NETWORK_ERROR") rpc_code true base
    else if is_server_code rpc_code
    then plain 503 server (codes "RPC_SERVER_ERROR") rpc_code true base
    else plain 500 unknown (codes "BUNDLER_SEND_FAILED") rpc_code true base

module _ (hex_decode : Text → Result Text) (unpack_revert : Text → Result Text) where
  unfoldable pub normalize_error : GoError → Normalized
  unfolding extract_reason extract_code classify
  normalize_error e =
      classify e.message (extract_reason hex_decode unpack_revert e) (extract_code e)

  -- `Normalize(err)`, with `none` for nil.
  unfoldable pub normalize : Option GoError → Option Normalized
  unfolding normalize_error
  normalize none = none
  normalize (some e) = some (normalize_error e)
