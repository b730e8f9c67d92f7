-- ===== src/Httpx.antt =====
-- internal/platform/httpx/httpx.go: the answers of the HTTP handlers, and how a handler ends.
pub mod Contract
use bundler_go.Base.{◌≡◌, ◌≢◌, refl, ℕ, Text, codes, Option, none, some, Result, ok, err, GoError}
use bundler_go.Evm.Client.{Geth}
use bundler_go.Txerror.{Normalized, normalize}

-- The JSON body: `{"error": msg}`, a classified failure, or a result.
pub data Body (A : Type 0) : Type 0 where
  error_body : Text → Body A
  tx_error : Normalized → Body A
  result : A → Body A

pub record Response (A : Type 0) : Type 0 where
  pub status : ℕ
  pub body : Body A

-- A handler answers, or reads a nil pointer.
pub data Outcome (A : Type 0) : Type 0 where
  responds : Response A → Outcome A
  panics : Outcome A

-- `WriteJSON`
unfoldable pub write_json : {A : Type 0} → ℕ → Body A → Response A
write_json status body = record { status = status; body = body }

-- `WriteValidationError`
unfoldable pub write_validation_error : {A : Type 0} → Text → Response A
unfolding write_json
write_validation_error msg = write_json 400 (error_body msg)

module _ {Key Signed A : Type 0} (geth : Geth Key Signed) where
  unfoldable pub write_normalized : Option Normalized → Response A
  unfolding write_json
  write_normalized none = write_json 500 (error_body (codes "unknown error"))
  write_normalized (some n) = write_json n.status (tx_error n)

  -- `WriteTxError`
  unfoldable pub write_tx_error : Option GoError → Response A
  unfolding write_normalized
  write_tx_error e = write_normalized (normalize geth.hex_decode geth.unpack_revert e)

  -- The end of a handler: the result, if it could be read.
  unfoldable pub finish : Result (Option A) → Outcome A
  unfolding write_tx_error write_json
  finish (err e) = responds (write_tx_error (some e))
  finish (ok none) = panics
  finish (ok (some a)) = responds (write_json 200 (result a))
