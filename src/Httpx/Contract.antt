-- ===== src/Httpx/Contract.antt =====
-- httpx.go: the statuses and bodies of the answers, against the error contract of README.md.
use bundler_go.Base.{
  ℕ, ◌≡◌, ◌≢◌, refl, sym, ap, ◌∙◌, Text, Option, none, some, Result, ok, err, GoError,
}
use bundler_go.Evm.Client.{Geth}
use bundler_go.Httpx.{
  Body, error_body, tx_error, result, Response, Outcome, responds, panics, write_json,
  write_validation_error, write_normalized, write_tx_error, finish,
}
use bundler_go.Txerror.{Normalized, normalize, normalize_error}
use bundler_go.Txerror.Contract.{Row, classify-Row}

-- What an answer may be: a complaint with status 400, a failure that is a row of the contract's table and
-- has the status of that row, or a result with status 200.
abbrev pub AllowedBody : {A : Type 0} → ℕ → Body A → Type 0
AllowedBody status (error_body m) = status ≡ 400
AllowedBody status (tx_error n) = (status ≡ n.status) × Row n.category n.code n.status n.retryable
AllowedBody status (result a) = status ≡ 200

abbrev pub Allowed : {A : Type 0} → Response A → Type 0
Allowed r = AllowedBody r.status r.body

-- A handler ends with an answer.
abbrev pub Ends : {A : Type 0} → Outcome A → Type 0
Ends (responds r) = Allowed r
Ends panics = ⊥

pub tx_error-ne-result : {A : Type 0} {n : Normalized} {a : A} → tx_error n ≡ result a → ⊥
tx_error-ne-result h = cc

pub error_body-ne-result : {A : Type 0} {m : Text} {a : A} → error_body m ≡ result a → ⊥
error_body-ne-result h = cc

pub result_inj : {A : Type 0} {a b : A} → result a ≡ result b → a ≡ b
result_inj h = cc

pub responds_inj : {A : Type 0} {r t : Response A} → responds r ≡ responds t → r ≡ t
responds_inj h = cc

panics-ne-responds : {A : Type 0} {r : Response A} → panics ≡ responds r → ⊥
panics-ne-responds h = cc

pub write_validation_error-Allowed :
    (A : Type 0) (m : Text) → Allowed {A = A} (write_validation_error m)
unfolding write_validation_error write_json
write_validation_error-Allowed A m = refl

-- A complaint is no result.
pub write_validation_error-ne-result :
    {A : Type 0} (m : Text) {r : Response A} {a : A}
    → responds (write_validation_error m) ≡ responds r
    → r.body ≡ result a
    → ⊥
unfolding write_validation_error write_json
write_validation_error-ne-result {A} m h k =
    error_body-ne-result (ap (λ (x : Response A). x.body) (responds_inj h) ∙ k)

module _ {Key Signed : Type 0} (A : Type 0) (geth : Geth Key Signed) where
  pub write_tx_error-Allowed : (e : GoError) → Allowed {A = A} (write_tx_error geth (some e))
  unfolding write_tx_error write_normalized write_json normalize normalize_error
  write_tx_error-Allowed e = (refl, classify-Row _ _ _)

  pub finish-Ends :
      (r : Result (Option A)) → ((out : Option A) → r ≡ ok out → out ≢ none) → Ends (finish geth r)
  unfolding finish write_json
  finish-Ends (err e) h = write_tx_error-Allowed e
  finish-Ends (ok none) h = h none refl refl
  finish-Ends (ok (some a)) h = refl

  -- What is answered as a result with status 200 is what was found.
  pub finish-result :
      (out : Result (Option A)) {r : Response A} {a : A}
      → finish geth out ≡ responds r
      → r.body ≡ result a
      → (out ≡ ok (some a)) × (r.status ≡ 200)
  unfolding finish write_json write_tx_error write_normalized normalize
  finish-result (err e) h k =
      absurd (tx_error-ne-result (ap (λ (x : Response A). x.body) (responds_inj h) ∙ k))
  finish-result (ok none) h k = absurd (panics-ne-responds h)
  finish-result (ok (some b)) h k = (
    ap (λ x. ok (some x)) (result_inj (ap (λ (x : Response A). x.body) (responds_inj h) ∙ k)),
    ap (λ (x : Response A). x.status) (sym (responds_inj h)),
  )
