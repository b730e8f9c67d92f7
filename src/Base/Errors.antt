-- ===== src/Base/Errors.antt =====
-- Go's `error` values as far as the program looks at them, results of fallible calls, and calls
-- that also change the world outside (`M`).
use mathlib.Core.Path.{◌≡◌, refl, sym, ap}
use mathlib.Core.Bool.{Bool, true, false}
use mathlib.Core.Logic.{◌⊎◌, inl, inr}
use mathlib.Core.Option.{Option, none}
use mathlib.Core.List.{◌++◌}
use bundler_go.Base.Int.{ℤ}
use bundler_go.Base.Strings.{Text}

-- `message` is `err.Error()`. `error_data` is the string under the `rpc.DataError` that `errors.As`
-- finds in the chain, and `error_code` the code of the `rpc.Error` that it finds.
pub record GoError : Type 0 where
  pub message : Text
  pub error_data : Option Text
  pub error_code : Option ℤ

-- `errors.New`, and `fmt.Errorf` without `%w`.
abbrev pub new_error : Text → GoError
new_error m = record { message = m; error_data = none; error_code = none }

-- `fmt.Errorf(prefix + "%w", err)`: the chain below stays visible to `errors.As`.
abbrev pub wrap_error : Text → GoError → GoError
wrap_error prefix e = record e { message = prefix ++ e.message }

pub data Result {ℓ} (A : Type ℓ) : Type ℓ where
  ok : A → Result A
  err : GoError → Result A

infixl 5 ◌>>=◌ ◌>>◌
abbrev pub M : Type 0 → Type 0 → Type 0
M W A = W → Result A × W

-- What stands behind a call: an error ends the sequence.
abbrev pub and_then : {W A B : Type 0} → (A → M W B) → Result A × W → Result B × W
and_then f (ok a, w) = f a w
and_then f (err e, w) = (err e, w)

abbrev pub ◌>>=◌ : {W A B : Type 0} → M W A → (A → M W B) → M W B
◌>>=◌ m f w = and_then f (m w)

abbrev pub ◌>>◌ : {W A B : Type 0} → M W A → M W B → M W B
m >> k = m >>= λ _. k

abbrev pub return : {W A : Type 0} → A → M W A
return a w = (ok a, w)

abbrev pub fail : {W A : Type 0} → GoError → M W A
fail e w = (err e, w)

-- A result that touches nothing outside.
abbrev pub lift : {W A : Type 0} → Result A → M W A
lift r w = (r, w)

-- `if !test { return err }`
abbrev pub check : {W : Type 0} → Bool → GoError → M W (Unit {0})
check true e w = (ok tt, w)
check false e w = (err e, w)

pub Result-cases {ℓ} :
    {A : Type ℓ} (r : Result A) → ((a : A) × (r ≡ ok a)) ⊎ ((e : GoError) × (r ≡ err e))
Result-cases (ok a) = inl (a, refl)
Result-cases (err e) = inr (e, refl)

pub ok_inj {ℓ} : {A : Type ℓ} {a b : A} → ok a ≡ ok b → a ≡ b
ok_inj h = cc

pub err-ne-ok {ℓ} : {A : Type ℓ} {e : GoError} {a : A} → err e ≡ ok a → ⊥
err-ne-ok h = cc

module _ {W A B : Type 0} where
  and_then-ok :
      (f : A → M W B) (r : Result A × W) {b : B}
      → (and_then f r).0 ≡ ok b
      → (a : A) × (r.0 ≡ ok a) × ((f a r.1).0 ≡ ok b)
  and_then-ok f (ok a, w) h = (a, refl, h)
  and_then-ok f (err e, w) h = absurd (err-ne-ok h)

  -- A sequence that succeeds has succeeded in each of its parts.
  pub >>=-ok :
      (m : M W A) (f : A → M W B) (w : W) {b : B}
      → ((m >>= f) w).0 ≡ ok b
      → (a : A) × ((m w).0 ≡ ok a) × ((f a (m w).1).0 ≡ ok b)
  >>=-ok m f w h = and_then-ok f (m w) h

err_inj : {A : Type 0} {x y : GoError} → ◌≡◌ {A = Result A} (err x) (err y) → x ≡ y
err_inj h = cc

-- What a chain comes to behind a step that is known.
pub and_then-is_ok :
    {W A B : Type 0} (f : A → M W B) (r : Result A × W) {a : A}
    → r.0 ≡ ok a
    → (and_then f r).0 ≡ (f a r.1).0
and_then-is_ok f (ok b, w) h = ap (λ x. (f x w).0) (ok_inj h)
and_then-is_ok f (err e, w) h = absurd (err-ne-ok h)

pub and_then-is_err :
    {W A B : Type 0} (f : A → M W B) (r : Result A × W) {e : GoError}
    → r.0 ≡ err e
    → (and_then f r).0 ≡ err e
and_then-is_err f (ok b, w) h = absurd (err-ne-ok (sym h))
and_then-is_err f (err x, w) h = ap err (err_inj h)

-- A check that was passed.
pub check-ok :
    {W : Type 0} (test : Bool) (e : GoError) (w : W) {u : Unit {0}}
    → (check test e w).0 ≡ ok u
    → test ≡ true
check-ok true e w h = refl
check-ok false e w h = absurd (err-ne-ok h)

-- What stands behind a check runs at the same state where it was passed.
pub check_passed :
    {W B : Type 0} (test : Bool) (e : GoError) (k : M W B) (w : W) {b : B}
    → ((check test e >> k) w).0 ≡ ok b
    → (test ≡ true) × ((k w).0 ≡ ok b)
check_passed true e k w h = (refl, h)
check_passed false e k w h = absurd (err-ne-ok h)
