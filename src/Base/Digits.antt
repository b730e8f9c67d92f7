-- ===== src/Base/Digits.antt =====
-- The last digit of the decimal text of a number.
use Prim.Native.Nat.{ℕ, zero, suc, ◌+◌, ◌*◌, ◌/◌, ◌%◌, ◌<◌}
use mathlib.Core.Path.{◌≡◌, ap}
use mathlib.Core.Logic.{inl, inr}
use mathlib.Core.Bool.{false}
use mathlib.Core.List.{[], ◌∷◌, ◌++◌}
use native.Mathlib.Omega.{arith}
use bundler_go.Base.Tests.{ltb, Bool-cases}
use bundler_go.Base.Decimal.{to_digits, itoa}

to_digits_fuel : (f g n : ℕ) → n < f → n < g → to_digits f n ≡ to_digits g n
unfolding to_digits
to_digits_fuel zero g n h k = absurd (omega arith)
to_digits_fuel (suc f) zero n h k = absurd (omega arith)
to_digits_fuel (suc f) (suc g) n h k = elim (Bool-cases (ltb n 10)) [
  | inl small ↦ rw small
  | inr big ↦ rw big (
      ap (λ t. t ++ (b'0' + n % 10) ∷ [])
        (to_digits_fuel f g (n / 10) (ground (arith, big)) (ground (arith, big))))
]

pub itoa-snoc : (c d : ℕ) → 0 < c → d < 10 → itoa (10 * c + d) ≡ itoa c ++ (b'0' + d) ∷ []
unfolding itoa
itoa-snoc c d h k =
    let n = 10 * c + d in
    let big : ltb n 10 ≡ false = ground (arith, h, k) in
    let tens : n / 10 ≡ c = omega arith in
    let ones : n % 10 ≡ d = omega arith in
    rw big (
      rw (tens, ones)
        (ap (λ t. t ++ (b'0' + d) ∷ []) (to_digits_fuel n (suc c) c (omega arith) (omega arith))))
