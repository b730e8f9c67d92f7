-- ===== src/Base/Decimal.antt =====
-- `strconv.FormatInt`, `ParseInt` and `Atoi`, and `SetString` of `big.Int` at a given base.
use Prim.Native.Nat.{ℕ, zero, suc, ◌+◌, ◌-◌, ◌*◌, ◌/◌, ◌%◌, ◌<◌}
use mathlib.Core.Path.{◌≡◌, refl, ap, sym, ◌∙◌}
use mathlib.Core.Logic.{inl, inr}
use mathlib.Core.Bool.{true, false, ◌&&◌, ◌||◌}
use mathlib.Core.Option
use mathlib.Core.Option.{Option, none, some}
use mathlib.Core.List.{[], ◌∷◌, ◌++◌}
use native.Mathlib.Omega.{arith}
use bundler_go.Base.Tests.{ltb, leb, ◌==◌, if◌then◌else◌, Bool-cases, some_inj, Option-cases}
use bundler_go.Base.Lists.{All, All-append}
use bundler_go.Base.Int.{ℤ, pos, negsuc, in_int64}
use bundler_go.Base.Strings.{Text, is_digit, is_empty}

-- The value of a digit, or of a letter from ten on, where it is below the base.
unfoldable pub digit_value : ℕ → ℕ → Option ℕ
digit_value base c =
    let d =
      if is_digit c
      then c - b'0'
      else if leb b'a' c && leb c b'z'
      then c - b'a' + 10
      else if leb b'A' c && leb c b'Z'
      then c - b'A' + 10
      else base in
    if ltb d base then some d else none

unfoldable pub parse_from : ℕ → ℕ → Text → Option ℕ
unfolding digit_value
parse_from base acc [] = some acc
parse_from base acc (c ∷ s) = elim (digit_value base c) [
  | none ↦ none
  | some d ↦ parse_from base (acc * base + d) s
]

-- At least one digit, and nothing else.
unfoldable pub parse_nat : ℕ → Text → Option ℕ
unfolding parse_from
parse_nat base [] = none
parse_nat base (c ∷ s) = parse_from base 0 (c ∷ s)

abbrev pub negate : ℕ → ℤ
negate zero = pos 0
negate (suc n) = negsuc n

-- `SetString(s, base)` of `big.Int`: a sign and digits.
unfoldable pub set_string : ℕ → Text → Option ℤ
unfolding parse_nat
set_string base [] = none
set_string base (c ∷ s) =
    if c == b'-'
    then Option.map negate (parse_nat base s)
    else if c == b'+'
    then Option.map pos (parse_nat base s)
    else Option.map pos (parse_nat base (c ∷ s))

abbrev pub in_range : ℤ → Option ℤ
in_range n = if in_int64 n then some n else none

-- `ParseInt(s, base, 64)`, at the bases 10 and 16; `Atoi(s)` is that at 10.
unfoldable pub parse_int : ℕ → Text → Option ℤ
unfolding set_string
parse_int base s = elim (set_string base s) [ none ↦ none | some n ↦ in_range n ]

-- The decimal digits, with fuel above the number.
unfoldable pub to_digits : ℕ → ℕ → Text
to_digits zero n = []
to_digits (suc f) n =
    let more = to_digits f (n / 10) ++ (b'0' + n % 10) ∷ [] in
    if ltb n 10 then (b'0' + n) ∷ [] else more

unfoldable pub itoa : ℕ → Text
unfolding to_digits
itoa n = to_digits (suc n) n

-- `FormatInt(n, 10)`, and `%d`.
unfoldable pub format_int : ℤ → Text
unfolding itoa
format_int (pos n) = itoa n
format_int (negsuc n) = b'-' ∷ itoa (suc n)

digit_value_lem : (d : ℕ) → d < 10 → digit_value 10 (b'0' + d) ≡ some d
unfolding digit_value
digit_value_lem d h = ground arith

parse_from-append :
    (base acc c : ℕ) (s : Text) {m d : ℕ}
    → parse_from base acc s ≡ some m
    → digit_value base c ≡ some d
    → parse_from base acc (s ++ c ∷ []) ≡ some (m * base + d)
unfolding parse_from
parse_from-append base acc c [] h k = ground arith
parse_from-append base acc c (x ∷ s) h k = elim (Option-cases (digit_value base x)) [
  | inl e ↦ ground arith
  | inr (y, e) ↦ rw (e, parse_from) (parse_from-append base (acc * base + y) c s (ground arith) k)
]

parse-to_digits : (f n : ℕ) → n < f → parse_from 10 0 (to_digits f n) ≡ some n
unfolding to_digits
parse-to_digits zero n h = absurd (omega arith)
parse-to_digits (suc f) n h = elim (Bool-cases (ltb n 10)) [
  | inl small ↦ rw small (
      parse_from-append 10 0 (b'0' + n) [] {m = 0} {d = n} (unfold parse_from in refl)
        (digit_value_lem n (ground arith))
      ∙ ap some (omega arith))
  | inr big ↦ rw big (
      parse_from-append 10 0 (b'0' + n % 10) (to_digits f (n / 10))
        (parse-to_digits f (n / 10) (ground arith)) (digit_value_lem (n % 10) (omega arith))
      ∙ ap some (omega arith))
]

to_digits-digits : (f n : ℕ) → All (λ c. is_digit c ≡ true) (to_digits f n)
unfolding to_digits
to_digits-digits zero n = tt
to_digits-digits (suc f) n = elim (Bool-cases (ltb n 10)) [
  | inl small ↦ rw small (ground arith, tt)
  | inr big ↦
      rw big
        (All-append _ (to_digits f (n / 10)) _ (to_digits-digits f (n / 10)) (ground arith, tt))
]

-- The text of a number consists of decimal digits.
pub itoa-digits : (n : ℕ) → All (λ c. is_digit c ≡ true) (itoa n)
unfolding itoa
itoa-digits n = to_digits-digits (suc n) n

append-cons : (s : Text) (x : ℕ) → (c : ℕ) × (t : Text) × (s ++ x ∷ [] ≡ c ∷ t)
append-cons [] x = (x, [], refl)
append-cons (c ∷ s) x = (c, s ++ x ∷ [], refl)

itoa-cons : (n : ℕ) → (c : ℕ) × (s : Text) × (itoa n ≡ c ∷ s)
unfolding itoa
itoa-cons n = elim (Bool-cases (ltb n 10)) [
  | inl small ↦ (b'0' + n, [], rw small)
  | inr big ↦ rw big (append-cons (to_digits n (n / 10)) _)
]

parse_nat-cons :
    (base : ℕ) (s : Text) (c : ℕ) (t : Text) → s ≡ c ∷ t → parse_nat base s ≡ parse_from base 0 s
unfolding parse_nat
parse_nat-cons base [] c t e = cc
parse_nat-cons base (x ∷ s) c t e = refl

parse_nat-itoa : (n : ℕ) → parse_nat 10 (itoa n) ≡ some n
unfolding itoa
parse_nat-itoa n =
    let (c, s, e) = itoa-cons n in
    parse_nat-cons 10 (itoa n) c s e ∙ parse-to_digits (suc n) n (omega arith)

set_string-itoa : (n : ℕ) → set_string 10 (itoa n) ≡ some (pos n)
unfolding set_string
set_string-itoa n =
    let (c, s, e) = itoa-cons n in
    let d = itoa-digits n in let k = parse_nat-itoa n in rw e (ground (arith, rw e at d, rw e at k))

pub set_string-format_int : (n : ℤ) → set_string 10 (format_int n) ≡ some n
unfolding format_int
set_string-format_int (pos n) = set_string-itoa n
set_string-format_int (negsuc n) = unfold set_string in (rw parse_nat-itoa)

-- A number of int64 is read back from its decimal text.
pub parse_int-format_int : (n : ℤ) → in_int64 n ≡ true → parse_int 10 (format_int n) ≡ some n
unfolding parse_int
parse_int-format_int n h = rw (set_string-format_int n, parse_int) (rw h)

-- Two numbers with one decimal text are equal.
pub format_int-inj : (m n : ℤ) → format_int m ≡ format_int n → m ≡ n
format_int-inj m n h =
    some_inj (sym (set_string-format_int m) ∙ ap (set_string 10) h ∙ set_string-format_int n)

weaken :
    (s : Text) → All (λ c. is_digit c ≡ true) s → All (λ c. (is_digit c || (c == b'-')) ≡ true) s
weaken [] h = tt
weaken (c ∷ s) h = (ground arith, weaken s h.1)

-- A decimal text holds no character but digits and the minus sign.
pub format_int-chars : (n : ℤ) → All (λ c. (is_digit c || (c == b'-')) ≡ true) (format_int n)
unfolding format_int
format_int-chars (pos n) = weaken (itoa n) (itoa-digits n)
format_int-chars (negsuc n) = (refl, weaken (itoa (suc n)) (itoa-digits (suc n)))

pub format_int-nonempty : (n : ℤ) → is_empty (format_int n) ≡ false
unfolding format_int
format_int-nonempty (pos n) = let (c, s, e) = itoa-cons n in rw e
format_int-nonempty (negsuc n) = refl
