-- ===== src/Evm/NumberLaws.antt =====
-- evm.go: `ToBigInt` on decimal texts, and on hexadecimal texts with a sign behind the prefix.
use bundler_go.Base.{
  ℕ, ℤ, ◌++◌, ◌∷◌, [], Text, codes, true, false, ◌≡◌, refl, some, ok, arith, All, trim_space_lem,
  NoSpace, numeral-NoSpace, format_int, format_int-chars, format_int-nonempty,
  set_string-format_int, is_digit, set_string, parse_nat, negate, is_space, ◌||◌, ◌==◌,
}
use bundler_go.Evm.Number.{Float, str, parse_big_string, read_integer, has_hex_prefix, to_big_int}

numeral-no_prefix :
    (s : Text) → All (λ c. (is_digit c || (c == b'-')) ≡ true) s → has_hex_prefix s ≡ false
numeral-no_prefix [] h = refl
numeral-no_prefix (c ∷ []) h = ground (arith, h.0)
numeral-no_prefix (c ∷ d ∷ s) h = ground (arith, h.0, h.1.0)

format_int-parse : (n : ℤ) → parse_big_string (format_int n) ≡ ok n
unfolding parse_big_string
format_int-parse n =
    let d = format_int-chars n in
    rw (trim_space_lem (format_int n) (numeral-NoSpace (format_int n) d)) (
      rw (format_int-nonempty n)
        (rw (numeral-no_prefix (format_int n) d) (rw (set_string-format_int n, read_integer))))

set_string-minus :
    (s : Text) {n : ℕ} → parse_nat 16 s ≡ some n → set_string 16 (b'-' ∷ s) ≡ some (negate n)
unfolding set_string
set_string-minus s e = rw e

signed_hex-parse :
    (s : Text) {n : ℕ}
    → NoSpace s
    → parse_nat 16 s ≡ some n
    → parse_big_string (codes "0x-" ++ s) ≡ ok (negate n)
unfolding parse_big_string
signed_hex-parse s h e =
    rw (trim_space_lem (codes "0x-" ++ s) (unfold is_space in (refl, (refl, (refl, h)))))
      (rw (set_string-minus s e, read_integer))

module _ {F : Type 0} (fl : Float F) where
  -- The decimal text of an integer of any size and sign is read as that integer.
  pub to_big_int-format_int : (n : ℤ) → to_big_int fl (str (format_int n)) ≡ ok n
  unfolding to_big_int
  to_big_int-format_int n = format_int-parse n

  -- Behind "0x" a minus sign is accepted: "0x-" and hexadecimal digits are read as the negative number.
  to_big_int-signed_hex :
      (s : Text) {n : ℕ}
      → NoSpace s
      → parse_nat 16 s ≡ some n
      → to_big_int fl (str (codes "0x-" ++ s)) ≡ ok (negate n)
  unfolding to_big_int
  to_big_int-signed_hex s h e = signed_hex-parse s h e
