-- ===== src/Split/RequestLaws.antt =====
-- split/split.go: what a body that passes the validation gives the contract call.
use bundler_go.Base.{
  zero, suc, ◌*◌, ◌≤◌, ◌^◌, ℕ, ℤ, pos, negsuc, ◌+◌, ◌-◌, ◌<◌, ◌≤ℤ◌, ◌++◌, [], ◌∷◌, Text, true,
  false, some, Result, ok, err, ◌≡◌, refl, sym, ap, subst, ◌∙◌, inl, inr, arith, length,
  length-append, replicate, length-replicate, ltb, is_neg, is_empty, trim_space, Bool-cases,
  Result-cases, Option-cases, some_inj, some-ne-none,
}
use bundler_go.Evm.Client.{Geth}
use bundler_go.Evm.Number.{Float, Value, nil, str, json_number, float64, big_int, other, to_big_int}
use bundler_go.Split.Permit.{zero_bytes32}
use bundler_go.Split.Request.{
  ExecBody, checked_uint, req_uint, parse_bytes32, bytes32_or_zero, to_params, read_amounts,
  check_body,
}
use bundler_go.Split.Types.{Params}
use bundler_go.Transfer.Request.{Checked, refused, passed}

-- The number that bytes write, the first byte highest.
abbrev pub big_endian : Text → ℕ
big_endian [] = 0
big_endian (c ∷ s) = c * 256 ^ length s + big_endian s

big_endian-zeros : (n : ℕ) (s : Text) → big_endian (replicate n 0 ++ s) ≡ big_endian s
big_endian-zeros zero s = refl
big_endian-zeros (suc n) s = ground (arith, big_endian-zeros n s)

length-pad : (n : ℕ) (b : Text) → length b ≤ n → length (replicate (n - length b) 0 ++ b) ≡ n
length-pad n b h =
    let a = length-append (replicate (n - length b) 0) b in
    let c = length-replicate {A = ℕ} (n - length b) 0 in ground (arith, a, c, h)

zero_length : length zero_bytes32 ≡ 32
zero_length = length-replicate {A = ℕ} 32 0

passed_inj : {A : Type 0} {a b : A} → passed a ≡ passed b → a ≡ b
passed_inj h = cc

refused-ne-passed : {A : Type 0} {m : Text} {a : A} → refused m ≡ passed a → ⊥
refused-ne-passed h = cc

not_negative : (n : ℤ) → is_neg n ≡ false → pos 0 ≤ℤ n
not_negative (pos n) h = omega arith
not_negative (negsuc n) h = cc

module _ {Key Signed : Type 0} (geth : Geth Key Signed) where
  -- A text that is read as 32 bytes is one whose bytes are 32 at most, and they are padded on the left:
  -- what is read has 32 bytes and writes the same number.
  parse_bytes32_padded :
      (s w : Text)
      → parse_bytes32 geth s ≡ some w
      → (b : Text) × (geth.hex_decode (trim_space s) ≡ ok b)
        × (length b ≤ 32)
        × (length w ≡ 32)
        × (big_endian w ≡ big_endian b)
  unfolding parse_bytes32
  parse_bytes32_padded s w h = elim (Bool-cases (is_empty (trim_space s))) [
    | inl a ↦ absurd (some-ne-none (sym (rw (a, parse_bytes32) at h)))
    | inr a ↦ elim (Result-cases (geth.hex_decode (trim_space s))) [
      | inr (x, e) ↦ absurd (some-ne-none (sym (rw (a, e, parse_bytes32) at h)))
      | inl (b, e) ↦ elim (Bool-cases (ltb 32 (length b))) [
        | inl l ↦ absurd (some-ne-none (sym (rw (a, e, l, parse_bytes32) at h)))
        | inr l ↦
            let q = some_inj (rw (a, e, l, parse_bytes32) at h) in
            let short : length b ≤ 32 = ground (arith, l) in
            (
              b,
              e,
              short,
              ap length (sym q) ∙ length-pad 32 b short,
              ap big_endian (sym q) ∙ big_endian-zeros (32 - length b) b,
            )
      ]
    ]
  ]

  length-bytes32_or_zero : (s : Text) → length (bytes32_or_zero geth s) ≡ 32
  unfolding bytes32_or_zero
  length-bytes32_or_zero s = elim (Option-cases (parse_bytes32 geth s)) [
    | inl e ↦ rw (e, bytes32_or_zero) zero_length
    | inr (w, e) ↦
        let (b, d, short, size, value) = parse_bytes32_padded s w e in rw (e, bytes32_or_zero) size
  ]

module _ {F : Type 0} (fl : Float F) where
  checked_uint-sign :
      (name : Text) (r : Result ℤ) {n : ℤ} → checked_uint fl name r ≡ passed n → pos 0 ≤ℤ n
  unfolding checked_uint
  checked_uint-sign name (err e) h = absurd (refused-ne-passed h)
  checked_uint-sign name (ok m) h = elim (Bool-cases (is_neg m)) [
    | inl a ↦ absurd (refused-ne-passed (rw (a, checked_uint) at h))
    | inr a ↦ subst (λ x. pos 0 ≤ℤ x) (passed_inj (rw (a, checked_uint) at h)) (not_negative m a)
  ]

  req_uint-sign : (v : Value F) (name : Text) {n : ℤ} → req_uint fl v name ≡ passed n → pos 0 ≤ℤ n
  unfolding req_uint
  req_uint-sign nil name h = absurd (refused-ne-passed h)
  req_uint-sign (str s) name h = checked_uint-sign name (to_big_int fl (str s)) h
  req_uint-sign (json_number s) name h = checked_uint-sign name (to_big_int fl (json_number s)) h
  req_uint-sign (float64 x) name h = checked_uint-sign name (to_big_int fl (float64 x)) h
  req_uint-sign (big_int n) name h = checked_uint-sign name (to_big_int fl (big_int n)) h
  req_uint-sign (other t) name h = checked_uint-sign name (to_big_int fl (other t)) h

  module _ {Key Signed : Type 0} (geth : Geth Key Signed) where
    -- What the contract call relies on.
    abbrev pub FitsCall : Params → Type 0
    FitsCall p =
        (pos 0 ≤ℤ p.native_amount0)
        × (pos 0 ≤ℤ p.native_amount1)
        × (pos 0 ≤ℤ p.erc20_amount0)
        × (pos 0 ≤ℤ p.erc20_amount1)
        × (p.permit_v < 256)
        × (length p.permit_r ≡ 32)
        × (length p.permit_s ≡ 32)

    read_amounts-FitsCall :
        (c : ℤ) (b : ExecBody F) (r1 r2 r3 r4 : Checked ℤ) {p : Params}
        → ((n : ℤ) → r1 ≡ passed n → pos 0 ≤ℤ n)
        → ((n : ℤ) → r2 ≡ passed n → pos 0 ≤ℤ n)
        → ((n : ℤ) → r3 ≡ passed n → pos 0 ≤ℤ n)
        → ((n : ℤ) → r4 ≡ passed n → pos 0 ≤ℤ n)
        → read_amounts fl geth c b r1 r2 r3 r4 ≡ passed p
        → (p.chain_id ≡ c) × FitsCall p
    unfolding read_amounts to_params
    read_amounts-FitsCall c b (passed n1) (passed n2) (passed n3) (passed n4) h1 h2 h3 h4 h =
        subst (λ (q : Params). (q.chain_id ≡ c) × FitsCall q) (passed_inj h)
          (
            refl,
            (
              h1 n1 refl,
              h2 n2 refl,
              h3 n3 refl,
              h4 n4 refl,
              omega arith,
              length-bytes32_or_zero geth b.permit_r,
              length-bytes32_or_zero geth b.permit_s,
            ),
          )
    read_amounts-FitsCall c b (refused m) r2 r3 r4 h1 h2 h3 h4 h = absurd (refused-ne-passed h)
    read_amounts-FitsCall c b (passed n1) (refused m) r3 r4 h1 h2 h3 h4 h =
        absurd (refused-ne-passed h)
    read_amounts-FitsCall c b (passed n1) (passed n2) (refused m) r4 h1 h2 h3 h4 h =
        absurd (refused-ne-passed h)
    read_amounts-FitsCall c b (passed n1) (passed n2) (passed n3) (refused m) h1 h2 h3 h4 h =
        absurd (refused-ne-passed h)

    -- A body that passes is for the chain that was resolved, its three addresses are addresses, none of
    -- its four amounts is negative, its `permitV` fits a byte, and both parts of the permit's signature
    -- have 32 bytes.
    pub check_body-FitsCall :
        (c : ℤ) (b : ExecBody F) {p : Params}
        → check_body fl geth c b ≡ passed p
        → (geth.is_hex_address (trim_space b.erc20_token) ≡ true)
          × (geth.is_hex_address b.recipient0 ≡ true)
          × (geth.is_hex_address b.recipient1 ≡ true)
          × (p.chain_id ≡ c)
          × FitsCall p
    unfolding check_body
    check_body-FitsCall c b h = elim (Bool-cases (geth.is_hex_address (trim_space b.erc20_token))) [
      | inr x ↦ absurd (refused-ne-passed (rw (x, check_body) at h))
      | inl x ↦ elim (Bool-cases (geth.is_hex_address b.recipient0)) [
        | inr y ↦ absurd (refused-ne-passed (rw (x, y, check_body) at h))
        | inl y ↦ elim (Bool-cases (geth.is_hex_address b.recipient1)) [
          | inr z ↦ absurd (refused-ne-passed (rw (x, y, z, check_body) at h))
          | inl z ↦
              let q =
                read_amounts-FitsCall c b _ _ _ _ (λ n k. req_uint-sign b.native_amount0 _ k)
                  (λ n k. req_uint-sign b.native_amount1 _ k)
                  (λ n k. req_uint-sign b.erc20_amount0 _ k)
                  (λ n k. req_uint-sign b.erc20_amount1 _ k) (rw (x, y, z, check_body) at h) in
              (x, y, z, q.0, q.1)
        ]
      ]
    ]
