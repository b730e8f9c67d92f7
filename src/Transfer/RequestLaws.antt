-- ===== src/Transfer/RequestLaws.antt =====
-- transfer/transfer.go: what the validation lets pass.
use bundler_go.Base.{
  ℕ, ℤ, pos, negsuc, ◌≡◌, ◌⊎◌, refl, subst, inl, inr, Text, codes, Bool, true, false, Bool-cases,
  Result-cases, ◌||◌, ◌==◌, ltb, suc, zero, text_eq, to_lower, trim_space, is_neg, is_positive,
  arith,
}
use bundler_go.Evm.Client.{Geth, Address}
use bundler_go.Evm.Number.{Float, Value, nil, str, json_number, float64, big_int, other, to_big_int}
use bundler_go.Transfer.Request.{
  TransferBody, Source, wallet, account, Order, native, erc20, Checked, refused, passed, check_sign,
  read_amount, parse_big, native_order, erc20_order, check_addresses, check_body,
}

suc-nonzero : (n : ℕ) → (suc n == 0) ≡ false
suc-nonzero n = ground arith

suc-positive : (n : ℕ) → ltb 0 (suc n) ≡ true
suc-positive n = ground arith

module _ {F Key Signed : Type 0} (fl : Float F) (geth : Geth Key Signed) where
  -- An address that is read from a text that is one.
  abbrev pub Written : Address → Type 0
  Written a = (text : Text) × (geth.is_hex_address text ≡ true) × (a ≡ geth.hex_to_address text)

  -- An order whose addresses were written as such, and whose amount is not below zero, and above it for
  -- tokens.
  abbrev pub ValidOrder : Order → Type 0
  ValidOrder (native source from to value) = Written from × Written to × (is_neg value ≡ false)
  ValidOrder (erc20 source from token to amount) =
      Written from × Written token × Written to × (is_positive amount ≡ true)

  abbrev pub Passes : Checked Order → Type 0
  Passes (refused m) = Unit
  Passes (passed order) = ValidOrder order

  abbrev Amount : Bool → Checked ℤ → Type 0
  Amount positive (refused m) = Unit
  Amount true (passed n) = is_positive n ≡ true
  Amount false (passed n) = is_neg n ≡ false

  check_sign-Amount : (n : ℤ) (positive : Bool) → Amount positive (check_sign fl n positive)
  unfolding check_sign
  check_sign-Amount (negsuc n) positive = tt
  check_sign-Amount (pos n) false = refl
  check_sign-Amount (pos zero) true = tt
  check_sign-Amount (pos (suc n)) true = rw (suc-nonzero n) (suc-positive n)

  read_amount-Amount : (v : Value F) (positive : Bool) → Amount positive (read_amount fl v positive)
  unfolding read_amount
  read_amount-Amount v positive = elim (Result-cases (to_big_int fl v)) [
    | inr (x, e) ↦ rw (e, read_amount) tt
    | inl (n, e) ↦ rw (e, read_amount) (check_sign-Amount n positive)
  ]

  parse_big-Amount : (v : Value F) (positive : Bool) → Amount positive (parse_big fl v positive)
  unfolding parse_big
  parse_big-Amount nil positive = tt
  parse_big-Amount (str s) positive = read_amount-Amount (str s) positive
  parse_big-Amount (json_number s) positive = read_amount-Amount (json_number s) positive
  parse_big-Amount (float64 x) positive = read_amount-Amount (float64 x) positive
  parse_big-Amount (big_int n) positive = read_amount-Amount (big_int n) positive
  parse_big-Amount (other name) positive = read_amount-Amount (other name) positive

  Checked-cases :
      {A : Type 0} (r : Checked A) → ((m : Text) × (r ≡ refused m)) ⊎ ((a : A) × (r ≡ passed a))
  Checked-cases (refused m) = inl (m, refl)
  Checked-cases (passed a) = inr (a, refl)

  native_order-Passes :
      (source : Source) (from to : Address) (body : TransferBody F)
      → Written from
      → Written to
      → Passes (native_order fl geth source from to body)
  unfolding native_order
  native_order-Passes source from to body f t =
      elim (Checked-cases (parse_big fl body.value_wei false)) [
        | inl (m, e) ↦ rw (e, native_order) tt
        | inr (n, e) ↦
            rw (e, native_order)
              (f, t, subst (Amount false) e (parse_big-Amount body.value_wei false))
      ]

  erc20_order-Passes :
      (source : Source) (from to : Address) (body : TransferBody F)
      → Written from
      → Written to
      → Passes (erc20_order fl geth source from to body)
  unfolding erc20_order
  erc20_order-Passes source from to body f t =
      elim (Bool-cases (geth.is_hex_address (trim_space body.token_address))) [
        | inr k ↦ rw (k, erc20_order) tt
        | inl k ↦ elim (Checked-cases (parse_big fl body.amount true)) [
          | inl (m, e) ↦ rw (k, e, erc20_order) tt
          | inr (n, e) ↦
              rw (k, e, erc20_order)
                (
                  f,
                  (trim_space body.token_address, k, refl),
                  t,
                  subst (Amount true) e (parse_big-Amount body.amount true),
                )
        ]
      ]

  check_addresses-Passes :
      (is_native : Bool) (source : Source) (body : TransferBody F)
      → Passes (check_addresses fl geth is_native source body)
  unfolding check_addresses
  check_addresses-Passes is_native source body =
      elim (Bool-cases (geth.is_hex_address (trim_space body.to))) [
        | inr k ↦ rw (k, check_addresses) tt
        | inl k ↦ elim (Bool-cases (geth.is_hex_address (trim_space body.from))) [
          | inr m ↦ rw (k, m, check_addresses) tt
          | inl m ↦
              let f : Written (geth.hex_to_address (trim_space body.from)) =
                (trim_space body.from, m, refl) in
              let t : Written (geth.hex_to_address (trim_space body.to)) =
                (trim_space body.to, k, refl) in
              elim (Bool-cases is_native) [
                | inl n ↦ rw (k, m, n, check_addresses) (native_order-Passes source _ _ body f t)
                | inr n ↦ rw (k, m, n, check_addresses) (erc20_order-Passes source _ _ body f t)
              ]
        ]
      ]

  -- What the validation of a transfer lets pass has a sender, a receiver and, for tokens, a token that
  -- were written as addresses, and an amount that is not below zero, and above it for tokens.
  pub check_body-Passes : (body : TransferBody F) → Passes (check_body fl geth body)
  unfolding check_body
  check_body-Passes body =
      let kind = to_lower (trim_space body.kind) in
      let source = to_lower (trim_space body.source) in
      elim (Bool-cases (text_eq kind (codes "native") || text_eq kind (codes "erc20"))) [
        | inr a ↦ rw (a, check_body) tt
        | inl a ↦ elim (Bool-cases (text_eq source (codes "wallet"))) [
          | inl b ↦
              rw (a, b, check_body)
                (check_addresses-Passes (text_eq kind (codes "native")) wallet body)
          | inr b ↦ elim (Bool-cases (text_eq source (codes "account"))) [
            | inl d ↦
                rw (a, b, d, check_body)
                  (check_addresses-Passes (text_eq kind (codes "native")) account body)
            | inr d ↦ rw (a, b, d, check_body) tt
          ]
        ]
      ]
