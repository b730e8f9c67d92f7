-- ===== src/Split/Permit.antt =====
-- split/exec.go: `validatePermit`, which also puts 0 in place of nil.
use bundler_go.Base.{
  ℤ, pos, negsuc, ◌+ℤ◌, ltb_ℤ, is_zero, is_positive, Text, codes, true, false, not, ◌||◌, Option,
  none, some, Result, ok, err, new_error, if◌then◌else◌, ◌==◌, text_eq, replicate, ◌≡◌, refl, ◌≤ℤ◌,
  ◌<ℤ◌, ◌≢◌, ◌↔◌, sym, ap, ◌∙◌, text_eq_iff, text_eq_sound, arith, Bool-cases, inl, inr, ◌⊎◌,
  err-ne-ok, ok_inj, some_inj,
}
use bundler_go.Split.Types.{Params}

-- `zeroBytes32`
abbrev pub zero_bytes32 : Text
zero_bytes32 = replicate 32 0

unfoldable pub or_zero : Option ℤ → ℤ
or_zero none = pos 0
or_zero (some n) = n

unfoldable pub erc20_total : Params → ℤ
erc20_total p = p.erc20_amount0 +ℤ p.erc20_amount1

unfoldable pub fill_nil : Params → Params
unfolding or_zero
fill_nil p = record p {
  permit_deadline = some (or_zero p.permit_deadline);
  permit_amount = some (or_zero p.permit_amount);
}

unfoldable pub check_amount : Params → ℤ → Result (Option Params)
unfolding erc20_total
check_amount p amount =
    if ltb_ℤ amount (erc20_total p)
    then err (new_error (codes "permitAmount must be >= erc20Amount0 + erc20Amount1"))
    else if text_eq p.permit_r zero_bytes32 || text_eq p.permit_s zero_bytes32
    then err (new_error (codes "permitDeadline set: permitR and permitS (bytes32 hex) required"))
    else ok (some p)

-- The checks behind the filling. They read the deadline, and the amount if they come to it: `ok none` is
-- the panic at a nil pointer.
unfoldable pub check_filled : Params → Result (Option Params)
unfolding check_amount
check_filled p = elim p.permit_deadline [
  | none ↦ ok none
  | some deadline ↦
      if is_zero deadline
      then ok (some p)
      else if p.erc20_token == 0
      then err (new_error (codes "permit requires non-zero erc20Token"))
      else if not (is_positive (erc20_total p))
      then err (new_error (codes "permit requires positive erc20 amounts"))
      else elim p.permit_amount [ none ↦ ok none | some amount ↦ check_amount p amount ]
]

-- `validatePermit`
unfoldable pub validate_permit : Params → Result (Option Params)
unfolding fill_nil check_filled
validate_permit p = check_filled (fill_nil p)

-- The deadline, which is 0 where it is nil.
unfoldable pub deadline_of : Params → ℤ
unfolding or_zero
deadline_of p = or_zero p.permit_deadline

-- A permit that covers the token amounts, with both parts of its signature.
abbrev pub CoveringPermit : Params → Type 0
CoveringPermit p =
    (p.erc20_token ≢ 0)
    × (pos 0 <ℤ erc20_total p)
    × (erc20_total p ≤ℤ or_zero p.permit_amount)
    × (p.permit_r ≢ zero_bytes32)
    × (p.permit_s ≢ zero_bytes32)

is_zero_iff : (n : ℤ) → (is_zero n ≡ true) ↔ (n ≡ pos 0)
is_zero_iff (pos n) = (λ h. ground (arith, h), λ h. ground (arith, h))
is_zero_iff (negsuc n) = (λ h. cc, λ h. cc)

positive_lt : (n : ℤ) → is_positive n ≡ true → pos 0 <ℤ n
positive_lt n h = ground (arith, h)

not_positive_lt : (n : ℤ) → is_positive n ≡ false → pos 0 <ℤ n → ⊥
not_positive_lt n h k = ground (arith, h, k)

text_ne : (s t : Text) → text_eq s t ≡ false → s ≢ t
text_ne s t h e = ground (arith, h, (text_eq_iff s t).1 e)

-- The two ways to pass.
MayPay : Params → Type 0
MayPay p = (deadline_of p ≡ pos 0) ⊎ CoveringPermit p

-- The answer and the condition agree.
Decides : Params → Type 0
Decides p =
    ((validate_permit p ≡ ok (some (fill_nil p))) × MayPay p)
    ⊎ (((q : Option Params) → validate_permit p ≢ ok q) × (MayPay p → ⊥))

refuses :
    (p : Params)
    → ((q : Option Params) → validate_permit p ≢ ok q)
    → is_zero (deadline_of p) ≡ false
    → (CoveringPermit p → ⊥)
    → Decides p
unfolding Decides MayPay
refuses p e a k = inr (
  e,
  λ may. elim may [ inl z ↦ ground (arith, a, (is_zero_iff (deadline_of p)).1 z) | inr c ↦ k c ],
)

validate_permit-Decides : (p : Params) → Decides p
unfolding validate_permit check_filled check_amount fill_nil or_zero erc20_total deadline_of Decides
    MayPay
validate_permit-Decides p = elim (Bool-cases (is_zero (deadline_of p))) [
  | inl a ↦ inl (rw a refl, inl ((is_zero_iff (deadline_of p)).0 a))
  | inr a ↦ elim (Bool-cases (p.erc20_token == 0)) [
    | inl b ↦
        refuses p (λ q h. err-ne-ok (rw (a, b, validate_permit) at h)) a
          (λ k. k.0 (ground (arith, b)))
    | inr b ↦ elim (Bool-cases (is_positive (erc20_total p))) [
      | inr c ↦
          refuses p (λ q h. err-ne-ok (rw (a, b, c, validate_permit) at h)) a
            (λ k. not_positive_lt _ c k.1)
      | inl c ↦ elim (Bool-cases (ltb_ℤ (or_zero p.permit_amount) (erc20_total p))) [
        | inl d ↦
            refuses p (λ q h. err-ne-ok (rw (a, b, c, d, validate_permit) at h)) a
              (λ k. ground (arith, d, k.2))
        | inr d ↦ elim (Bool-cases (text_eq p.permit_r zero_bytes32)) [
          | inl e ↦
              refuses p (λ q h. err-ne-ok (rw (a, b, c, d, e, validate_permit) at h)) a
                (λ k. k.3 (text_eq_sound _ _ e))
          | inr e ↦ elim (Bool-cases (text_eq p.permit_s zero_bytes32)) [
            | inl f ↦
                refuses p (λ q h. err-ne-ok (rw (a, b, c, d, e, f, validate_permit) at h)) a
                  (λ k. k.4 (text_eq_sound _ _ f))
            | inr f ↦ inl (
              rw (a, b, c, d, e, f, validate_permit) refl,
              inr (
                (λ z. ground (arith, b, z)),
                positive_lt _ c,
                ground (arith, d),
                text_ne _ _ e,
                text_ne _ _ f,
              ),
            )
          ]
        ]
      ]
    ]
  ]
]

-- The validation passes exactly the payments without a permit, and those whose permit is for a token,
-- is of at least the sum of the two token amounts, which is above zero, and has a signature neither part
-- of which is zero. What it passes on is the payment, with 0 for a deadline or an amount that was nil.
pub validate_permit_iff :
    (p q : Params)
    → (validate_permit p ≡ ok (some q))
      ↔ ((q ≡ fill_nil p) × ((deadline_of p ≡ pos 0) ⊎ CoveringPermit p))
unfolding Decides MayPay
validate_permit_iff p q = elim (validate_permit-Decides p) [
  | inl (e, may) ↦
      ((λ h. (some_inj (ok_inj (sym h ∙ e)), may)), λ k. e ∙ ap (λ x. ok (some x)) (sym k.0))
  | inr (fails, never) ↦ (λ h. absurd (fails (some q) h), λ k. absurd (never k.1))
]

-- The checks never meet a nil pointer: what they pass on is filled.
pub validate_permit-fill_nil :
    (p : Params) (q : Option Params) → validate_permit p ≡ ok q → q ≡ some (fill_nil p)
unfolding Decides
validate_permit-fill_nil p q h = elim (validate_permit-Decides p) [
  | inl (e, may) ↦ ok_inj (sym h ∙ e)
  | inr (fails, never) ↦ absurd (fails q h)
]
