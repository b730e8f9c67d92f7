-- ===== src/Transfer/GasLaws.antt =====
-- transfer/gas.go: the bounds of the fees of a user operation.
use bundler_go.Base.{
  pos, negsuc, ℕ, ℤ, ◌*◌, ◌≡◌, ◌<◌, ◌≤◌, ◌⊎◌, inl, inr, refl, sym, subst, ◌∙◌, ◌++◌, Text, codes,
  true, false, Option, none, some, Option-cases, ok, err, ltb, is_empty, trim_space, List, [], ◌∷◌,
  Elem, here, there, Result, ap, ok_inj, err-ne-ok, some-ne-none, some_inj, ◌≢◌, return,
  and_then-is_ok, and_then-is_err, format_int, Bool-cases, arith,
}
use bundler_go.Chain.{Env}
use bundler_go.Evm.Client.{Ethclient}
use bundler_go.Evm.Gas.{Fees, gwei}
use bundler_go.Evm.GasBounds.{ValidFees, fee_from_provider-ValidFees}
use bundler_go.Transfer.Gas.{
  MaxFees, ParseGwei, has_floor, parse_user_op_gwei_env, first_big, fit_priority, apply_floor,
  at_least_one, first_read, fees_read, conservative, fees_of_price, fees_of_provider, env_fee,
  priority_gt_max, provider_fees, choose_fees, user_op_max_fee_fields,
}

-- A priority above zero within the cap.
abbrev pub Payable : MaxFees → Type 0
Payable (m, p) = (0 < p) × (p ≤ m)

-- The floor of a chain that has one.
abbrev pub AboveFloor : ℤ → MaxFees → Type 0
AboveFloor chain_id (m, p) = has_floor chain_id ≡ true → (gwei 500 ≤ m) × (gwei 50 ≤ p)

abbrev Good : ℤ → MaxFees → Type 0
Good chain_id f = Payable f × AboveFloor chain_id f

apply_floor-Good : (c : ℤ) (m p : ℕ) → 0 < p → p ≤ m → Good c (apply_floor c m p)
unfolding apply_floor fit_priority gwei
apply_floor-Good c m p h k = (
  (ground (arith, h, k), ground (arith, h, k)),
  λ f. (ground (arith, h, k, f), ground (arith, h, k, f)),
)

conservative-Good : (c : ℤ) → Good c (conservative c)
unfolding conservative gwei
conservative-Good c = ((ground arith, ground arith), λ f. (ground (arith, f), ground (arith, f)))

fees_of_price-Good : (c : ℤ) (g : ℕ) → 0 < g → Good c (fees_of_price c (some g))
unfolding fees_of_price
fees_of_price-Good c g h =
    rw (positive, fees_of_price) (apply_floor-Good c (g * 2) g h (omega arith))
  where
    positive : ltb 0 g ≡ true
    positive = ground (arith, h)

fees_of_provider-Good :
    (c : ℤ) (f : Fees)
    → ValidFees f
    → Good c (fees_of_provider c f.max_fee f.max_priority f.gas_price)
unfolding fees_of_provider
fees_of_provider-Good c f (inl (m, p, e, g, k)) =
    subst (λ (x : Fees). Good c (fees_of_provider c x.max_fee x.max_priority x.gas_price)) (sym e)
      (rw (m_pos, p_pos, p_fits, fees_of_provider) (apply_floor-Good c m p (omega (arith, g)) k))
  where
    m_pos : ltb 0 m ≡ true
    m_pos = ground (arith, g, k)

    p_pos : ltb 0 p ≡ true
    p_pos = ground (arith, g)

    p_fits : ltb m p ≡ false
    p_fits = ground (arith, k)
fees_of_provider-Good c f (inr (g, e, h)) =
    subst (λ (x : Fees). Good c (fees_of_provider c x.max_fee x.max_priority x.gas_price)) (sym e)
      (fees_of_price-Good c g h)

-- A setting that reads as NaN: a number that is not at most 0, at which `big.NewFloat` panics.
abbrev pub Nan : {F : Type 0} → ParseGwei F → Env → Text → Type 0
Nan {F} parse getenv key =
    (f : F) × (parse.parse_float (trim_space (getenv key)) ≡ some f)
    × (parse.at_most_zero f ≡ false)
    × (parse.to_int (parse.times_gwei f) ≡ none)

-- The two names of a setting.
abbrev pub names : Text → ℤ → List Text
names name c = (name ++ (codes "_" ++ format_int c)) ∷ name ∷ []

-- The four settings of a chain.
abbrev pub fee_settings : ℤ → List Text
fee_settings c =
    names (codes "USEROP_MAX_FEE_PER_GAS_GWEI") c
    ++ names (codes "USEROP_MAX_PRIORITY_FEE_PER_GAS_GWEI") c

-- No setting of the fees is NaN, on any chain.
abbrev pub NoNan : {F : Type 0} → ParseGwei F → Env → Type 0
NoNan parse getenv = (c : ℤ) (key : Text) → Elem key (fee_settings c) → Nan parse getenv key → ⊥

module _ {F W Key Signed : Type 0} (parse : ParseGwei F) (getenv : Env)
    (client : Ethclient W Key Signed) where
  at_least_one_positive : (wei : ℤ) → 0 < at_least_one wei
  unfolding at_least_one
  at_least_one_positive (pos n) = ground arith
  at_least_one_positive (negsuc n) = ground arith

  -- What a setting may come to.
  abbrev Reads : Text → Option (Option ℕ) → Type 0
  Reads name none = Nan parse getenv name
  Reads name (some none) = Unit
  Reads name (some (some n)) = 0 < n

  parse_user_op_gwei_env-Reads :
      (name : Text) → Reads name (parse_user_op_gwei_env parse getenv name)
  unfolding parse_user_op_gwei_env
  parse_user_op_gwei_env-Reads name =
      let raw = trim_space (getenv name) in
      elim (Bool-cases (is_empty raw)) [
        | inl e ↦ rw (e, parse_user_op_gwei_env) tt
        | inr e ↦ elim (Option-cases (parse.parse_float raw)) [
          | inl k ↦ rw (e, k, parse_user_op_gwei_env) tt
          | inr (f, k) ↦ elim (Bool-cases (parse.at_most_zero f)) [
            | inl m ↦ rw (e, k, m, parse_user_op_gwei_env) tt
            | inr m ↦ elim (Option-cases (parse.to_int (parse.times_gwei f))) [
              | inl q ↦ rw (e, k, m, q, parse_user_op_gwei_env) (f, k, m, q)
              | inr (wei, q) ↦ rw (e, k, m, q, parse_user_op_gwei_env) (at_least_one_positive wei)
            ]
          ]
        ]
      ]

  abbrev AnyReads : List Text → Option (Option ℕ) → Type 0
  AnyReads keys none = (key : Text) × Elem key keys × Nan parse getenv key
  AnyReads keys (some none) = Unit
  AnyReads keys (some (some n)) = 0 < n

  first_read-AnyReads :
      (k1 k2 : Text) (a b : Option (Option ℕ))
      → Reads k1 a
      → Reads k2 b
      → AnyReads (k1 ∷ k2 ∷ []) (first_read a b)
  unfolding first_read first_big
  first_read-AnyReads k1 k2 none b r1 r2 = (k1, here, r1)
  first_read-AnyReads k1 k2 (some a) none r1 r2 = (k2, there here, r2)
  first_read-AnyReads k1 k2 (some none) (some none) r1 r2 = tt
  first_read-AnyReads k1 k2 (some none) (some (some n)) r1 r2 = r2
  first_read-AnyReads k1 k2 (some (some m)) (some b) r1 r2 = r1

  env_fee-AnyReads : (name : Text) (c : ℤ) → AnyReads (names name c) (env_fee parse getenv name c)
  unfolding env_fee
  env_fee-AnyReads name c =
      first_read-AnyReads (name ++ (codes "_" ++ format_int c)) name _ _
        (parse_user_op_gwei_env-Reads (name ++ (codes "_" ++ format_int c)))
        (parse_user_op_gwei_env-Reads name)

  provider_fees-Good :
      (c : ℤ) (w : W)
      → (f : MaxFees) × ((provider_fees parse getenv client c w).0 ≡ ok f) × Good c f
  unfolding provider_fees
  provider_fees-Good c w =
      let (f, e, v) = fee_from_provider-ValidFees client w in
      (
        fees_of_provider c f.max_fee f.max_priority f.gas_price,
        rw (e, provider_fees) refl,
        fees_of_provider-Good c f v,
      )

  -- The fees that the settings write for a chain.
  abbrev pub env_max : ℤ → Option (Option ℕ)
  env_max c = env_fee parse getenv (codes "USEROP_MAX_FEE_PER_GAS_GWEI") c

  abbrev pub env_priority : ℤ → Option (Option ℕ)
  env_priority c = env_fee parse getenv (codes "USEROP_MAX_PRIORITY_FEE_PER_GAS_GWEI") c

  choose_fees-Payable :
      (a b : Option ℕ) (c : ℤ) (w : W)
      → ((m : ℕ) → a ≡ some m → 0 < m)
      → ((p : ℕ) → b ≡ some p → 0 < p)
      → ((f : MaxFees) × ((choose_fees parse getenv client a b c w).0 ≡ ok f) × Payable f)
        ⊎ ((m : ℕ) × (p : ℕ) × (a ≡ some m)
            × (b ≡ some p)
            × (m < p)
            × ((choose_fees parse getenv client a b c w).0 ≡ err priority_gt_max))
  unfolding choose_fees
  choose_fees-Payable none b c w h k = let (f, e, g) = provider_fees-Good c w in inl (f, e, g.0)
  choose_fees-Payable (some m) none c w h k =
      let (f, e, g) = provider_fees-Good c w in inl (f, e, g.0)
  choose_fees-Payable (some m) (some p) c w h k = elim (Bool-cases (ltb m p)) [
    | inl e ↦ inr (m, p, refl, refl, ground (arith, e), rw (e, choose_fees) refl)
    | inr e ↦ inl ((m, p), rw (e, choose_fees) refl, (k p refl, ground (arith, e)))
  ]

  choose_fees-AboveFloor :
      (a b : Option ℕ) (c : ℤ) (w : W)
      → (a ≡ none) ⊎ (b ≡ none)
      → (f : MaxFees) × ((choose_fees parse getenv client a b c w).0 ≡ ok f) × AboveFloor c f
  unfolding choose_fees
  choose_fees-AboveFloor none b c w h = let (f, e, g) = provider_fees-Good c w in (f, e, g.1)
  choose_fees-AboveFloor (some m) none c w h = let (f, e, g) = provider_fees-Good c w in (f, e, g.1)
  choose_fees-AboveFloor (some m) (some p) c w h = absurd (ground (arith, h))

  -- Fees, the one error, or the panic.
  abbrev pub Ended : Option (Option ℕ) → Option (Option ℕ) → ℤ → Result (Option MaxFees) → Type 0
  Ended a b c out =
      ((f : MaxFees) × (out ≡ ok (some f)) × Payable f)
      ⊎ (((m : ℕ) × (p : ℕ) × (a ≡ some (some m))
            × (b ≡ some (some p))
            × (m < p)
            × (out ≡ err priority_gt_max))
          ⊎ ((out ≡ ok none) × ((key : Text) × Elem key (fee_settings c) × Nan parse getenv key)))

  unset : (keys : List Text) (a : Option ℕ) → AnyReads keys (some a) → (m : ℕ) → a ≡ some m → 0 < m
  unset keys none r m e = absurd (some-ne-none (sym e))
  unset keys (some n) r m e = subst (λ k. 0 < k) (some_inj e) r

  later_key : {key : Text} (p q r s : Text) → Elem key (r ∷ s ∷ []) → Elem key (p ∷ q ∷ r ∷ s ∷ [])
  later_key p q r s m = there (there m)

  early_key : {key : Text} (p q r s : Text) → Elem key (p ∷ q ∷ []) → Elem key (p ∷ q ∷ r ∷ s ∷ [])
  early_key p q r s here = here
  early_key p q r s (there here) = there here
  early_key p q r s (there (there m)) = elim m [ ]

  fees_read-Ended :
      (c : ℤ) (a b : Option (Option ℕ)) (w : W)
      → AnyReads (names (codes "USEROP_MAX_FEE_PER_GAS_GWEI") c) a
      → AnyReads (names (codes "USEROP_MAX_PRIORITY_FEE_PER_GAS_GWEI") c) b
      → Ended a b c (fees_read parse getenv client a b c w).0
  unfolding fees_read
  fees_read-Ended c none b w r1 r2 = inr (inr (refl, (r1.0, early_key _ _ _ _ r1.1, r1.2)))
  fees_read-Ended c (some a) none w r1 r2 = inr (inr (refl, (r2.0, later_key _ _ _ _ r2.1, r2.2)))
  fees_read-Ended c (some a) (some b) w r1 r2 =
      elim (choose_fees-Payable a b c w (unset (names (codes "USEROP_MAX_FEE_PER_GAS_GWEI") c) a r1)
        (unset (names (codes "USEROP_MAX_PRIORITY_FEE_PER_GAS_GWEI") c) b r2)) [
          | inl (f, e, good) ↦ inl (
            f,
            and_then-is_ok (λ (x : MaxFees). return (some x))
                (choose_fees parse getenv client a b c w) e,
            good,
          )
          | inr (m, p, e, k, l, z) ↦ inr (
              inl (
                m,
                p,
                ap some e,
                ap some k,
                l,
                and_then-is_err (λ (x : MaxFees). return (some x))
                    (choose_fees parse getenv client a b c w) z,
              ))
        ]

  -- Whatever the node answers, the fees of a user operation have a priority above zero that the cap
  -- covers, or there is a failure of the settings: both are made for a chain and the priority is above
  -- the cap, which is an error; or one of the four that are read is NaN, which is a panic.
  pub user_op_max_fee_fields-Payable :
      (c : ℤ) (w : W)
      → Ended (env_max c) (env_priority c) c (user_op_max_fee_fields parse getenv client c w).0
  unfolding user_op_max_fee_fields
  user_op_max_fee_fields-Payable c w =
      fees_read-Ended c (env_max c) (env_priority c) w
        (env_fee-AnyReads (codes "USEROP_MAX_FEE_PER_GAS_GWEI") c)
        (env_fee-AnyReads (codes "USEROP_MAX_PRIORITY_FEE_PER_GAS_GWEI") c)

  -- Without a setting that is NaN, there is no panic.
  pub user_op_max_fee_fields-some :
      (c : ℤ) (w : W)
      → NoNan parse getenv
      → (user_op_max_fee_fields parse getenv client c w).0 ≢ ok none
  user_op_max_fee_fields-some c w good h = elim (user_op_max_fee_fields-Payable c w) [
    | inl (f, e, k) ↦ some-ne-none (ok_inj (sym e ∙ h))
    | inr (inl (m, p, a, b, l, e)) ↦ err-ne-ok (sym e ∙ h)
    | inr (inr (e, (key, m, nan))) ↦ good c key m nan
  ]
