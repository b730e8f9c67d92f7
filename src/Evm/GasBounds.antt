-- ===== src/Evm/GasBounds.antt =====
-- gas.go: the bounds of the fees and of the gas limits.
use bundler_go.Base.{
  ℕ, ◌+◌, ◌*◌, ◌/◌, ◌^◌, ◌≤◌, ◌<◌, ◌≡◌, refl, Option, none, some, ◌⊎◌, inl, inr, ltb, Result, ok,
  err, arith, Option-cases, subst, some_inj, Bool-cases,
}
use bundler_go.Evm.Client.{Ethclient, CallMsg}
use bundler_go.Evm.Gas.{
  Fees, gwei, bump180, priority_of, max_fee_of, eip1559, legacy, positive, dynamic_fees,
  fallback_fees, bump_gas_limit, fee_from_provider, estimate_gas,
}

-- Fees that a node accepts: a tip of at least two gwei within the fee cap, or a positive gas price.
abbrev pub ValidFees : Fees → Type 0
ValidFees f =
    ((m : ℕ) × (p : ℕ) × (f ≡ eip1559 m p) × (gwei 2 ≤ p) × (p ≤ m))
    ⊎ ((g : ℕ) × (f ≡ legacy g) × (0 < g))

priority-bound : (tip : ℕ) → gwei 2 ≤ priority_of tip
unfolding priority_of
priority-bound tip = ground arith

-- The fee cap pays the tip and twice a base fee that has grown by a quarter, whatever the tip is, and
-- is at most 110% of that or 180% of the sum of the tip and twice the base fee.
max_fee_of-bounds :
    (base_fee tip : ℕ)
    → let need = base_fee * 125 / 100 * 2 + priority_of tip in
      (need ≤ max_fee_of base_fee tip)
      × ((max_fee_of base_fee tip ≤ bump180 (base_fee * 2 + tip))
          ⊎ (max_fee_of base_fee tip ≤ need * 110 / 100))
unfolding max_fee_of
max_fee_of-bounds base_fee tip =
    elim (Bool-cases
      (ltb (bump180 (base_fee * 2 + tip)) (base_fee * 125 / 100 * 2 + priority_of tip))) [
        | inl short ↦ rw short (omega arith, inr (omega arith))
        | inr fits ↦ rw fits (ground (arith, fits), inl (omega arith))
      ]

positive-bound : (r : Result (Option ℕ)) {n : ℕ} → positive r ≡ some n → 0 < n
unfolding positive
positive-bound (ok none) h = cc
positive-bound (ok (some n)) h = ground arith
positive-bound (err e) h = cc

dynamic-ValidFees :
    (tip base_fee : ℕ) → ValidFees (eip1559 (max_fee_of base_fee tip) (priority_of tip))
dynamic-ValidFees tip base_fee = inl (
  max_fee_of base_fee tip,
  priority_of tip,
  refl,
  priority-bound tip,
  omega (arith, (max_fee_of-bounds base_fee tip).0),
)

dynamic_fees-ValidFees :
    (tip base_fee : Option ℕ) {f : Fees} → dynamic_fees tip base_fee ≡ some f → ValidFees f
unfolding dynamic_fees
dynamic_fees-ValidFees none b h = cc
dynamic_fees-ValidFees (some t) none h = cc
dynamic_fees-ValidFees (some t) (some b) h = subst ValidFees (some_inj h) (dynamic-ValidFees t b)

fallback-ValidFees : (r : Result (Option ℕ)) → ValidFees (fallback_fees (positive r))
unfolding fallback_fees
fallback-ValidFees r = elim (Option-cases (positive r)) [
  | inl e ↦ rw (e, fallback_fees) (inl (gwei 150, gwei 5, refl, omega arith, omega arith))
  | inr (g, e) ↦ rw (e, fallback_fees) (inr (bump180 g, refl, omega (arith, positive-bound r e)))
]

module _ {W Key Signed : Type 0} (client : Ethclient W Key Signed) where
  -- Whatever the node answers, errors and nil included, `FeeFromProvider` returns no error, and its
  -- fees are valid: an EIP-1559 tip of at least two gwei that the fee cap covers, or a gas price above
  -- zero.
  pub fee_from_provider-ValidFees :
      (w : W) → (f : Fees) × ((fee_from_provider client w).0 ≡ ok f) × ValidFees f
  unfolding fee_from_provider
  fee_from_provider-ValidFees w =
      let (tip, w1) = client.suggest_gas_tip_cap w in
      let (head, w2) = client.header_by_number w1 in
      elim (Option-cases (dynamic_fees (positive tip) (positive head))) [
        | inr (f, e) ↦
            (f, rw (e, fee_from_provider), dynamic_fees-ValidFees (positive tip) (positive head) e)
        | inl e ↦
            let (price, w3) = client.suggest_gas_price w2 in
            (fallback_fees (positive price), rw (e, fee_from_provider), fallback-ValidFees price)
      ]

-- The limit lies between its bounds, also where the estimate overflows uint64.
bump_gas_limit_bounds :
    (est min max_cap : ℕ)
    → min ≤ max_cap
    → (min ≤ bump_gas_limit est min max_cap) × (bump_gas_limit est min max_cap ≤ max_cap)
unfolding bump_gas_limit
bump_gas_limit_bounds est min max_cap h = ground arith

-- Below the overflow of uint64, a limit that the cap does not cut leaves 30% and 8000 gas above the
-- estimate.
bump_gas_limit_margin :
    (est min max_cap : ℕ)
    → est * 130 + 800_000 < 2 ^ 64
    → est + est * 30 / 100 + 8000 ≤ max_cap
    → est + est * 30 / 100 + 8000 ≤ bump_gas_limit est min max_cap
unfolding bump_gas_limit
bump_gas_limit_margin est min max_cap small fits = ground arith

module _ {W Key Signed : Type 0} (client : Ethclient W Key Signed) where
  -- Whatever the node answers, the gas limit of a transaction is a number within the caller's bounds,
  -- where the fallback is within them.
  pub estimate_gas_bounds :
      (msg : CallMsg) (min max_cap fallback : ℕ) (w : W)
      → min ≤ fallback
      → fallback ≤ max_cap
      → (g : ℕ) × ((estimate_gas client msg min max_cap fallback w).0 ≡ ok g)
        × (min ≤ g)
        × (g ≤ max_cap)
  unfolding estimate_gas
  estimate_gas_bounds msg min max_cap fallback w h k = go (client.estimate_gas msg w).0 refl
    where
      go :
          (r : Result ℕ)
          → (client.estimate_gas msg w).0 ≡ r
          → (g : ℕ) × ((estimate_gas client msg min max_cap fallback w).0 ≡ ok g)
            × (min ≤ g)
            × (g ≤ max_cap)
      go (ok est) e =
          let b = bump_gas_limit_bounds est min max_cap (omega arith) in
          (bump_gas_limit est min max_cap, rw (e, estimate_gas), b.0, b.1)
      go (err x) e = (fallback, rw (e, estimate_gas), h, k)
