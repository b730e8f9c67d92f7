-- ===== src/Evm/Gas.antt =====
-- internal/evm/gas.go: the gas limit and the fees. Gas amounts are uint64, fees are `big.Int`s that
-- are not negative.
use bundler_go.Base.{
  ℕ, ◌+◌, ◌*◌, ◌/◌, ◌%◌, ◌^◌, Option, none, some, ltb, if◌then◌else◌, Result, ok, err, M,
}
use bundler_go.Evm.Client.{Ethclient, CallMsg}

-- `Fees`: EIP-1559 (`max_fee`, `max_priority`) or legacy (`gas_price`).
pub record Fees : Type 0 where
  pub max_fee : Option ℕ
  pub max_priority : Option ℕ
  pub gas_price : Option ℕ

unfoldable pub gwei : ℕ → ℕ
gwei n = n * 1_000_000_000

unfoldable pub bump180 : ℕ → ℕ
bump180 x = x * 180 / 100

-- The fees from the tip and the base fee.
unfoldable pub priority_of : ℕ → ℕ
unfolding bump180 gwei
priority_of tip = if ltb (bump180 tip) (gwei 2) then gwei 2 else bump180 tip

unfoldable pub max_fee_of : ℕ → ℕ → ℕ
unfolding priority_of
max_fee_of base_fee tip =
    let max_fee = bump180 (base_fee * 2 + tip) in
    let min_max = base_fee * 125 / 100 * 2 + priority_of tip in
    if ltb max_fee min_max then min_max * 110 / 100 else max_fee

abbrev pub eip1559 : ℕ → ℕ → Fees
eip1559 max_fee max_priority = record {
  max_fee = some max_fee;
  max_priority = some max_priority;
  gas_price = none;
}

abbrev pub legacy : ℕ → Fees
legacy price = record { max_fee = none; max_priority = none; gas_price = some price }

-- A value that came without an error, is not nil and is positive.
unfoldable pub positive : Result (Option ℕ) → Option ℕ
positive (ok (some n)) = if ltb 0 n then some n else none
positive (ok none) = none
positive (err e) = none

unfoldable pub dynamic_fees : Option ℕ → Option ℕ → Option Fees
unfolding max_fee_of
dynamic_fees (some tip) (some base_fee) = some (eip1559 (max_fee_of base_fee tip) (priority_of tip))
dynamic_fees (some tip) none = none
dynamic_fees none base_fee = none

-- The fees from the node's gas price, or fixed ones.
unfoldable pub fallback_fees : Option ℕ → Fees
unfolding bump180 gwei
fallback_fees (some price) = legacy (bump180 price)
fallback_fees none = eip1559 (gwei 150) (gwei 5)

-- `BumpGasLimit`, in uint64.
unfoldable pub bump_gas_limit : ℕ → ℕ → ℕ → ℕ
bump_gas_limit estimated min max_cap =
    let bumped = (estimated * 130 % 2 ^ 64 / 100 + 8000) % 2 ^ 64 in
    if ltb bumped min then min else if ltb max_cap bumped then max_cap else bumped

module _ {W Key Signed : Type 0} (client : Ethclient W Key Signed) where
  -- `FeeFromProvider`: both questions are asked before either answer is looked at.
  unfoldable pub fee_from_provider : M W Fees
  unfolding positive dynamic_fees fallback_fees
  fee_from_provider w =
      let (tip, w1) = client.suggest_gas_tip_cap w in
      let (head, w2) = client.header_by_number w1 in
      elim (dynamic_fees (positive tip) (positive head)) [
        | some fees ↦ (ok fees, w2)
        | none ↦
            let (price, w3) = client.suggest_gas_price w2 in
            (ok (fallback_fees (positive price)), w3)
      ]

  -- `EstimateGas`: a node that fails to estimate is answered by the fallback.
  unfoldable pub estimate_gas : CallMsg → ℕ → ℕ → ℕ → M W ℕ
  unfolding bump_gas_limit
  estimate_gas msg min max_cap fallback w =
      let (r, w') = client.estimate_gas msg w in
      elim r [ ok est ↦ (ok (bump_gas_limit est min max_cap), w') | err e ↦ (ok fallback, w') ]
