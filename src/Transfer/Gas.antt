-- ===== src/Transfer/Gas.antt =====
-- transfer/gas.go: the fees of a user operation. What Go's float64 and `big.Float` do is a parameter;
-- `big.NewFloat` panics at NaN, which the comparison with 0 lets pass.
use bundler_go.Base.{
  ℕ, ℤ, pos, negsuc, ◌>>=◌, return, ◌*◌, ◌/◌, ◌++◌, Text, codes, Bool, ◌&&◌, ◌||◌, Option, none,
  some, ok, err, GoError, new_error, M, if◌then◌else◌, ltb, ◌==◌, is_empty, trim_space, format_int,
  eq_ℤ,
}
use bundler_go.Chain.{Env}
use bundler_go.Evm.Client.{Ethclient}
use bundler_go.Evm.Gas.{gwei, fee_from_provider}

-- `maxFeePerGas` and `maxPriorityFeePerGas`
abbrev pub MaxFees : Type 0
MaxFees = ℕ × ℕ

-- float64: `strconv.ParseFloat`, none where it returns an error; `f <= 0`; `f * 1e9`; and
-- `big.NewFloat(f).Int`, none where it panics.
pub record ParseGwei (F : Type 0) : Type 0 where
  pub parse_float : Text → Option F
  pub at_most_zero : F → Bool
  pub times_gwei : F → F
  pub to_int : F → Option ℤ

-- `wei`, or 1 where it is not positive
unfoldable pub at_least_one : ℤ → ℕ
at_least_one (pos n) = if n == 0 then 1 else n
at_least_one (negsuc n) = 1

-- The chains of `userOpMinMaxFeeWei` and `userOpMinPriorityFeeWei`: Sepolia, Fuji and KCP.
unfoldable pub has_floor : ℤ → Bool
has_floor chain_id =
    eq_ℤ chain_id (pos 11155111) || (eq_ℤ chain_id (pos 43113) || eq_ℤ chain_id (pos 56357))

-- `parseUserOpGweiEnv`: `some none` is nil, and none is the panic
unfoldable pub parse_user_op_gwei_env : {F : Type 0} → ParseGwei F → Env → Text → Option (Option ℕ)
unfolding at_least_one
parse_user_op_gwei_env parse getenv name =
    let raw = trim_space (getenv name) in
    if is_empty raw then some none else elim (parse.parse_float raw) [
      | none ↦ some none
      | some f ↦
          if parse.at_most_zero f then some none else elim (parse.to_int (parse.times_gwei f)) [
            | none ↦ none
            | some wei ↦ some (some (at_least_one wei))
          ]
    ]

-- `firstBig` of two
unfoldable pub first_big : Option ℕ → Option ℕ → Option ℕ
first_big (some a) b = some a
first_big none b = b

-- The halving at the end of `applySepoliaFujiKcpFloor`.
unfoldable pub fit_priority : ℕ → ℕ → ℕ
unfolding gwei
fit_priority max_fee max_priority =
    if ltb max_fee max_priority
    then (if ltb 0 (max_fee / 2) then max_fee / 2 else gwei 50)
    else max_priority

-- `applySepoliaFujiKcpFloor`
unfoldable pub apply_floor : ℤ → ℕ → ℕ → MaxFees
unfolding has_floor fit_priority gwei
apply_floor chain_id max_fee max_priority =
    let m = if ltb max_fee (gwei 500) then gwei 500 else max_fee in
    let p = if ltb max_priority (gwei 50) then gwei 50 else max_priority in
    if has_floor chain_id then (m, fit_priority m p) else (max_fee, max_priority)

-- The fees where neither an EIP-1559 pair nor a gas price is positive.
unfoldable pub conservative : ℤ → MaxFees
unfolding has_floor gwei
conservative chain_id = if has_floor chain_id then (gwei 2000, gwei 100) else (gwei 150, gwei 5)

unfoldable pub fees_of_price : ℤ → Option ℕ → MaxFees
unfolding apply_floor conservative
fees_of_price chain_id none = conservative chain_id
fees_of_price chain_id (some price) =
    if ltb 0 price then apply_floor chain_id (price * 2) price else conservative chain_id

-- The fees from those of the node.
unfoldable pub fees_of_provider : ℤ → Option ℕ → Option ℕ → Option ℕ → MaxFees
unfolding apply_floor fees_of_price
fees_of_provider chain_id (some m) (some p) price =
    let q = if ltb m p then m / 2 else p in
    if ltb 0 m && ltb 0 p then apply_floor chain_id m q else fees_of_price chain_id price
fees_of_provider chain_id (some m) none price = fees_of_price chain_id price
fees_of_provider chain_id none p price = fees_of_price chain_id price

-- `firstBig` of two settings that were both read
unfoldable pub first_read : Option (Option ℕ) → Option (Option ℕ) → Option (Option ℕ)
unfolding first_big
first_read (some a) (some b) = some (first_big a b)
first_read (some a) none = none
first_read none b = none

-- A setting for the chain, or the one for all chains.
unfoldable pub env_fee : {F : Type 0} → ParseGwei F → Env → Text → ℤ → Option (Option ℕ)
unfolding parse_user_op_gwei_env first_read
env_fee parse getenv name chain_id =
    first_read (parse_user_op_gwei_env parse getenv (name ++ (codes "_" ++ format_int chain_id)))
      (parse_user_op_gwei_env parse getenv name)

abbrev pub priority_gt_max : GoError
priority_gt_max =
    new_error (codes "USEROP_MAX_PRIORITY_FEE_PER_GAS_GWEI must be <= USEROP_MAX_FEE_PER_GAS_GWEI")

module _ {F W Key Signed : Type 0} (parse : ParseGwei F) (getenv : Env)
    (client : Ethclient W Key Signed) where
  unfoldable pub provider_fees : ℤ → M W MaxFees
  unfolding fees_of_provider
  provider_fees chain_id w =
      let (r, w') = fee_from_provider client w in
      elim r [
        | err e ↦ (err e, w')
        | ok o ↦ (ok (fees_of_provider chain_id o.max_fee o.max_priority o.gas_price), w')
      ]

  -- The settings count only where both are set.
  unfoldable pub choose_fees : Option ℕ → Option ℕ → ℤ → M W MaxFees
  unfolding provider_fees
  choose_fees (some m) (some p) chain_id w =
      if ltb m p then (err priority_gt_max, w) else (ok (m, p), w)
  choose_fees (some m) none chain_id w = provider_fees chain_id w
  choose_fees none p chain_id w = provider_fees chain_id w

  -- From both settings, once they were read without a panic.
  unfoldable pub fees_read : Option (Option ℕ) → Option (Option ℕ) → ℤ → M W (Option MaxFees)
  unfolding choose_fees
  fees_read (some m) (some p) chain_id = do fees ← choose_fees m p chain_id; return (some fees)
  fees_read (some m) none chain_id = return none
  fees_read none p chain_id = return none

  -- `userOpMaxFeeFields`
  unfoldable pub user_op_max_fee_fields : ℤ → M W (Option MaxFees)
  unfolding env_fee fees_read
  user_op_max_fee_fields chain_id w =
      fees_read (env_fee parse getenv (codes "USEROP_MAX_FEE_PER_GAS_GWEI") chain_id)
        (env_fee parse getenv (codes "USEROP_MAX_PRIORITY_FEE_PER_GAS_GWEI") chain_id) chain_id w
