-- ===== src/Tests/Fees.antt =====
-- evm.go and gas.go at a node with a base fee of 20 gwei.
use bundler_go.Base.{ℕ, ◌≤◌, ◌≡◌, [], none, pos, negsuc, true, format_int, ok, arith}
use bundler_go.Evm.Client.{CallMsg}
use bundler_go.Evm.Gas.{Fees, fee_from_provider, estimate_gas}
use bundler_go.Evm.GasBounds.{ValidFees, fee_from_provider-ValidFees, estimate_gas_bounds}
use bundler_go.Evm.Number.{Float, str, to_big_int}
use bundler_go.Evm.NumberLaws.{to_big_int-format_int}
use bundler_go.Tests.World.{client}

abbrev floats : Float ℕ
floats = record { is_integer = λ t. true; to_int64 = λ t. pos t; show = λ t. [] }

abbrev message : CallMsg
message = record { from = 1; to = 2; value = none; input = [] }

fee_from_provider-ValidFees_example :
    (f : Fees) × ((fee_from_provider client 0).0 ≡ ok f) × ValidFees f
fee_from_provider-ValidFees_example = fee_from_provider-ValidFees client 0

estimate_gas_bounds_example :
    (g : ℕ) × ((estimate_gas client message 21_000 2_000_000 200_000 0).0 ≡ ok g)
    × (21_000 ≤ g)
    × (g ≤ 2_000_000)
estimate_gas_bounds_example =
    estimate_gas_bounds client message 21_000 2_000_000 200_000 0 (omega arith) (omega arith)

to_big_int-format_int_example : to_big_int floats (str (format_int (negsuc 41))) ≡ ok (negsuc 41)
to_big_int-format_int_example = to_big_int-format_int floats (negsuc 41)
