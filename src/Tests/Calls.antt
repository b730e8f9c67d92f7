-- ===== src/Tests/Calls.antt =====
-- The calls of the program at a small node.
use bundler_go.Base.{ℕ, pos, true, itoa}
use bundler_go.Evm.Number.{Float}

abbrev floats : Float ℕ
floats = record { is_integer = λ f. true; to_int64 = λ f. pos f; show = itoa }
