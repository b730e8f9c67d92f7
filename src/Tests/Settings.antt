-- ===== src/Tests/Settings.antt =====
-- chain.go at an environment with one URL and a default chain.
use bundler_go.Base.{ℤ, ◌≡◌, ◌⊎◌, refl, [], Text, true, ok, Elem, trim_space}
use bundler_go.Chain.{Config, get, entry_point, assert_config, sets_rpc_url}
use bundler_go.Chain.Startup.{assert_config-get}
use bundler_go.Tests.World.{getenv}

assert_config-get_example :
    (ep : Text) × (entry_point getenv ≡ ok ep)
    × (((c : ℤ) → (cfg : Config) × (get getenv c ≡ ok cfg) × (cfg.entry_point ≡ ep))
        ⊎ ((kv : Text) × Elem kv [] × (sets_rpc_url kv ≡ true)))
unfolding assert_config trim_space
assert_config-get_example = assert_config-get getenv [] refl
