-- ===== src/Tests/Wallets.antt =====
-- manager.go and the keystore at a pool of one wallet, and at the names of two chains.
use bundler_go.Base.{
  ℕ, pos, ◌+◌, ◌*◌, ◌≡◌, refl, List, [], ◌∷◌, Text, codes, Option, none, ok, arith, Elem, here,
  there,
}
use bundler_go.Kms.Provider.{Provider}
use bundler_go.Kms.Sqlite.{Db, list_by_prefix}
use bundler_go.Kms.Wildcard.{select, pool_prefix, wallet_name, list_by_prefix-foreign}
use bundler_go.Signer.Account.{Account}
use bundler_go.Signer.History.{Call, primary_of, select_of, key1, later, bundler_pool-stable}
use bundler_go.Signer.Manager.{EnvKeys, Keys, bundler_pool, primary_bundler}
use bundler_go.Tests.World.{geth, account}

abbrev env : EnvKeys
env = record { owner_key = codes "0x11"; bundler_key = []; server_key1 = []; server_key2 = [] }

abbrev kms : Option (Provider ℕ)
kms = none

abbrev other : Account ℕ
other = record { addr = 20; priv = 19 }

abbrev keys : Keys ℕ
keys = record { pools = (pos 1, account ∷ other ∷ []) ∷ []; server1 = none; server2 = none }

abbrev table : List Text
table = wallet_name 1 0 ∷ wallet_name 10 0 ∷ []

-- A database of these names.
abbrev db : Db ℕ
db = record {
  query_row = λ n w. (ok none, w);
  query_like = λ p w. (ok (select p table), w);
  close = λ w. (ok tt, w);
}

list_by_prefix-foreign_example :
    (found : List Text) × ((list_by_prefix db (pool_prefix 1) 0).0 ≡ ok found)
    × Elem (wallet_name (10 * 1 + 0) 0) found
list_by_prefix-foreign_example =
    list_by_prefix-foreign db table 1 0 0 0 (λ p v. refl) (omega arith) (omega arith) (there here)

-- Between the two calls another chain's pool is built from the environment, and the world changes.
abbrev calls : List (Call × (ℕ → ℕ))
calls = (primary_of (pos 2), λ w. w + 1) ∷ (select_of (pos 1), λ w. w) ∷ (key1, λ w. w) ∷ []

bundler_pool-stable_example :
    ((bundler_pool geth kms env
        (pos 1)
        (9, later geth kms env none tt (0, keys) [] calls 9 (0, keys))).0
      ≡ ok (account ∷ other ∷ []))
    × ((primary_bundler geth kms env
          (pos 1)
          (9, later geth kms env none tt (0, keys) [] calls 9 (0, keys))).0
        ≡ ok account)
unfolding bundler_pool
bundler_pool-stable_example =
    bundler_pool-stable geth kms env none tt (0, keys) [] calls 9 (pos 1) (account ∷ other ∷ [])
      refl
