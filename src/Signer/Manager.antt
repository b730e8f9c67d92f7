-- ===== src/Signer/Manager.antt =====
-- manager.go: the wallets of each chain and the server keys, with their caches. A call changes the
-- world and the keys of the process; the mutex makes each call one step.
use bundler_go.Base.{
  ℕ, ℤ, ◌++◌, List, [], ◌∷◌, Text, codes, not, Option, none, some, is_empty, Result, ok, err,
  GoError, new_error, wrap_error, M, format_int, eq_ℤ, if◌then◌else◌, get_elem?, length, ◌==◌,
}
use bundler_go.Evm.Client.{Geth}
use bundler_go.Evm.Number.{quote}
use bundler_go.Kms.Provider.{Provider, enabled, list_names, load_hex_key}
use bundler_go.Redis.Cursor.{Cursors, next_index}
use bundler_go.Signer.Account.{Account, new_account}
use bundler_go.Signer.Order.{sort_by_trailing_index, first_non_empty}

pub record EnvKeys : Type 0 where
  pub owner_key : Text
  pub bundler_key : Text
  pub server_key1 : Text
  pub server_key2 : Text

-- What the manager has loaded.
pub record Keys (Key : Type 0) : Type 0 where
  pub pools : List (ℤ × List (Account Key))
  pub server1 : Option (Account Key)
  pub server2 : Option (Account Key)

unfoldable pub find_pool {ℓ} : {A : Type ℓ} → ℤ → List (ℤ × A) → Option A
find_pool c [] = none
find_pool c ((d, p) ∷ rest) = if eq_ℤ d c then some p else find_pool c rest

-- An index out of range ends the handler by a panic.
abbrev pub index_panic : GoError
index_panic = new_error (codes "runtime error: index out of range")

module _ {Key Signed W : Type 0} (geth : Geth Key Signed) (kms : Option (Provider W))
    (env : EnvKeys) where
  -- A key of the keystore under its name, for the error message.
  unfoldable pub account_of : Text → Text → Result (Option (Account Key))
  account_of name hex_key = elim (new_account geth hex_key) [
    | err e ↦ err (wrap_error (codes "keystore key " ++ (quote name ++ codes ": ")) e)
    | ok acc ↦ ok (some acc)
  ]

  -- `tryLoad`
  unfoldable pub try_load : Text → M W (Option (Account Key))
  unfolding account_of
  try_load name w =
      let (r, w') = load_hex_key kms name w in
      elim r [
        | err e ↦ (err e, w')
        | ok none ↦ (ok none, w')
        | ok (some hex_key) ↦ (account_of name hex_key, w')
      ]

  -- `loadAccount`
  unfoldable pub load_account : Text → M W (Account Key)
  unfolding try_load
  load_account name w =
      let (r, w') = try_load name w in
      elim r [
        | err e ↦ (err e, w')
        | ok none ↦
            (err (new_error (codes "keystore key " ++ (quote name ++ codes " not found"))), w')
        | ok (some acc) ↦ (ok acc, w')
      ]

  unfoldable pub load_accounts : List Text → M W (List (Account Key))
  unfolding load_account
  load_accounts [] w = (ok [], w)
  load_accounts (name ∷ names) w =
      let (r, w1) = load_account name w in
      elim r [
        | err e ↦ (err e, w1)
        | ok acc ↦
            let (rest, w2) = load_accounts names w1 in
            elim rest [ err e ↦ (err e, w2) | ok pool ↦ (ok (acc ∷ pool), w2) ]
      ]

  abbrev pub not_configured : ℤ → GoError
  not_configured chain_id = new_error (
      codes "bundler key not configured for chain "
      ++ (format_int chain_id
          ++ (codes ": set OWNER_KEY/BUNDLER_PRIVATE_KEY, or keystore bundler_key_"
              ++ (format_int chain_id ++ codes "_<idx> (or owner_key) with KMS"))))

  -- The single key of the keystore, for a chain that has no wallets there.
  unfoldable pub owner_pool : ℤ → M W (List (Account Key))
  unfolding try_load
  owner_pool chain_id w =
      let (r, w') = try_load (codes "owner_key") w in
      elim r [
        | err e ↦ (err e, w')
        | ok none ↦ (err (not_configured chain_id), w')
        | ok (some acc) ↦ (ok (acc ∷ []), w')
      ]

  unfoldable pub keystore_pool : ℤ → M W (List (Account Key))
  unfolding load_accounts owner_pool
  keystore_pool chain_id w =
      let (r, w') = list_names kms (codes "bundler_key_" ++ (format_int chain_id ++ codes "_")) w in
      elim r [
        | err e ↦ (err e, w')
        | ok [] ↦ owner_pool chain_id w'
        | ok (name ∷ names) ↦ load_accounts (sort_by_trailing_index (name ∷ names)) w'
      ]

  -- `buildPool`: the key of the environment, or the keystore.
  unfoldable pub build_pool : ℤ → M W (List (Account Key))
  unfolding keystore_pool
  build_pool chain_id w =
      let env_key = first_non_empty env.owner_key env.bundler_key in
      if not (is_empty env_key)
      then elim (new_account geth env_key) [
        | err e ↦ (err (wrap_error (codes "OWNER_KEY/BUNDLER_PRIVATE_KEY: ") e), w)
        | ok acc ↦ (ok (acc ∷ []), w)
      ]
      else if enabled kms
      then keystore_pool chain_id w
      else (err (not_configured chain_id), w)

  -- `BundlerPool`
  unfoldable pub bundler_pool : ℤ → M (W × Keys Key) (List (Account Key))
  unfolding build_pool find_pool
  bundler_pool chain_id (w, keys) = elim (find_pool chain_id keys.pools) [
    | some p ↦ (ok p, (w, keys))
    | none ↦
        let (r, w') = build_pool chain_id w in
        elim r [
          | err e ↦ (err e, (w', keys))
          | ok pool ↦ (ok pool, (w', record keys { pools = (chain_id, pool) ∷ keys.pools }))
        ]
  ]

  -- `pool[i]`
  abbrev pub wallet_at : List (Account Key) → ℕ → Result (Account Key)
  wallet_at pool i = elim (get_elem? pool i) [ none ↦ err index_panic | some acc ↦ ok acc ]

  -- `PrimaryBundler`
  unfoldable pub primary_bundler : ℤ → M (W × Keys Key) (Account Key)
  unfolding bundler_pool
  primary_bundler chain_id s =
      let (r, s') = bundler_pool chain_id s in
      elim r [ err e ↦ (err e, s') | ok pool ↦ (wallet_at pool 0, s') ]

  -- `loadServerKey`
  unfoldable pub load_server_key : Text → Text → Text → M W (Account Key)
  unfolding try_load
  load_server_key keystore_name env_key env_var w =
      let missing = new_error (
        keystore_name
        ++ (codes " not configured: set "
            ++ (env_var
                ++ (codes " env, or keystore row "
                    ++ (keystore_name ++ codes " (KeyID+EncKey) with KMS"))))) in
      let (r, w') = try_load keystore_name w in
      let stored = elim r as (λ x. Result (Account Key) × W) [
        | err e ↦ (err e, w')
        | ok o ↦ elim o [ none ↦ (err missing, w') | some acc ↦ (ok acc, w') ]
      ] in
      if not (is_empty env_key)
      then elim (new_account geth env_key) [
        | err e ↦ (err (wrap_error (env_var ++ codes ": ") e), w)
        | ok acc ↦ (ok acc, w)
      ]
      else stored

  -- `ServerKey1`
  unfoldable pub server_key1 : M (W × Keys Key) (Account Key)
  unfolding load_server_key
  server_key1 (w, keys) = elim keys.server1 [
    | some acc ↦ (ok acc, (w, keys))
    | none ↦
        let (r, w') =
          load_server_key (codes "server_key1") env.server_key1 (codes "SERVER_KEY1") w in
        elim r [
          | err e ↦ (err e, (w', keys))
          | ok acc ↦ (ok acc, (w', record keys { server1 = some acc }))
        ]
  ]

  -- `ServerKey2`
  unfoldable pub server_key2 : M (W × Keys Key) (Account Key)
  unfolding load_server_key
  server_key2 (w, keys) = elim keys.server2 [
    | some acc ↦ (ok acc, (w, keys))
    | none ↦
        let (r, w') =
          load_server_key (codes "server_key2") env.server_key2 (codes "SERVER_KEY2") w in
        elim r [
          | err e ↦ (err e, (w', keys))
          | ok acc ↦ (ok acc, (w', record keys { server2 = some acc }))
        ]
  ]

  -- `SelectBundler`, over the counter of the server or the process.
  unfoldable pub select_bundler :
      Option (Text → M (W × Keys Key) ℤ) → ℤ → M ((W × Keys Key) × Cursors) (Account Key)
  unfolding bundler_pool
  select_bundler incr chain_id (s, cursors) =
      let (r, s1) = bundler_pool chain_id s in
      elim r [
        | err e ↦ (err e, (s1, cursors))
        | ok pool ↦
            let (i, s2) = next_index incr (format_int chain_id) (length pool) (s1, cursors) in
            if length pool == 1
            then (wallet_at pool 0, (s1, cursors))
            else elim i [ err e ↦ (err e, s2) | ok idx ↦ (wallet_at pool idx, s2) ]
      ]
