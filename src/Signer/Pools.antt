-- ===== src/Signer/Pools.antt =====
-- manager.go: the pools that `BundlerPool` keeps, and their first wallets.
use bundler_go.Base.{
  ℤ, suc, ◌<◌, ◌≡◌, refl, ap, ◌∙◌, ◌++◌, List, [], ◌∷◌, Text, codes, true, Option, some, inl, inr,
  Result, ok, err, format_int, eq_ℤ, get_elem?, length, arith, Option-cases, Result-cases,
}
use bundler_go.Evm.Client.{Geth}
use bundler_go.Kms.Provider.{Provider, list_names}
use bundler_go.Signer.Account.{Account}
use bundler_go.Signer.Order.{insert_by_index, sort_by_trailing_index}
use bundler_go.Signer.Manager.{
  EnvKeys, Keys, find_pool, load_account, load_accounts, owner_pool, keystore_pool, build_pool,
  bundler_pool, primary_bundler, wallet_at,
}

length-insert : (x : Text) (ys : List Text) → length (insert_by_index x ys) ≡ suc (length ys)
unfolding insert_by_index
length-insert x [] = refl
length-insert x (y ∷ ys) = ground (arith, length-insert x ys)

length-sort : (xs : List Text) → length (sort_by_trailing_index xs) ≡ length xs
unfolding sort_by_trailing_index
length-sort [] = refl
length-sort (x ∷ xs) = length-insert x (sort_by_trailing_index xs) ∙ ap suc (length-sort xs)

module _ {Key Signed W : Type 0} (geth : Geth Key Signed) (kms : Option (Provider W))
    (env : EnvKeys) where
  length-load_accounts :
      (names : List Text) (w : W) (pool : List (Account Key))
      → (load_accounts geth kms env names w).0 ≡ ok pool
      → length pool ≡ length names
  unfolding load_accounts
  length-load_accounts [] w pool h = ground (arith, h)
  length-load_accounts (name ∷ names) w pool h =
      elim (Result-cases (load_account geth kms env name w).0) [
        | inr (e, k) ↦ absurd (ground (arith, h, k))
        | inl (acc, k) ↦
            let w1 = (load_account geth kms env name w).1 in
            elim (Result-cases (load_accounts geth kms env names w1).0) [
              | inr (e, k2) ↦ absurd (ground (arith, h, k, k2))
              | inl (rest, k2) ↦ ground (arith, h, k, k2, length-load_accounts names w1 rest k2)
            ]
      ]

  owner_pool-nonempty :
      (c : ℤ) (w : W) (pool : List (Account Key))
      → (owner_pool geth kms env c w).0 ≡ ok pool
      → 0 < length pool
  unfolding owner_pool
  owner_pool-nonempty c w pool h = ground (arith, h)

  keystore_pool-nonempty :
      (c : ℤ) (w : W) (pool : List (Account Key))
      → (keystore_pool geth kms env c w).0 ≡ ok pool
      → 0 < length pool
  unfolding keystore_pool
  keystore_pool-nonempty c w pool h =
      go (list_names kms (codes "bundler_key_" ++ (format_int c ++ codes "_")) w).0 refl
    where
      w1 : W
      w1 = (list_names kms (codes "bundler_key_" ++ (format_int c ++ codes "_")) w).1

      go :
          (r : Result (List Text))
          → (list_names kms (codes "bundler_key_" ++ (format_int c ++ codes "_")) w).0 ≡ r
          → 0 < length pool
      go (err e) k = absurd (ground (arith, h, k))
      go (ok []) k = owner_pool-nonempty c w1 pool (ground (arith, h, k))
      go (ok (n ∷ ns)) k =
          let sorted = sort_by_trailing_index (n ∷ ns) in
          omega (
            arith,
            length-load_accounts sorted w1 pool (ground (arith, h, k)),
            length-sort (n ∷ ns),
          )

  build_pool-nonempty :
      (c : ℤ) (w : W) (pool : List (Account Key))
      → (build_pool geth kms env c w).0 ≡ ok pool
      → 0 < length pool
  unfolding build_pool
  build_pool-nonempty c w pool h = ground (arith, h, keystore_pool-nonempty c w pool)

  -- No chain's pool is empty.
  abbrev pub NonEmpty : List (ℤ × List (Account Key)) → Type 0
  NonEmpty [] = Unit
  NonEmpty ((c, p) ∷ rest) = (0 < length p) × NonEmpty rest

  find_pool-nonempty :
      (c : ℤ) (pools : List (ℤ × List (Account Key))) (p : List (Account Key))
      → NonEmpty pools
      → find_pool c pools ≡ some p
      → 0 < length p
  unfolding find_pool
  find_pool-nonempty c [] p h e = absurd (ground (arith, e))
  find_pool-nonempty c ((d, q) ∷ rest) p h e =
      ground (arith, h.0, e, find_pool-nonempty c rest p h.1)

  -- Asking for the pool of a chain keeps every pool non-empty, whether the pool is found, built or
  -- fails to be built.
  bundler_pool-NonEmpty :
      (c : ℤ) (w : W) (keys : Keys Key)
      → NonEmpty keys.pools
      → NonEmpty (bundler_pool geth kms env c (w, keys)).1.1.pools
  unfolding bundler_pool
  bundler_pool-NonEmpty c w keys h = elim (Option-cases (find_pool c keys.pools)) [
    | inr (p, e) ↦ rw (e, bundler_pool) h
    | inl e ↦ elim (Result-cases (build_pool geth kms env c w).0) [
      | inr (x, k) ↦ rw (e, bundler_pool) (rw (k, bundler_pool) h)
      | inl (pool, k) ↦
          rw (e, bundler_pool) (rw (k, bundler_pool) (build_pool-nonempty c w pool k, h))
    ]
  ]

  returned-nonempty :
      (c : ℤ) (w : W) (keys : Keys Key) (pool : List (Account Key))
      → NonEmpty keys.pools
      → (bundler_pool geth kms env c (w, keys)).0 ≡ ok pool
      → 0 < length pool
  unfolding bundler_pool
  returned-nonempty c w keys pool h r = elim (Option-cases (find_pool c keys.pools)) [
    | inr (p, e) ↦ find_pool-nonempty c keys.pools pool h (ground (arith, e, r))
    | inl e ↦ build_pool-nonempty c w pool (ground (arith, e, r))
  ]

  first_of_pool :
      (pool : List (Account Key))
      → 0 < length pool
      → (acc : Account Key) × (get_elem? pool 0 ≡ some acc)
  first_of_pool [] h = absurd (omega arith)
  first_of_pool (acc ∷ rest) h = (acc, refl)

  -- The wallet of deployments and deposits is the first of the pool, wherever there is a pool: the
  -- access `pool[0]` is never out of range.
  primary_bundler-first :
      (c : ℤ) (w : W) (keys : Keys Key) (pool : List (Account Key))
      → NonEmpty keys.pools
      → (bundler_pool geth kms env c (w, keys)).0 ≡ ok pool
      → (acc : Account Key) × ((primary_bundler geth kms env c (w, keys)).0 ≡ ok acc)
        × (get_elem? pool 0 ≡ some acc)
  unfolding primary_bundler
  primary_bundler-first c w keys pool h r =
      let (acc, e) = first_of_pool pool (returned-nonempty c w keys pool h r) in
      (acc, rw (r, primary_bundler) (rw (e, wallet_at)), e)

  eq_ℤ-refl : (c : ℤ) → eq_ℤ c c ≡ true
  eq_ℤ-refl c = ground arith

  -- A pool that was returned once is returned again, to any later call and in any later world, without
  -- a look at the keystore.
  bundler_pool-cached :
      (c : ℤ) (w v : W) (keys : Keys Key) (pool : List (Account Key))
      → (bundler_pool geth kms env c (w, keys)).0 ≡ ok pool
      → let later = (bundler_pool geth kms env c (w, keys)).1.1 in
        bundler_pool geth kms env c (v, later) ≡ (ok pool, (v, later))
  unfolding bundler_pool
  bundler_pool-cached c w v keys pool h = elim (Option-cases (find_pool c keys.pools)) [
    | inr (p, e) ↦ ground (arith, e, h)
    | inl e ↦ elim (Result-cases (build_pool geth kms env c w).0) [
      | inr (x, k) ↦ absurd (ground (arith, e, k, h))
      | inl (q, k) ↦
          rw (e, bundler_pool)
            (rw (k, bundler_pool) (unfold find_pool in ground (arith, eq_ℤ-refl c, e, k, h)))
    ]
  ]
