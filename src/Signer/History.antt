-- ===== src/Signer/History.antt =====
-- manager.go: what the manager has given out it gives out again, over every history of its calls.
use bundler_go.Base.{
  ℤ, ◌≡◌, sym, subst, List, [], ◌∷◌, Text, Option, some, ok, M, eq_ℤ, length, ◌==◌, format_int,
  Option-cases, Result-cases, Bool-cases, inl, inr, true, arith,
}
use bundler_go.Evm.Client.{Geth}
use bundler_go.Kms.Provider.{Provider}
use bundler_go.Redis.Cursor.{Cursors, next_index}
use bundler_go.Signer.Account.{Account}
use bundler_go.Signer.Manager.{
  EnvKeys, Keys, find_pool, build_pool, bundler_pool, primary_bundler, server_key1, server_key2,
  select_bundler, wallet_at,
}
use bundler_go.Signer.Stability.{
  Keeps, Keeps-refl, Keeps-trans, Outside, next_index-keys, bundler_pool-Keeps,
  primary_bundler-Keeps, server_key1-Keeps, server_key2-Keeps,
}

-- A call of the manager.
pub data Call : Type 0 where
  pool_of primary_of select_of : ℤ → Call
  key1 key2 : Call

module _ {Key Signed W : Type 0} (geth : Geth Key Signed) (kms : Option (Provider W))
    (env : EnvKeys) (incr : Option (Text → M (W × Keys Key) ℤ)) (outside : Outside incr) where
  select_bundler-Keeps :
      (c : ℤ) (s : W × Keys Key) (cursors : Cursors)
      → Keeps s.1 (select_bundler geth kms env incr c (s, cursors)).1.0.1
  unfolding select_bundler
  select_bundler-Keeps c s cursors =
      let s1 = (bundler_pool geth kms env c s).1 in
      elim (Result-cases (bundler_pool geth kms env c s).0) [
        | inr (x, e) ↦ rw (e, select_bundler) (bundler_pool-Keeps geth kms env c s)
        | inl (pool, e) ↦ elim (Bool-cases (length pool == 1)) [
          | inl k ↦
              rw (e, select_bundler) (rw (k, select_bundler) (bundler_pool-Keeps geth kms env c s))
          | inr k ↦
              let moved =
                subst (Keeps s.1)
                  (sym (next_index-keys incr (format_int c) (length pool) s1 cursors outside))
                  (bundler_pool-Keeps geth kms env c s) in
              elim (Result-cases (next_index incr (format_int c) (length pool) (s1, cursors)).0) [
                | inl (i, m) ↦
                    rw (e, select_bundler) (rw (k, select_bundler) (rw (m, select_bundler) moved))
                | inr (x, m) ↦
                    rw (e, select_bundler) (rw (k, select_bundler) (rw (m, select_bundler) moved))
              ]
        ]
      ]

  -- The state after a call, whatever happens outside before it.
  abbrev pub after_call : Call → (W × Keys Key) × Cursors → (W × Keys Key) × Cursors
  after_call (pool_of c) (s, cursors) = ((bundler_pool geth kms env c s).1, cursors)
  after_call (primary_of c) (s, cursors) = ((primary_bundler geth kms env c s).1, cursors)
  after_call (select_of c) (s, cursors) = (select_bundler geth kms env incr c (s, cursors)).1
  after_call key1 (s, cursors) = ((server_key1 geth kms env s).1, cursors)
  after_call key2 (s, cursors) = ((server_key2 geth kms env s).1, cursors)

  abbrev pub after_all : List (Call × (W → W)) → (W × Keys Key) × Cursors → (W × Keys Key) × Cursors
  after_all [] t = t
  after_all ((call, change) ∷ calls) ((w, keys), cursors) =
      after_all calls (after_call call ((change w, keys), cursors))

  after_call-Keeps :
      (call : Call) (s : W × Keys Key) (cursors : Cursors)
      → Keeps s.1 (after_call call (s, cursors)).0.1
  after_call-Keeps (pool_of c) s cursors = bundler_pool-Keeps geth kms env c s
  after_call-Keeps (primary_of c) s cursors = primary_bundler-Keeps geth kms env c s
  after_call-Keeps (select_of c) s cursors = select_bundler-Keeps c s cursors
  after_call-Keeps key1 s cursors = server_key1-Keeps geth kms env s
  after_call-Keeps key2 s cursors = server_key2-Keeps geth kms env s

  after_all-Keeps :
      (calls : List (Call × (W → W))) (t : (W × Keys Key) × Cursors)
      → Keeps t.0.1 (after_all calls t).0.1
  after_all-Keeps [] ((w, keys), cursors) = Keeps-refl keys
  after_all-Keeps ((call, change) ∷ calls) ((w, keys), cursors) =
      Keeps-trans (after_call-Keeps call (change w, keys) cursors) (after_all-Keeps calls _)

  eq_ℤ-refl : (c : ℤ) → eq_ℤ c c ≡ true
  eq_ℤ-refl c = ground arith

  -- What a call has returned is kept.
  pool-kept :
      (c : ℤ) (s : W × Keys Key) (p : List (Account Key))
      → (bundler_pool geth kms env c s).0 ≡ ok p
      → find_pool c (bundler_pool geth kms env c s).1.1.pools ≡ some p
  unfolding bundler_pool
  pool-kept c (w, keys) p h = elim (Option-cases (find_pool c keys.pools)) [
    | inr (q, e) ↦ ground (arith, e, h)
    | inl e ↦ elim (Result-cases (build_pool geth kms env c w).0) [
      | inr (x, k) ↦ absurd (ground (arith, e, k, h))
      | inl (q, k) ↦ unfold find_pool in ground (arith, eq_ℤ-refl c, e, k, h)
    ]
  ]

  pool-given :
      (c : ℤ) (v : W) (keys : Keys Key) (p : List (Account Key))
      → find_pool c keys.pools ≡ some p
      → (bundler_pool geth kms env c (v, keys)).0 ≡ ok p
  unfolding bundler_pool
  pool-given c v keys p h = rw (h, bundler_pool)

  key1-kept :
      (s : W × Keys Key) (a : Account Key)
      → (server_key1 geth kms env s).0 ≡ ok a
      → (server_key1 geth kms env s).1.1.server1 ≡ some a
  unfolding server_key1
  key1-kept (w, keys) a h = ground (arith, h)

  key2-kept :
      (s : W × Keys Key) (a : Account Key)
      → (server_key2 geth kms env s).0 ≡ ok a
      → (server_key2 geth kms env s).1.1.server2 ≡ some a
  unfolding server_key2
  key2-kept (w, keys) a h = ground (arith, h)

  module _ (s : W × Keys Key) (cursors : Cursors) (calls : List (Call × (W → W))) (v : W) where
    -- The keys after a call that left the manager at `t`, and all later ones.
    abbrev pub later : W × Keys Key → Keys Key
    later t = (after_all calls (t, cursors)).0.1

    -- Once the manager has returned the pool of a chain, it returns this pool for this chain to every later
    -- call, and its first wallet as the primary one, whatever calls come in between, on whatever chains,
    -- and however the keystore and the rest of the world change.
    pub bundler_pool-stable :
        (c : ℤ) (p : List (Account Key))
        → (bundler_pool geth kms env c s).0 ≡ ok p
        → ((bundler_pool geth kms env c (v, later (bundler_pool geth kms env c s).1)).0 ≡ ok p)
          × ((primary_bundler geth kms env c (v, later (bundler_pool geth kms env c s).1)).0
              ≡ wallet_at geth kms env p 0)
    unfolding primary_bundler
    bundler_pool-stable c p h =
        let t = (bundler_pool geth kms env c s).1 in
        let same =
          pool-given c v (later t) p
            ((after_all-Keeps calls (t, cursors)).pools c p (pool-kept c s p h)) in
        (same, rw (same, primary_bundler))

    -- A server key that was returned is returned to every later call.
    server_key1-stable :
        (a : Account Key)
        → (server_key1 geth kms env s).0 ≡ ok a
        → (server_key1 geth kms env (v, later (server_key1 geth kms env s).1)).0 ≡ ok a
    unfolding server_key1
    server_key1-stable a h =
        let t = (server_key1 geth kms env s).1 in
        rw ((after_all-Keeps calls (t, cursors)).server1 a (key1-kept s a h), server_key1)

    server_key2-stable :
        (a : Account Key)
        → (server_key2 geth kms env s).0 ≡ ok a
        → (server_key2 geth kms env (v, later (server_key2 geth kms env s).1)).0 ≡ ok a
    unfolding server_key2
    server_key2-stable a h =
        let t = (server_key2 geth kms env s).1 in
        rw ((after_all-Keeps calls (t, cursors)).server2 a (key2-kept s a h), server_key2)
