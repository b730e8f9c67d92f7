-- ===== src/Signer/Stability.antt =====
-- manager.go: a call of the manager leaves what was loaded as it is.
use bundler_go.Base.{
  ℕ, ℤ, ◌≡◌, sym, ap, ◌∙◌, List, ◌∷◌, Text, codes, Option, none, some, M, eq_ℤ, leb, ◌++◌,
  Option-cases, Result-cases, Bool-cases, inl, inr, true, arith,
}
use bundler_go.Evm.Client.{Geth}
use bundler_go.Kms.Provider.{Provider}
use bundler_go.Redis.Cursor.{Cursors, next_index}
use bundler_go.Signer.Account.{Account}
use bundler_go.Signer.Manager.{
  EnvKeys, Keys, find_pool, build_pool, bundler_pool, primary_bundler, server_key1, server_key2,
}

-- What was loaded stays as it is.
pub record Keeps {Key : Type 0} (k l : Keys Key) : Type 0 where
  pub pools :
      (c : ℤ) (p : List (Account Key)) → find_pool c k.pools ≡ some p → find_pool c l.pools ≡ some p
  pub server1 : (a : Account Key) → k.server1 ≡ some a → l.server1 ≡ some a
  pub server2 : (a : Account Key) → k.server2 ≡ some a → l.server2 ≡ some a

pub Keeps-refl : {Key : Type 0} (k : Keys Key) → Keeps k k
Keeps-refl k = record { pools = λ c p h. h; server1 = λ a h. h; server2 = λ a h. h }

pub Keeps-trans : {Key : Type 0} {k l m : Keys Key} → Keeps k l → Keeps l m → Keeps k m
Keeps-trans f g = record {
  pools = λ c p h. g.pools c p (f.pools c p h);
  server1 = λ a h. g.server1 a (f.server1 a h);
  server2 = λ a h. g.server2 a (f.server2 a h);
}

eq_ℤ-sound : (a b : ℤ) → eq_ℤ a b ≡ true → a ≡ b
eq_ℤ-sound a b h = ground arith

none-ne-some : {A : Type 0} {a : A} → none ≡ some a → ⊥
none-ne-some h = cc

find_pool-other :
    {Key : Type 0} (c d : ℤ) (pools : List (ℤ × List (Account Key))) (p q : List (Account Key))
    → find_pool d pools ≡ none
    → find_pool c pools ≡ some p
    → find_pool c ((d, q) ∷ pools) ≡ some p
unfolding find_pool
find_pool-other c d pools p q h k = elim (Bool-cases (eq_ℤ d c)) [
  | inr e ↦ rw (e, find_pool) k
  | inl e ↦ absurd (none-ne-some (sym h ∙ ap (λ (x : ℤ). find_pool x pools) (eq_ℤ-sound d c e) ∙ k))
]

module _ {Key Signed W : Type 0} (geth : Geth Key Signed) (kms : Option (Provider W))
    (env : EnvKeys) where
  pub bundler_pool-Keeps :
      (c : ℤ) (s : W × Keys Key) → Keeps s.1 (bundler_pool geth kms env c s).1.1
  unfolding bundler_pool
  bundler_pool-Keeps c (w, keys) = elim (Option-cases (find_pool c keys.pools)) [
    | inr (p, e) ↦ rw (e, bundler_pool) (Keeps-refl keys)
    | inl e ↦ elim (Result-cases (build_pool geth kms env c w).0) [
      | inr (x, k) ↦ rw (e, bundler_pool) (rw (k, bundler_pool) (Keeps-refl keys))
      | inl (pool, k) ↦
          rw (e, bundler_pool)
            (rw (k, bundler_pool)
              (record {
                pools = λ d p h. find_pool-other d c keys.pools p pool e h;
                server1 = λ a h. h;
                server2 = λ a h. h;
              }))
    ]
  ]

  pub primary_bundler-Keeps :
      (c : ℤ) (s : W × Keys Key) → Keeps s.1 (primary_bundler geth kms env c s).1.1
  unfolding primary_bundler
  primary_bundler-Keeps c s = elim (Result-cases (bundler_pool geth kms env c s).0) [
    | inr (x, e) ↦ rw (e, primary_bundler) (bundler_pool-Keeps c s)
    | inl (p, e) ↦ rw (e, primary_bundler) (bundler_pool-Keeps c s)
  ]

  pub server_key1-Keeps : (s : W × Keys Key) → Keeps s.1 (server_key1 geth kms env s).1.1
  unfolding server_key1
  server_key1-Keeps (w, keys) = record {
    pools = λ c p h. ground (arith, h);
    server1 = λ a h. ground (arith, h);
    server2 = λ a h. ground (arith, h);
  }

  pub server_key2-Keeps : (s : W × Keys Key) → Keeps s.1 (server_key2 geth kms env s).1.1
  unfolding server_key2
  server_key2-Keeps (w, keys) = record {
    pools = λ c p h. ground (arith, h);
    server1 = λ a h. ground (arith, h);
    server2 = λ a h. ground (arith, h);
  }

-- The redis server keeps its counters outside the manager.
abbrev pub Outside : {Key W : Type 0} → Option (Text → M (W × Keys Key) ℤ) → Type 0
Outside none = Unit
Outside {Key} {W} (some f) = (t : Text) (s : W × Keys Key) → (f t s).1.1 ≡ s.1

pub next_index-keys :
    {Key W : Type 0} (incr : Option (Text → M (W × Keys Key) ℤ)) (key : Text) (n : ℕ)
    (s : W × Keys Key) (cursors : Cursors)
    → Outside incr
    → (next_index incr key n (s, cursors)).1.0.1 ≡ s.1
unfolding next_index
next_index-keys none key n s cursors h = elim (Bool-cases (leb n 1)) [
  | inl e ↦ rw (e, next_index)
  | inr e ↦ rw (e, next_index)
]
next_index-keys (some f) key n s cursors h = elim (Bool-cases (leb n 1)) [
  | inl e ↦ rw (e, next_index)
  | inr e ↦ elim (Result-cases (f (codes "walletcursor:" ++ key) s).0) [
    | inl (v, k) ↦ rw (e, next_index) (rw (k, next_index) (h _ s))
    | inr (x, k) ↦ rw (e, next_index) (rw (k, next_index) (h _ s))
  ]
]
