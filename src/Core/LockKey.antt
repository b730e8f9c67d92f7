-- ===== src/Core/LockKey.antt =====
-- core/deps.go: which wallets share a lock key.
use bundler_go.Base.{
  ℕ, ℤ, ◌≡◌, refl, ◌++◌, [], ◌∷◌, Text, codes, true, false, ◌||◌, arith, All, is_digit, ◌==◌,
  format_int, format_int-inj, format_int-chars, append_cancel_left,
}
use bundler_go.Core.{nonce_lock_key}

-- Two texts that are split by the first occurrence of a character are equal in both parts.
split-inj :
    (x : ℕ) (s t a b : Text)
    → All (λ c. (c == x) ≡ false) s
    → All (λ c. (c == x) ≡ false) t
    → s ++ (x ∷ a) ≡ t ++ (x ∷ b)
    → (s ≡ t) × (a ≡ b)
split-inj x [] [] a b hs ht e = (refl, ground (arith, e))
split-inj x [] (d ∷ t) a b hs ht e = absurd (ground (arith, ht.0, e))
split-inj x (c ∷ s) [] a b hs ht e = absurd (ground (arith, hs.0, e))
split-inj x (c ∷ s) (d ∷ t) a b hs ht e = ground (arith, e, split-inj x s t a b hs.1 ht.1)

no_colon :
    (s : Text) → All (λ c. (is_digit c || (c == b'-')) ≡ true) s → All (λ c. (c == b':') ≡ false) s
no_colon [] h = tt
no_colon (c ∷ s) h = (ground (arith, h.0), no_colon s h.1)

-- Only one chain and one address lead to a lock key: different wallets, and the same wallet on
-- different chains, never wait for one another.
pub nonce_lock_key-inj :
    (c d : ℤ) (a b : Text) → nonce_lock_key c a ≡ nonce_lock_key d b → (c ≡ d) × (a ≡ b)
unfolding nonce_lock_key
nonce_lock_key-inj c d a b h =
    let tails = append_cancel_left (codes "nonce:") _ _ h in
    let (e, k) =
      split-inj b':' (format_int c) (format_int d) a b (no_colon _ (format_int-chars c))
        (no_colon _ (format_int-chars d)) tails in
    (format_int-inj c d e, k)
