-- ===== src/Ethclient/Sharing.antt =====
-- ethclient.go: the calls for one chain share a client, and no client that was dialled is lost.
use bundler_go.Base.{
  ℕ, ℤ, ◌≡◌, ◌⊎◌, inl, inr, refl, sym, ap, ◌∙◌, List, ◌∷◌, true, none, some, some_inj, some-ne-none,
  ◌==◌, eq_ℤ, arith, Bool-cases, pos, negsuc,
}
use bundler_go.Chain.{Env}
use bundler_go.Ethclient.{
  Pc, calling, missed, dialed, got, failed, Provider, find_client, moves, Step, hit, miss, no_url,
  no_dial, dial, reuse, insert, Calls,
}

eq_ℤ_sound : (a b : ℤ) → eq_ℤ a b ≡ true → a ≡ b
eq_ℤ_sound (pos a) (pos b) h = ground (arith, h)
eq_ℤ_sound (pos a) (negsuc b) h = ground (arith, h)
eq_ℤ_sound (negsuc a) (pos b) h = ground (arith, h)
eq_ℤ_sound (negsuc a) (negsuc b) h = ground (arith, h)

eq_ℤ_refl : (a : ℤ) → eq_ℤ a a ≡ true
eq_ℤ_refl (pos a) = ground arith
eq_ℤ_refl (negsuc a) = ground arith

calling-no_got : {n : ℕ} → calling ≡ got n → ⊥
calling-no_got h = cc

moves-same : (c : ℕ) (p : Pc) (pc : ℕ → Pc) → moves c p pc c ≡ p
moves-same c p pc = ground arith

got_inj : {n m : ℕ} → got n ≡ got m → n ≡ m
got_inj h = cc

-- A call that moved to `p`, and the others where they were.
moves-got :
    (c d : ℕ) (p : Pc) (pc : ℕ → Pc) {n : ℕ}
    → moves c p pc d ≡ got n
    → ((d ≡ c) × (p ≡ got n)) ⊎ (pc d ≡ got n)
moves-got c d p pc h = elim (Bool-cases (d == c)) [
  | inl e ↦ inl (ground (arith, e), rw e at h)
  | inr e ↦ inr (rw e at h)
]

find_client-insert :
    (a b : ℤ) (n m : ℕ) (m' : List (ℤ × ℕ))
    → find_client b m' ≡ none
    → find_client a m' ≡ some m
    → find_client a ((b, n) ∷ m') ≡ some m
unfolding find_client
find_client-insert a b n m m' h k = elim (Bool-cases (eq_ℤ a b)) [
  | inl e ↦ absurd (some-ne-none (sym k ∙ ap (λ x. find_client x m') (eq_ℤ_sound a b e) ∙ h))
  | inr e ↦ rw e k
]

module _ (getenv : Env) (chain : ℕ → ℤ) where
  Holds : List (ℤ × ℕ) → (ℕ → Pc) → Type 0
  Holds cs pc = (d n : ℕ) → pc d ≡ got n → find_client (chain d) cs ≡ some n

  Holds-moves :
      (cs : List (ℤ × ℕ)) (pc : ℕ → Pc) (c : ℕ) (p : Pc)
      → Holds cs pc
      → ((n : ℕ) → p ≡ got n → find_client (chain c) cs ≡ some n)
      → Holds cs (moves c p pc)
  unfolding Holds
  Holds-moves cs pc c p k own d n h = elim (moves-got c d p pc h) [
    | inl (same, g) ↦ ap (λ x. find_client (chain x) cs) same ∙ own n g
    | inr g ↦ k d n g
  ]

  Holds-insert :
      (cs : List (ℤ × ℕ)) (pc : ℕ → Pc) (c : ℕ) (n : ℕ)
      → find_client (chain c) cs ≡ none
      → Holds cs pc
      → Holds ((chain c, n) ∷ cs) pc
  unfolding Holds
  Holds-insert cs pc c n h k d m g = find_client-insert (chain d) (chain c) n m cs h (k d m g)

  find_client-own :
      (c : ℤ) (n m : ℕ) (cs : List (ℤ × ℕ)) → n ≡ m → find_client c ((c, n) ∷ cs) ≡ some m
  unfolding find_client
  find_client-own c n m cs e = rw (eq_ℤ_refl c) (ap some e)

  no_got : {p : Pc} {A : Type 0} → (p ≡ missed) ⊎ (p ≡ failed) → (n : ℕ) → p ≡ got n → A
  no_got (inl e) n h = cc
  no_got (inr e) n h = cc

  dialed-no_got : {A : Type 0} (m n : ℕ) → dialed m ≡ got n → A
  dialed-no_got m n h = cc

  Step-Holds :
      {s t : Provider} → Step getenv chain s t → Holds s.clients s.pc → Holds t.clients t.pc
  Step-Holds {s} (hit c n p f e) k =
      rw e (Holds-moves s.clients s.pc c (got n) k (λ m g. f ∙ ap some (got_inj g)))
  Step-Holds {s} (miss c p f e) k =
      rw e (Holds-moves s.clients s.pc c missed k (λ m g. no_got (inl refl) m g))
  Step-Holds {s} (no_url c x p f e) k =
      rw e (Holds-moves s.clients s.pc c failed k (λ m g. no_got (inr refl) m g))
  Step-Holds {s} (no_dial c p e) k =
      rw e (Holds-moves s.clients s.pc c failed k (λ m g. no_got (inr refl) m g))
  Step-Holds {s} (dial c url p f e) k =
      rw e (Holds-moves s.clients s.pc c (dialed s.dials) k (λ m g. dialed-no_got s.dials m g))
  Step-Holds {s} (reuse c n m p f e) k =
      rw e (Holds-moves s.clients s.pc c (got m) k (λ m' g. f ∙ ap some (got_inj g)))
  Step-Holds {s} (insert c n p f e) k = rw e (
      Holds-moves ((chain c, n) ∷ s.clients) s.pc c (got n) (Holds-insert s.clients s.pc c n f k)
        (λ m g. find_client-own (chain c) n m s.clients (got_inj g)))

  Calls-Holds : {s : Provider} → Calls getenv chain s → Holds s.clients s.pc
  unfolding Holds
  Calls-Holds Calls.made d n h = absurd (calling-no_got h)
  Calls-Holds (Calls.step r st) d n h = Step-Holds st (Calls-Holds r) d n h

  -- While the provider is not closed, all calls for a chain that have a client have the same one, and it
  -- is the one in the map: also calls that dialled at the same time.
  pub Calls-share :
      {s : Provider} {c d n m : ℕ}
      → Calls getenv chain s
      → chain c ≡ chain d
      → s.pc c ≡ got n
      → s.pc d ≡ got m
      → (n ≡ m) × (find_client (chain c) s.clients ≡ some n)
  unfolding Holds
  Calls-share {s} {c} {d} {n} {m} r e p q =
      let a = Calls-Holds r c n p in
      (some_inj (sym a ∙ ap (λ x. find_client x s.clients) e ∙ Calls-Holds r d m q), a)
