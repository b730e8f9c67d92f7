-- ===== src/Ethclient/Accounts.antt =====
-- ethclient.go: no client that was dialled is lost.
use bundler_go.Base.{
  ℕ, ℤ, suc, ◌<◌, ◌≡◌, ◌≢◌, ◌⊎◌, inl, inr, sym, ap, subst, ◌∙◌, List, [], ◌∷◌, ◌++◌, true, ◌==◌,
  eq_ℤ, Elem, here, there, map, arith, ==_refl, Bool-cases, pos, negsuc,
}
use bundler_go.Chain.{Env}
use bundler_go.Ethclient.{
  Pc, calling, missed, dialed, got, failed, Provider, moves, client_of, Step, hit, miss, no_url,
  no_dial, dial, reuse, insert, Life,
}

eq_ℤ_sound : (a b : ℤ) → eq_ℤ a b ≡ true → a ≡ b
eq_ℤ_sound (pos a) (pos b) h = ground (arith, h)
eq_ℤ_sound (pos a) (negsuc b) h = ground (arith, h)
eq_ℤ_sound (negsuc a) (pos b) h = ground (arith, h)
eq_ℤ_sound (negsuc a) (negsuc b) h = ground (arith, h)

-- Where a client is: in the map, with the call that has dialled it, or closed.
abbrev pub Accounted : Provider → ℕ → Type 0
Accounted s n =
    Elem n (map client_of s.clients) ⊎ (((c : ℕ) × (s.pc c ≡ dialed n)) ⊎ Elem n s.closed)

Elem-left : {n : ℕ} {xs : List ℕ} (ys : List ℕ) → Elem n xs → Elem n (xs ++ ys)
Elem-left ys here = here
Elem-left ys (there h) = there (Elem-left ys h)

Elem-right : {n : ℕ} (xs : List ℕ) {ys : List ℕ} → Elem n ys → Elem n (xs ++ ys)
Elem-right [] h = h
Elem-right (x ∷ xs) h = there (Elem-right xs h)

dialed_inj : {n m : ℕ} → dialed n ≡ dialed m → n ≡ m
dialed_inj h = cc

-- A call that holds a client still holds it after another call has moved.
still :
    (c d : ℕ) (p : Pc) (pc : ℕ → Pc) {n : ℕ}
    → pc d ≡ dialed n
    → (moves c p pc d ≡ dialed n) ⊎ (pc c ≡ dialed n)
still c d p pc {n} h = elim (Bool-cases (d == c)) [
  | inl e ↦ inr (subst (λ x. pc x ≡ dialed n) (ground (arith, e)) h)
  | inr e ↦ inl (rw e h)
]

held : (c k m : ℕ) (pc : ℕ → Pc) → (m == k) ≡ true → moves c (dialed k) pc c ≡ dialed m
held c k m pc h = rw (==_refl c) (ap dialed (ground (arith, h)))

module _ (getenv : Env) (chain : ℕ → ℤ) where
  -- The client that a call had in its hand must be found elsewhere when it moves.
  Accounted-moves :
      (s : Provider) (cs : List (ℤ × ℕ)) (closed : List ℕ) (k c : ℕ) (p : Pc) (n : ℕ)
      → (Elem n (map client_of s.clients) → Elem n (map client_of cs))
      → (Elem n s.closed → Elem n closed)
      → (s.pc c ≡ dialed n → Elem n (map client_of cs) ⊎ Elem n closed)
      → Accounted s n
      → Accounted (record { clients = cs; closed = closed; dials = k; pc = moves c p s.pc }) n
  Accounted-moves s cs closed k c p n f g own (inl h) = inl (f h)
  Accounted-moves s cs closed k c p n f g own (inr (inr h)) = inr (inr (g h))
  Accounted-moves s cs closed k c p n f g own (inr (inl (d, h))) = elim (still c d p s.pc h) [
    | inl j ↦ inr (inl (d, j))
    | inr j ↦ elim (own j) [ inl x ↦ inl x | inr x ↦ inr (inr x) ]
  ]

  AllAccounted : Provider → Type 0
  AllAccounted s = (n : ℕ) → n < s.dials → Accounted s n

  -- A call that holds no client moves.
  Accounted-free :
      (s : Provider) (k c : ℕ) (p q : Pc) (n : ℕ)
      → s.pc c ≡ q
      → ((m : ℕ) → q ≢ dialed m)
      → Accounted s n
      → Accounted
          (record { clients = s.clients; closed = s.closed; dials = k; pc = moves c p s.pc })
          n
  Accounted-free s k c p q n e free h =
      Accounted-moves s s.clients s.closed k c p n (λ x. x) (λ x. x)
        (λ d. absurd (free n (sym e ∙ d))) h

  calling-free : (m : ℕ) → calling ≢ dialed m
  calling-free m h = cc

  missed-free : (m : ℕ) → missed ≢ dialed m
  missed-free m h = cc

  Step-AllAccounted : {s t : Provider} → Step getenv chain s t → AllAccounted s → AllAccounted t
  unfolding AllAccounted
  Step-AllAccounted {s} (hit c n p f e) k =
      rw e (λ m l. Accounted-free s s.dials c (got n) calling m p calling-free (k m l))
  Step-AllAccounted {s} (miss c p f e) k =
      rw e (λ m l. Accounted-free s s.dials c missed calling m p calling-free (k m l))
  Step-AllAccounted {s} (no_url c x p f e) k =
      rw e (λ m l. Accounted-free s s.dials c failed missed m p missed-free (k m l))
  Step-AllAccounted {s} (no_dial c p e) k =
      rw e (λ m l. Accounted-free s s.dials c failed missed m p missed-free (k m l))
  Step-AllAccounted {s} (dial c url p f e) k = rw e (λ m l. elim (Bool-cases (m == s.dials)) [
    | inl same ↦ inr (inl (c, held c s.dials m s.pc same))
    | inr distinct ↦
        Accounted-free s (suc s.dials) c (dialed s.dials) missed m p missed-free
          (k m (ground (arith, l, distinct)))
  ])
  Step-AllAccounted {s} (reuse c n m p f e) k = rw e (λ j l.
      Accounted-moves s s.clients (n ∷ s.closed) s.dials c (got m) j (λ x. x) there
        (λ h. inr (subst (λ x. Elem x (n ∷ s.closed)) (dialed_inj (sym p ∙ h)) here)) (k j l))
  Step-AllAccounted {s} (insert c n p f e) k = rw e (λ j l.
      Accounted-moves s ((chain c, n) ∷ s.clients) s.closed s.dials c (got n) j there (λ x. x)
        (λ h. inl (subst (λ x. Elem x (n ∷ map client_of s.clients)) (dialed_inj (sym p ∙ h)) here))
        (k j l))

  -- No connection is lost: in every state of a provider, with calls of `Close` at any time, each client
  -- that was dialled is in the map, in the hand of the call that has dialled it, or closed.
  pub Life-Accounted : {s : Provider} (n : ℕ) → Life getenv chain s → n < s.dials → Accounted s n
  unfolding AllAccounted
  Life-Accounted n Life.made l = absurd (omega (arith, l))
  Life-Accounted n (Life.step r st) l = Step-AllAccounted st (λ m k. Life-Accounted m r k) n l
  Life-Accounted n (Life.close {s} r) l = elim (Life-Accounted n r l) [
    | inl h ↦ inr (inr (Elem-left s.closed h))
    | inr (inl (c, h)) ↦ inr (inl (c, h))
    | inr (inr h) ↦ inr (inr (Elem-right (map client_of s.clients) h))
  ]
