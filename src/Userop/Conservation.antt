-- ===== src/Userop/Conservation.antt =====
-- userop/batcher.go: the bounds of a chain's queue, and where its operations are.
use bundler_go.Base.{
  ℕ, suc, ◌+◌, ◌≡◌, ◌<◌, ◌≤◌, refl, sym, ap, subst, ◌++◌, List, [], ◌∷◌, length, length-append, All,
  ◌==◌, if◌then◌else◌, arith,
}
use bundler_go.Userop.Batcher.{max_batch_size}
use bundler_go.Userop.Dispatch.{
  Queue, Phase, idle, draining, picked, Step, take_first, drain, pick, start_flush, end_flush,
  Reach, made, accept, step, channel_capacity,
}

-- How often an operation stands in a list.
abbrev pub count : ℕ → List ℕ → ℕ
count x [] = 0
count x (y ∷ ys) = if x == y then suc (count x ys) else count x ys

pub count-append : (x : ℕ) (xs ys : List ℕ) → count x (xs ++ ys) ≡ count x xs + count x ys
count-append x [] ys = omega arith
count-append x (y ∷ xs) ys = ground (arith, count-append x xs ys)

-- The batch in the dispatcher's hand.
abbrev pub hand : Phase → List ℕ
hand idle = []
hand (draining batch) = batch
hand (picked batch) = batch

abbrev pub count_all : ℕ → List (List ℕ) → ℕ
count_all x [] = 0
count_all x (b ∷ bs) = count x b + count_all x bs

pub count_all-append :
    (x : ℕ) (bs : List (List ℕ)) (cs : List (List ℕ))
    → count_all x (bs ++ cs) ≡ count_all x bs + count_all x cs
count_all-append x [] cs = omega arith
count_all-append x (b ∷ bs) cs = omega (arith, count_all-append x bs cs)

-- A batch is not empty and not above the limit.
abbrev pub BatchSize : List ℕ → Type 0
BatchSize batch = (0 < length batch) × (length batch ≤ max_batch_size)

abbrev pub PhaseSize : Phase → Type 0
PhaseSize idle = Unit
PhaseSize (draining batch) = BatchSize batch
PhaseSize (picked batch) = BatchSize batch

-- The channel, the batches and the flushes keep their bounds.
abbrev pub Bounded : ℕ → Queue → Type 0
Bounded pool_size s =
    (length s.channel ≤ channel_capacity)
    × PhaseSize s.phase
    × (length s.running ≤ pool_size)
    × All BatchSize s.running

-- Every operation that was accepted is in one place, as often as it was accepted.
abbrev pub Conserved : Queue → Type 0
Conserved s =
    (x : ℕ)
    → count x s.accepted
      ≡ count x s.channel + (count x (hand s.phase) + (count_all x s.running + count x s.answered))

module _ (pool_size : ℕ) where
  pub Step-Conserved : {s t : Queue} → Step pool_size s t → Conserved s → Conserved t
  Step-Conserved {s} (take_first q rest p c e) k =
      subst Conserved (sym e)
        (λ x. ground (arith, k x, ap (count x) c, ap (λ ph. count x (hand ph)) p))
  Step-Conserved {s} (drain batch q rest p l c e) k = subst Conserved (sym e) (λ x.
      ground
        (arith, k x, ap (count x) c, ap (λ ph. count x (hand ph)) p, count-append x batch (q ∷ [])))
  Step-Conserved {s} (pick batch p l e) k =
      subst Conserved (sym e) (λ x. omega (arith, k x, ap (λ ph. count x (hand ph)) p))
  Step-Conserved {s} (start_flush batch p l e) k =
      subst Conserved (sym e) (λ x. omega (arith, k x, ap (λ ph. count x (hand ph)) p))
  Step-Conserved {s} (end_flush before after batch p e) k = subst Conserved (sym e) (λ x. omega (
    arith,
    k x,
    ap (count_all x) p,
    count_all-append x before (batch ∷ after),
    count_all-append x before after,
    count-append x batch s.answered,
  ))

  -- In every state of a queue, an operation stands in the channel, in the dispatcher's batch, in the
  -- flushes and among the answers as often, together, as it was accepted: none is lost, and none is
  -- answered twice.
  pub Reach-Conserved : {s : Queue} → Reach pool_size s → Conserved s
  Reach-Conserved made = λ x. refl
  Reach-Conserved (accept {s} q r l) =
      λ x. ground (arith, Reach-Conserved r x, count-append x s.channel (q ∷ []))
  Reach-Conserved (step r e) = Step-Conserved e (Reach-Conserved r)

  pub All-split :
      (bs cs : List (List ℕ)) (b : List ℕ)
      → All BatchSize (bs ++ (b ∷ cs))
      → All BatchSize (bs ++ cs) × BatchSize b
  All-split [] cs b h = (h.1, h.0)
  All-split (x ∷ bs) cs b h = let (g, k) = All-split bs cs b h.1 in ((h.0, g), k)

  pub Step-Bounded : {s t : Queue} → Step pool_size s t → Bounded pool_size s → Bounded pool_size t
  Step-Bounded {s} (take_first q rest p c e) (h, g, l, a) =
      subst (Bounded pool_size) (sym e)
        (omega (arith, h, ap length c), (omega arith, omega arith), l, a)
  Step-Bounded {s} (drain batch q rest p b c e) (h, g, l, a) = subst (Bounded pool_size) (sym e) (
    omega (arith, h, ap length c),
    (omega (arith, length-append batch (q ∷ [])), omega (arith, b, length-append batch (q ∷ []))),
    l,
    a,
  )
  Step-Bounded {s} (pick batch p b e) (h, g, l, a) =
      subst (Bounded pool_size) (sym e) (h, subst PhaseSize p g, l, a)
  Step-Bounded {s} (start_flush batch p b e) (h, g, l, a) =
      subst (Bounded pool_size) (sym e) (h, tt, b, (subst PhaseSize p g, a))
  Step-Bounded {s} (end_flush before after batch p e) (h, g, l, a) =
      subst (Bounded pool_size) (sym e) (
        h,
        g,
        omega (
          arith,
          l,
          ap length p,
          length-append before (batch ∷ after),
          length-append before after,
        ),
        (All-split before after batch (subst (All BatchSize) p a)).0,
      )

  -- In every state of a queue, the channel holds 100 operations at most, the dispatcher's batch and
  -- every flushed batch holds from 1 to 50, and no more flushes run than the pool has wallets.
  pub Reach-Bounded : {s : Queue} → Reach pool_size s → Bounded pool_size s
  Reach-Bounded made = (omega arith, tt, omega arith, tt)
  Reach-Bounded (accept {s} q r l) =
      let (h, g, k, a) = Reach-Bounded r in
      (omega (arith, l, length-append s.channel (q ∷ [])), g, k, a)
  Reach-Bounded (step r e) = Step-Bounded e (Reach-Bounded r)
