-- ===== src/Userop/Drain.antt =====
-- userop/batcher.go: whether a chain's queue can be stuck, and how the work that is left is measured.
use bundler_go.Base.{
  ℕ, zero, suc, ◌+◌, ◌*◌, ◌≡◌, ◌<◌, ◌≤◌, refl, ap, subst, ◌∙◌, ◌++◌, List, [], ◌∷◌, inl, inr,
  length, length-append, All, ltb, arith, Bool-cases,
}
use bundler_go.Userop.Batcher.{max_batch_size}
use bundler_go.Userop.Dispatch.{
  Queue, Phase, idle, draining, picked, Step, take_first, drain, pick, start_flush, end_flush,
  Reach, Run, stop, and_then,
}
use bundler_go.Userop.Conservation.{
  count, hand, count_all, BatchSize, PhaseSize, Bounded, Conserved, Step-Conserved, Step-Bounded,
  Reach-Conserved, Reach-Bounded,
}

abbrev total : List (List ℕ) → ℕ
total [] = 0
total (b ∷ bs) = length b + total bs

total-append : (bs cs : List (List ℕ)) → total (bs ++ cs) ≡ total bs + total cs
total-append [] cs = omega arith
total-append (b ∷ bs) cs = omega (arith, total-append bs cs)

abbrev weight : Phase → ℕ
weight idle = 0
weight (draining batch) = 2 * length batch + 1
weight (picked batch) = 2 * length batch

-- The work that is left.
abbrev remaining : Queue → ℕ
remaining s = 4 * length s.channel + (weight s.phase + total s.running)

All-middle : (bs cs : List (List ℕ)) (b : List ℕ) → All BatchSize (bs ++ (b ∷ cs)) → 0 < length b
All-middle [] cs b h = h.0.0
All-middle (x ∷ bs) cs b h = All-middle bs cs b h.1

module _ (pool_size : ℕ) where
  Step-remaining :
      {s t : Queue} → Step pool_size s t → Bounded pool_size s → remaining t < remaining s
  Step-remaining {s} (take_first q rest p c e) b = rw e (omega (arith, ap weight p, ap length c))
  Step-remaining {s} (drain batch q rest p l c e) b =
      rw e (omega (arith, ap weight p, ap length c, length-append batch (q ∷ [])))
  Step-remaining {s} (pick batch p l e) b = rw e (omega (arith, ap weight p))
  Step-remaining {s} (start_flush batch p l e) (h, g, k, a) =
      let size = subst PhaseSize p g in rw e (omega (arith, ap weight p, size.0))
  Step-remaining {s} (end_flush before after batch p e) (h, g, k, a) = rw e (
      omega (
        arith,
        ap total p,
        total-append before (batch ∷ after),
        total-append before after,
        All-middle before after batch (subst (All BatchSize) p a),
      ))

  Next : Queue → Type 0
  Next s = (t : Queue) × Step pool_size s t × (t.accepted ≡ s.accepted)

  finish_first : (s : Queue) (b : List ℕ) (bs : List (List ℕ)) → s.running ≡ b ∷ bs → Next s
  unfolding Next
  finish_first s b bs e = (_, end_flush [] bs b e refl, refl)

  -- A state with work left has a step.
  progress :
      (s : Queue) (c : List ℕ) (ph : Phase) (bs : List (List ℕ))
      → 0 < pool_size
      → s.channel ≡ c
      → s.phase ≡ ph
      → s.running ≡ bs
      → 0 < 4 * length c + (weight ph + total bs)
      → Next s
  unfolding Next
  progress s [] idle [] n ec ep er h = absurd (omega (arith, h))
  progress s [] idle (b ∷ bs) n ec ep er h = finish_first s b bs er
  progress s (q ∷ c) idle bs n ec ep er h = (_, take_first q c ep ec refl, refl)
  progress s [] (draining b) bs n ec ep er h = (_, pick b ep (inr ec) refl, refl)
  progress s (q ∷ c) (draining b) bs n ec ep er h =
      elim (Bool-cases (ltb (length b) max_batch_size)) [
        | inl k ↦ (_, drain b q c ep (ground (arith, k)) ec refl, refl)
        | inr k ↦ (_, pick b ep (inl (ground (arith, k))) refl, refl)
      ]
  progress s c (picked b) [] n ec ep er h =
      (_, start_flush b ep (omega (arith, n, ap length er)) refl, refl)
  progress s c (picked b) (x ∷ bs) n ec ep er h = finish_first s x bs er

  -- The state that a run ends in.
  Drained : Queue → Type 0
  Drained s =
      (t : Queue) × Run pool_size s t × (t.accepted ≡ s.accepted) × Conserved t × (remaining t ≡ 0)

  drain_within :
      (k : ℕ) (s : Queue)
      → 0 < pool_size
      → Bounded pool_size s
      → Conserved s
      → remaining s ≤ k
      → Drained s
  unfolding Drained Next
  drain_within zero s n b c h = (s, stop, refl, c, omega (arith, h))
  drain_within (suc k) s n b c h = elim (Bool-cases (ltb 0 (remaining s))) [
    | inr z ↦ (s, stop, refl, c, ground (arith, z))
    | inl z ↦
        let (t, st, e) =
          progress s s.channel s.phase s.running n refl refl refl (ground (arith, z)) in
        let (u, run, e2, cu, zu) =
          drain_within k t n (Step-Bounded pool_size st b) (Step-Conserved pool_size st c)
            (omega (arith, h, Step-remaining st b)) in
        (u, and_then st run, e2 ∙ e, cu, zu)
  ]

  total-zero : (bs : List (List ℕ)) → total bs ≡ 0 → (x : ℕ) → count_all x bs ≡ 0
  total-zero [] h x = refl
  total-zero ([] ∷ bs) h x = omega (arith, total-zero bs (omega (arith, h)) x)
  total-zero ((y ∷ b) ∷ bs) h x = absurd (omega (arith, h))

  length-zero : (xs : List ℕ) → length xs ≡ 0 → (x : ℕ) → count x xs ≡ 0
  length-zero [] h x = refl
  length-zero (y ∷ xs) h x = absurd (omega (arith, h))

  weight-zero : (ph : Phase) → weight ph ≡ 0 → (x : ℕ) → count x (hand ph) ≡ 0
  weight-zero idle h x = refl
  weight-zero (draining b) h x = absurd (omega (arith, h))
  weight-zero (picked b) h x = length-zero b (omega (arith, h)) x

  -- From every state of a queue whose pool is not empty, the dispatcher and the flushes have a run,
  -- with no further operation, that ends with every accepted operation answered, exactly as often as
  -- it was accepted.
  pub Reach-drains :
      (s : Queue)
      → 0 < pool_size
      → Reach pool_size s
      → (t : Queue) × Run pool_size s t × ((x : ℕ) → count x t.answered ≡ count x s.accepted)
  unfolding Drained
  Reach-drains s n r =
      let (t, run, e, c, z) =
        drain_within (remaining s) s n (Reach-Bounded pool_size r) (Reach-Conserved pool_size r)
          (omega arith) in
      (
        t,
        run,
        λ x. omega (
          arith,
          c x,
          ap (count x) e,
          length-zero t.channel (omega (arith, z)) x,
          weight-zero t.phase (omega (arith, z)) x,
          total-zero t.running (omega (arith, z)) x,
        ),
      )

  abbrev pub steps : {s t : Queue} → Run pool_size s t → ℕ
  steps stop = 0
  steps (and_then st run) = suc (steps run)

  Run-remaining :
      {s t : Queue} (run : Run pool_size s t)
      → Bounded pool_size s
      → steps run + remaining t ≤ remaining s
  Run-remaining stop b = omega arith
  Run-remaining (and_then st run) b =
      omega (arith, Step-remaining st b, Run-remaining run (Step-Bounded pool_size st b))

  total-bound : (bs : List (List ℕ)) → All BatchSize bs → total bs ≤ max_batch_size * length bs
  total-bound [] h = omega arith
  total-bound (b ∷ bs) (h, hs) = omega (arith, h.1, total-bound bs hs)

  weight-bound : (ph : Phase) → PhaseSize ph → weight ph ≤ 2 * max_batch_size + 1
  weight-bound idle h = omega arith
  weight-bound (draining b) h = omega (arith, h.1)
  weight-bound (picked b) h = omega (arith, h.1)

  -- The dispatcher and the flushes come to rest: from any state of a queue they take, while no operation
  -- is accepted, at most 501 steps and 50 for each wallet of the pool, in whatever order.
  pub Reach-steps :
      {s t : Queue}
      → Reach pool_size s
      → (run : Run pool_size s t) → steps run ≤ 501 + 50 * pool_size
  Reach-steps {s} r run =
      let b = Reach-Bounded pool_size r in
      let (h, g, k, a) = b in
      omega (arith, Run-remaining run b, h, weight-bound s.phase g, total-bound s.running a, k)
