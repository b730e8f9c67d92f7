-- ===== src/Userop/Refinement.antt =====
-- userop/batcher.go: what a chain's queue promises, without the channel, the dispatcher and the flushes:
-- a bag of the operations that wait and a bag of those that were answered.
use mathlib.Core.Quot
use mathlib.Core.Quot.{Quot, Quot-set}
use bundler_go.Base.{
  ℕ, ◌+◌, ◌≡◌, refl, sym, ap, ◌++◌, List, [], ◌∷◌, ◌⊎◌, inl, inr, subst, All, arith,
}
use bundler_go.Userop.Dispatch.{Queue, Step, take_first, drain, pick, start_flush, end_flush, Reach}
use bundler_go.Userop.Conservation.{
  count, count-append, hand, count_all, count_all-append, BatchSize, Bounded, Reach-Bounded,
  All-split,
}

abbrev SameItems : List ℕ → List ℕ → Type 0
SameItems xs ys = (x : ℕ) → count x xs ≡ count x ys

abbrev pub Bag : Type 0
Bag = Quot SameItems

abbrev pub bag : List ℕ → Bag
bag xs = Quot.mk xs

-- The items of a list, put into a bag.
unfoldable pub put_all : List ℕ → Bag → Bag
put_all xs =
    Quot.lift Quot-set (λ ys. bag (xs ++ ys))
      (λ ys zs h. Quot.sound (λ x. omega (arith, count-append x xs ys, count-append x xs zs, h x)))

-- The operations that wait for an answer, and those that have one.
pub record Book : Type 0 where
  pub waiting : Bag
  pub done : Bag

-- An operation comes.
abbrev pub Comes : ℕ → Book → Book → Type 0
Comes q s t = t ≡ record { waiting = put_all (q ∷ []) s.waiting; done = s.done }

-- From 1 to 50 operations that waited are answered together, each once.
abbrev pub Answers : Book → Book → Type 0
Answers s t =
    (batch : List ℕ) × (rest : Bag) × BatchSize batch
    × (s.waiting ≡ put_all batch rest)
    × (t ≡ record { waiting = rest; done = put_all batch s.done })

abbrev pub flat : List (List ℕ) → List ℕ
flat [] = []
flat (b ∷ bs) = b ++ flat bs

-- The book of a queue.
unfoldable pub book : Queue → Book
book s = record {
  waiting = bag (s.channel ++ (hand s.phase ++ flat s.running));
  done = bag s.answered;
}

-- What happens to a queue: `Enqueue` sends an operation, or the dispatcher or a flush takes a step.
pub data Move (pool_size : ℕ) (s t : Queue) : Type 0 where
  accepts :
      (q : ℕ)
      → t ≡ record s { accepted = q ∷ s.accepted; channel = s.channel ++ (q ∷ []) }
      → Move pool_size s t
  steps : Step pool_size s t → Move pool_size s t

-- What happens to its book.
abbrev pub BookMove : Book → Book → Type 0
BookMove s t = (t ≡ s) ⊎ (((q : ℕ) × Comes q s t) ⊎ Answers s t)

count-flat : (x : ℕ) (bs : List (List ℕ)) → count x (flat bs) ≡ count_all x bs
count-flat x [] = refl
count-flat x (b ∷ bs) = omega (arith, count-append x b (flat bs), count-flat x bs)

count-waiting :
    (x : ℕ) (c h : List ℕ) (bs : List (List ℕ))
    → count x (c ++ (h ++ flat bs)) ≡ count x c + (count x h + count_all x bs)
count-waiting x c h bs =
    omega (arith, count-append x c (h ++ flat bs), count-append x h (flat bs), count-flat x bs)

book-ext :
    (w : Bag) (v : Bag) (d e : Bag)
    → w ≡ v
    → d ≡ e
    → ◌≡◌ {A = Book} (record { waiting = w; done = d }) (record { waiting = v; done = e })
book-ext w v d e h k = cc

same_bag : {xs ys : List ℕ} → SameItems xs ys → bag xs ≡ bag ys
same_bag h = Quot.sound h

comes :
    (s : Queue) (q : ℕ)
    → Comes q
        (book s)
        (book (record s { accepted = q ∷ s.accepted; channel = s.channel ++ (q ∷ []) }))
unfolding book put_all
comes s q =
    book-ext _ _ _ _
      (same_bag (λ x. ground (
        arith,
        count-append x s.channel (q ∷ []),
        count-waiting x (s.channel ++ (q ∷ [])) (hand s.phase) s.running,
        count-waiting x s.channel (hand s.phase) s.running,
      )))
      refl

module _ (pool_size : ℕ) where
  kept :
      (s t : Queue)
      → ((x : ℕ)
          → count x t.channel + (count x (hand t.phase) + count_all x t.running)
            ≡ count x s.channel + (count x (hand s.phase) + count_all x s.running))
      → t.answered ≡ s.answered
      → book t ≡ book s
  unfolding book
  kept s t h e =
      book-ext _ _ _ _
        (same_bag (λ x. omega (
          arith,
          h x,
          count-waiting x t.channel (hand t.phase) t.running,
          count-waiting x s.channel (hand s.phase) s.running,
        )))
        (ap bag e)

  abbrev Simulates : Queue → Queue → Type 0
  Simulates s t = (book t ≡ book s) ⊎ Answers (book s) (book t)

  batch-Answers :
      (s : Queue) (before after : List (List ℕ)) (batch : List ℕ)
      → s.running ≡ before ++ (batch ∷ after)
      → BatchSize batch
      → Answers
          (book s)
          (book (record s { running = before ++ after; answered = batch ++ s.answered }))
  unfolding book put_all
  batch-Answers s before after batch p size = (
    batch,
    bag (s.channel ++ (hand s.phase ++ flat (before ++ after))),
    size,
    same_bag (λ x. omega (
      arith,
      ap (count_all x) p,
      count_all-append x before (batch ∷ after),
      count_all-append x before after,
      count-waiting x s.channel (hand s.phase) s.running,
      count-append x batch (s.channel ++ (hand s.phase ++ flat (before ++ after))),
      count-waiting x s.channel (hand s.phase) (before ++ after),
    )),
    refl,
  )

  simulates : (s t : Queue) → Bounded pool_size s → Step pool_size s t → Simulates s t
  simulates s t b (take_first q rest p c e) = inl (
      kept s t (rw e (λ x. ground (arith, ap (count x) c, ap (λ ph. count x (hand ph)) p)))
        (ap (λ (u : Queue). u.answered) e))
  simulates s t b (drain batch q rest p l c e) = inl (
      kept s t
        (rw e (λ x.
          ground
            (arith, ap (count x) c, ap (λ ph. count x (hand ph)) p, count-append x batch (q ∷ []))))
        (ap (λ (u : Queue). u.answered) e))
  simulates s t b (pick batch p l e) = inl (
      kept s t (rw e (λ x. omega (arith, ap (λ ph. count x (hand ph)) p)))
        (ap (λ (u : Queue). u.answered) e))
  simulates s t b (start_flush batch p l e) = inl (
      kept s t (rw e (λ x. omega (arith, ap (λ ph. count x (hand ph)) p)))
        (ap (λ (u : Queue). u.answered) e))
  simulates s t (h, g, k, a) (end_flush before after batch p e) = inr (
      subst (λ u. Answers (book s) (book u)) (sym e)
        (batch-Answers s before after batch p
          (All-split pool_size before after batch (subst (All BatchSize) p a)).1))

  -- The queue of a chain implements two bags, of the operations that wait and of those that are answered:
  -- whatever happens to a queue that was reached, its two bags stay as they are, or one operation
  -- comes into the first, or from 1 to 50 operations go from the first to the second.
  pub queue-BookMove :
      {s t : Queue} → Reach pool_size s → Move pool_size s t → BookMove (book s) (book t)
  queue-BookMove {s} r (accepts q e) =
      inr (inl (q, subst (λ u. Comes q (book s) (book u)) (sym e) (comes s q)))
  queue-BookMove {s} {t} r (steps st) = elim (simulates s t (Reach-Bounded pool_size r) st) [
    | inl same ↦ inl same
    | inr answers ↦ inr (inr answers)
  ]
