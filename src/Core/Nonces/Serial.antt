-- ===== src/Core/Nonces/Serial.antt =====
-- core/tx.go: under the lock the nonces of a wallet are used one after the other.
use bundler_go.Base.{
  ℕ, suc, ◌≡◌, ◌≢◌, ◌⊎◌, inl, inr, refl, sym, ap, subst, Bool, true, false, Option, none, some,
  arith,
}
use bundler_go.Core.Nonces.{
  Work, waiting, nonce_read, submitted, refused, returned, System, Step, locking, read_nonce,
  accept, refuse, misplace, go_on, attempt_again, end_body, Reach, Orderly, start, next,
  Consecutive,
}
use bundler_go.Redis.Exclusion
use bundler_go.Redis.Exclusion.{
  Pc, idle, trying, critical, releasing, done, update, Timely, Reach-exclusive, lock_local, set_nx,
  give_up, finish, release, expire, tick,
}

abbrev is_early : Pc → Bool
is_early idle = true
is_early trying = true
is_early (critical e) = false
is_early releasing = false
is_early done = false

module _ (process : ℕ → ℕ) (ttl : ℕ) where
  -- Who has not come to the body had not come to it before.
  lock-early :
      {s t : Exclusion.State}
      → Exclusion.Step process ttl s t
      → (d : ℕ) → is_early (t.pc d) ≡ true
      → is_early (s.pc d) ≡ true
  lock-early (lock_local c p m e) d h = ground arith
  lock-early (set_nx c p m e) d h = ground arith
  lock-early (give_up c p e) d h = ground arith
  lock-early (finish c y p e) d h = ground arith
  lock-early (release c p e) d h = ground arith
  lock-early (expire c y p l e) d h = ground arith
  lock-early (tick e) d h = ground arith

  -- Who runs a body ran it before, or begins it.
  lock-critical :
      {s t : Exclusion.State}
      → Exclusion.Step process ttl s t
      → (d e : ℕ) → t.pc d ≡ critical e
      → (s.pc d ≡ critical e) ⊎ (is_early (s.pc d) ≡ true)
  lock-critical (lock_local c p m k) d e h = ground arith
  lock-critical (set_nx c p m k) d e h = ground arith
  lock-critical (give_up c p k) d e h = ground arith
  lock-critical (finish c y p k) d e h = ground arith
  lock-critical (release c p k) d e h = ground arith
  lock-critical (expire c y p l k) d e h = ground arith
  lock-critical (tick k) d e h = ground arith

-- The nonce at which a body would send next.
abbrev plan : Work → Option ℕ
plan waiting = none
plan (nonce_read n) = some n
plan (submitted n) = some (suc n)
plan (refused n) = none
plan returned = none

-- Who has not come to the body has not begun it, who runs it would send at the node's nonce, and none
-- was turned down.
pub record Current (s : System) : Type 0 where
  pub early : (c : ℕ) → is_early (s.lock.pc c) ≡ true → s.work c ≡ waiting
  pub planned : (c e n : ℕ) → s.lock.pc c ≡ critical e → plan (s.work c) ≡ some n → n ≡ s.pending
  pub never : (c n : ℕ) → s.work c ≢ refused n

-- At most one body runs.
abbrev Alone : System → Type 0
Alone s = (c d e x : ℕ) → s.lock.pc c ≡ critical e → s.lock.pc d ≡ critical x → c ≡ d

module _ (process : ℕ → ℕ) (ttl : ℕ) where
  module _ {s t : System} (k : Current s) where
    Step-early : Step process ttl s t → (d : ℕ) → is_early (t.lock.pc d) ≡ true → t.work d ≡ waiting
    Step-early (locking l st en e) d h = ground (arith, k.early d, lock-early process ttl st d)
    Step-early (read_nonce c r w e) d h = ground (arith, k.early d)
    Step-early (accept c n r w q e) d h = ground (arith, k.early d)
    Step-early (refuse c n r w q e) d h = ground (arith, k.early d)
    Step-early (misplace c n r w q e) d h = ground (arith, k.early d)
    Step-early (go_on c n r w e) d h = ground (arith, k.early d)
    Step-early (attempt_again c n r w e) d h = ground (arith, k.early d)
    Step-early (end_body c r e) d h = ground (arith, k.early d)

    -- The step is none to a second attempt.
    module _ (alone : Alone s) (single : (c : ℕ) → t.second c ≡ false) where
      Step-planned :
          Step process ttl s t
          → (d x m : ℕ) → t.lock.pc d ≡ critical x
          → plan (t.work d) ≡ some m
          → m ≡ t.pending
      Step-planned (locking l st en e) d x m h p =
          ground (arith, k.early d, k.planned d x m, lock-critical process ttl st d x)
      Step-planned (read_nonce c r w e) d x m h p = ground (arith, k.planned d x m)
      Step-planned (accept c n r w q e) d x m h p =
          ground (arith, k.planned d x m, alone c d r.0 x r.1)
      Step-planned (refuse c n r w q e) d x m h p = ground (arith, k.planned d x m)
      Step-planned (misplace c n r w q e) d x m h p =
          ground (arith, k.planned d x m, k.planned c r.0 n r.1)
      Step-planned (go_on c n r w e) d x m h p =
          ground (arith, k.planned d x m, k.planned c r.0 (suc n) r.1)
      Step-planned (attempt_again c n r w e) d x m h p = ground (arith, single c)
      Step-planned (end_body c r e) d x m h p = ground (arith, k.planned d x m)

    Step-never : Step process ttl s t → (d m : ℕ) → t.work d ≢ refused m
    Step-never (locking l st en e) d m h = ground (arith, k.never d m)
    Step-never (read_nonce c r w e) d m h = ground (arith, k.never d m)
    Step-never (accept c n r w q e) d m h = ground (arith, k.never d m)
    Step-never (refuse c n r w q e) d m h = q (k.planned c r.0 n r.1 (ground arith))
    Step-never (misplace c n r w q e) d m h = ground (arith, k.never d m)
    Step-never (go_on c n r w e) d m h = ground (arith, k.never d m)
    Step-never (attempt_again c n r w e) d m h = ground (arith, k.never d m)
    Step-never (end_body c r e) d m h = ground (arith, k.never d m)

    Step-Consecutive :
        (first : ℕ)
        → Step process ttl s t
        → Consecutive first s.pending s.taken
        → Consecutive first t.pending t.taken
    Step-Consecutive first (locking l st en e) h = rw e h
    Step-Consecutive first (read_nonce c r w e) h = rw e h
    Step-Consecutive first (accept c n r w q e) h = rw e (ap suc (sym q), rw q h)
    Step-Consecutive first (refuse c n r w q e) h = rw e h
    Step-Consecutive first (misplace c n r w q e) h =
        absurd (q (k.planned c r.0 n r.1 (ground arith)))
    Step-Consecutive first (go_on c n r w e) h = rw e h
    Step-Consecutive first (attempt_again c n r w e) h = rw e h
    Step-Consecutive first (end_body c r e) h = rw e h

  Step-lock :
      {s t : System}
      → Step process ttl s t
      → (Exclusion.Step process ttl s.lock t.lock) ⊎ (t.lock ≡ s.lock)
  Step-lock {s} (locking l st en e) =
      inl (subst (λ (u : System). Exclusion.Step process ttl s.lock u.lock) (sym e) st)
  Step-lock (read_nonce c r w e) = inr (ground arith)
  Step-lock (accept c n r w q e) = inr (ground arith)
  Step-lock (refuse c n r w q e) = inr (ground arith)
  Step-lock (misplace c n r w q e) = inr (ground arith)
  Step-lock (go_on c n r w e) = inr (ground arith)
  Step-lock (attempt_again c n r w e) = inr (ground arith)
  Step-lock (end_body c r e) = inr (ground arith)

  -- What happens to the lock is a run of the lock.
  Reach-lock :
      {first : ℕ} {s : System}
      → Reach process ttl Orderly first s
      → Exclusion.Reach process ttl Timely Exclusion.initial s.lock
  Reach-lock (start e p) =
      subst (Exclusion.Reach process ttl Timely Exclusion.initial)
        (ap (λ (u : System). u.lock) (sym e))
        (Exclusion.start (subst Timely (ap (λ (u : System). u.lock) e) p.0))
  Reach-lock (next r st p) = elim (Step-lock st) [
    | inl l ↦ Exclusion.next (Reach-lock r) l p.0
    | inr e ↦ subst (Exclusion.Reach process ttl Timely Exclusion.initial) (sym e) (Reach-lock r)
  ]

  Reach-Alone : {first : ℕ} {s : System} → Reach process ttl Orderly first s → Alone s
  Reach-Alone r c d e x p q = Reach-exclusive process ttl c d e x (Reach-lock r) p q

  Reach-Current : {first : ℕ} {s : System} → Reach process ttl Orderly first s → Current s
  Reach-Current (start e p) = record {
    early = λ c h. ground arith;
    planned = λ c x n h k. ground arith;
    never = λ c n h. ground arith;
  }
  Reach-Current (next r st p) =
      let k = Reach-Current r in
      record {
        early = Step-early k st;
        planned = Step-planned k (Reach-Alone r) p.1 st;
        never = Step-never k st;
      }

  Reach-Consecutive :
      {first : ℕ} {s : System}
      → Reach process ttl Orderly first s
      → Consecutive first s.pending s.taken
  Reach-Consecutive (start e p) = rw e refl
  Reach-Consecutive {first} (next r st p) =
      Step-Consecutive (Reach-Current r) first st (Reach-Consecutive r)

  -- While no body runs past its key's time, and no payment attempts a second time after a failure, the
  -- transactions of a wallet that the node took have the nonces from the first on, each once and in the
  -- order in which they were sent, and none was turned down for its nonce, in whatever processes the
  -- calls are and in whatever order their steps come.
  pub Reach-Serial :
      (first : ℕ) {s : System}
      → Reach process ttl Orderly first s
      → Consecutive first s.pending s.taken × ((c n : ℕ) → s.work c ≢ refused n)
  Reach-Serial first r = (Reach-Consecutive r, (Reach-Current r).never)
