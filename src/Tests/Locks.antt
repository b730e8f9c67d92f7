-- ===== src/Tests/Locks.antt =====
-- redis.go and core/tx.go at the server that grants every lock, and at one that grants none.
use bundler_go.Base.{ℕ, pos, ◌+◌, ◌≡◌, refl, [], ◌∷◌, codes, some, Result, err, new_error, arith}
use bundler_go.Core.LockKey.{nonce_lock_key-inj}
use bundler_go.Redis.Cursor.{cursor}
use bundler_go.Redis.RoundRobin.{indices, count, next_index_local-round_robin}
use bundler_go.Redis.Exclusion.{
  critical, trying, update, State, lock_local, set_nx, Reach, start, next, initial, Timely,
  Reach-exclusive,
}

abbrev body : ℕ → Result ℕ × ℕ
body w = (err (new_error (codes "reverted")), w + 10)

nonce_lock_key-inj_example : (pos 1 ≡ pos 1) × (codes "0xab" ≡ codes "0xab")
nonce_lock_key-inj_example = nonce_lock_key-inj (pos 1) (pos 1) (codes "0xab") (codes "0xab") refl

next_index_local-round_robin_example : count 1 (indices 3 (codes "1") 3 ((codes "1", 5) ∷ [])) ≡ 1
unfolding cursor
next_index_local-round_robin_example =
    next_index_local-round_robin (codes "1") 3 1 ((codes "1", 5) ∷ []) (omega arith) (omega arith)

-- Call 0 takes the mutex of its process, then the redis lock for 30 ticks.
abbrev taken : State
taken = record initial { mutex = update initial.mutex 0 (some 0); pc = update initial.pc 0 trying }

abbrev working : State
working = record taken { store = some (0, 30); pc = update taken.pc 0 (critical 30) }

Reach-working :
    (P : State → Type 0) → P initial → P taken → P working → Reach (λ c. c) 30 P initial working
Reach-working P p q r =
    next (next (start p) (lock_local 0 refl refl refl) q) (set_nx 0 refl refl refl) r

taken-Timely : Timely taken
taken-Timely c e k = ground (arith, k)

working-Timely : Timely working
working-Timely c e k = ground (arith, k)

-- The caller in the body.
abbrev caller : ℕ
caller = 0

Reach-exclusive_example : caller ≡ 0
Reach-exclusive_example =
    Reach-exclusive (λ c. c) 30 {t = working} 0 0 30 30
      (Reach-working Timely (λ c e k. ground (arith, k)) taken-Timely working-Timely) refl refl
