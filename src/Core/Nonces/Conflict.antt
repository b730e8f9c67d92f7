-- ===== src/Core/Nonces/Conflict.antt =====
-- core/tx.go: what happens to the nonces of a wallet where a body outlasts its key.
use bundler_go.Base.{false, ℕ, zero, suc, ◌+◌, ◌≡◌, ◌≢◌, refl, ap, subst, [], none, some, arith}
use bundler_go.Core.Nonces.{
  waiting, nonce_read, refused, System, locking, read_nonce, accept, refuse, submitted, take, Reach,
  Unrestricted, start, next,
}
use bundler_go.Redis.Exclusion.{idle, trying, critical, update, lock_local, set_nx, expire, tick}

module _ (process : ℕ → ℕ) (ttl first : ℕ) where
  abbrev Reached : System → Type 0
  Reached = Reach process ttl Unrestricted first

  waited :
      (k : ℕ) (s : System)
      → Reached s
      → Reached (record s { lock = record s.lock { now = k + s.lock.now } })
  waited zero s r =
      subst (λ n. Reached (record s { lock = record s.lock { now = n } })) (omega arith) r
  waited (suc k) s r =
      next (waited k s r) (locking _ (tick (ground arith)) (λ c p q. absurd (q p)) refl) tt

  module _ (c d : ℕ) where
    -- `c` has read the nonce, and waited until its key's time was over.
    abbrev slow : System
    slow = record {
      lock = record {
        now = ttl + 0;
        store = some (c, 0 + ttl);
        mutex = update (λ p. none) (process c) (some c);
        pc = update (update (λ c. idle) c trying) c (critical (0 + ttl));
      };
      work = update (λ c. waiting) c (nonce_read first);
      second = λ c. false;
      pending = first;
      taken = [];
    }

    Reach-slow : Reached slow
    Reach-slow =
        waited ttl (record slow { lock = record slow.lock { now = 0 } })
          (next
            (next
              (next (start refl tt)
                (locking _ (lock_local c refl refl refl) (λ x p q. ground (arith, p)) refl) tt)
              (locking _ (set_nx c (ground arith) refl refl) (λ x p q. ground (arith, p)) refl) tt)
            (read_nonce c (0 + ttl, ground arith) refl refl) tt)

    -- `d` has read the same nonce in the meantime, and the node took its transaction.
    abbrev raced : System
    raced = record {
      lock = record {
        now = ttl + 0;
        store = some (d, (ttl + 0) + ttl);
        mutex = update slow.lock.mutex (process d) (some d);
        pc = update (update slow.lock.pc d trying) d (critical ((ttl + 0) + ttl));
      };
      work = update (update slow.work d (nonce_read first)) d (submitted first);
      second = λ c. false;
      pending = suc first;
      taken = take d first [];
    }

    module _ (apart : process c ≢ process d) where
      differ : c ≢ d
      differ e = apart (ap process e)

      Reach-raced : Reached raced
      Reach-raced =
          next
            (next
              (next
                (next
                  (next Reach-slow
                    (locking _ (expire c (0 + ttl) refl (omega arith) refl) (λ x p q. absurd (q p))
                      refl)
                    tt)
                  (locking _ (lock_local d (ground (arith, differ)) (ground (arith, apart)) refl)
                    (λ x p q. ground (arith, p, q)) refl)
                  tt)
                (locking _ (set_nx d (ground (arith, differ)) refl refl)
                  (λ x p q. ground (arith, p, q)) refl)
                tt)
              (read_nonce d ((ttl + 0) + ttl, ground (arith, differ)) (ground (arith, differ)) refl)
              tt)
            (accept d first ((ttl + 0) + ttl, ground (arith, differ)) (ground (arith, differ)) refl
              refl)
            tt

      -- Where a body may outlast its key, nonces collide: for any time to live, a call can read the
      -- nonce that the transaction of another process's call then takes, and its own is turned down.
      pub Reach-conflict :
          (s : System) × Reach process ttl Unrestricted first s
          × (s.work c ≡ refused first)
          × (s.taken ≡ take d first [])
      Reach-conflict = (
        record raced { work = update raced.work c (refused first) },
        next Reach-raced
            (refuse c first (0 + ttl, ground (arith, differ)) (ground (arith, differ)) (omega arith)
              refl)
            tt,
        ground arith,
        refl,
      )
