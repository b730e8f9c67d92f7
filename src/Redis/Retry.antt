-- ===== src/Redis/Retry.antt =====
-- redis.go: the redis lock around a body, for one call.
use bundler_go.Base.{
  ℕ, zero, suc, ◌≡◌, refl, ap, ◌++◌, ◌⊎◌, inl, inr, Text, codes, false, none, Result, ok, err,
  GoError, new_error, M,
}
use bundler_go.Redis.Lock.{Rdb, acquire, take_lock, under_lock, with_redis_lock}

module _ {W : Type 0} (rdb : Rdb W) where
  -- A call under the redis lock either fails without running its body, whatever the body is, or runs
  -- it once in the world in which the token holds the lock, and then releases that token, also where
  -- the body returned an error.
  with_redis_lock-cases :
      {A : Type 0} (body : M W A) (key : Text) (w : W)
      → ((e : GoError) × (w1 : W) × (take_lock rdb key w ≡ (err e, w1))
          × (with_redis_lock rdb key body w ≡ (err e, w1)))
        ⊎ ((token : Text) × (w1 : W) × (take_lock rdb key w ≡ (ok token, w1))
            × (with_redis_lock rdb key body w
                ≡ ((body w1).0, rdb.release (codes "lock:" ++ key) token (body w1).1)))
  unfolding with_redis_lock
  with_redis_lock-cases {A} body key w = go (take_lock rdb key w) refl
    where
      go :
          (t : Result Text × W)
          → take_lock rdb key w ≡ t
          → ((e : GoError) × (w1 : W) × (take_lock rdb key w ≡ (err e, w1))
              × (with_redis_lock rdb key body w ≡ (err e, w1)))
            ⊎ ((token : Text) × (w1 : W) × (take_lock rdb key w ≡ (ok token, w1))
                × (with_redis_lock rdb key body w
                    ≡ ((body w1).0, rdb.release (codes "lock:" ++ key) token (body w1).1)))
      go (err e, w1) k = inl (e, w1, k, ap (under_lock rdb key body) k)
      go (ok token, w1) k = inr (token, w1, k, ap (under_lock rdb key body) k)

  -- A lock that is never free is given up with an error once its tries are used up, where nothing ends
  -- the waits early.
  acquire_busy :
      (key token : Text) (tries : ℕ) (w : W)
      → ((v : W) → (rdb.set_nx (codes "lock:" ++ key) token v).0 ≡ ok false)
      → ((v : W) → (rdb.retry_wait v).0 ≡ none)
      → (acquire rdb key token tries w).0
        ≡ err (new_error (codes "failed to acquire nonce lock: " ++ key))
  unfolding acquire
  acquire_busy key token zero w busy alive = refl
  acquire_busy key token (suc tries) w busy alive =
      let w1 = (rdb.set_nx (codes "lock:" ++ key) token w).1 in
      rw (busy w, acquire)
        (rw (alive w1, acquire) (acquire_busy key token tries (rdb.retry_wait w1).1 busy alive))
