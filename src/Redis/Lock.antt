-- ===== src/Redis/Lock.antt =====
-- redis.go: `WithNonceLock` and `withRedisLock`, as one call sees them. The process's own mutex lets
-- one call of a key through at a time; what it guarantees is the subject of `Exclusion`.
use bundler_go.Base.{
  ℕ, zero, suc, ◌++◌, Text, codes, text_eq, Bool, true, false, Option, none, some, Result, ok, err,
  GoError, new_error, wrap_error, M, if◌then◌else◌,
}

-- The redis server and the other things that a call waits on.
pub record Rdb (W : Type 0) : Type 0 where
  -- 16 random bytes, in hexadecimal
  pub random_token : M W Text
  -- `SET key token NX PX ttl`
  pub set_nx : Text → Text → M W Bool
  -- the release script at a key and a token
  pub release : Text → Text → W → W
  -- the `select` between the context's end and the retry delay
  pub retry_wait : W → Option GoError × W

abbrev pub retry_count : ℕ
retry_count = 10

-- `releaseScript`, on the value of the key: the new value and the reply.
unfoldable pub release_script : Text → Option Text → Option Text × ℕ
release_script token none = (none, 0)
release_script token (some held) = if text_eq held token then (none, 1) else (some held, 0)

module _ {W : Type 0} (rdb : Rdb W) where
  -- The loop of `withRedisLock`, with the tries that are left.
  unfoldable pub acquire : Text → Text → ℕ → M W (Unit {0})
  acquire key token zero w = (err (new_error (codes "failed to acquire nonce lock: " ++ key)), w)
  acquire key token (suc tries) w =
      let (r, w1) = rdb.set_nx (codes "lock:" ++ key) token w in
      elim r [
        | err e ↦ (err (wrap_error (codes "redis lock acquire: ") e), w1)
        | ok true ↦ (ok tt, w1)
        | ok false ↦
            let (cancelled, w2) = rdb.retry_wait w1 in
            elim cancelled [ some e ↦ (err e, w2) | none ↦ acquire key token tries w2 ]
      ]

  -- The token and the lock.
  unfoldable pub take_lock : Text → M W Text
  unfolding acquire
  take_lock key w =
      let (t, w1) = rdb.random_token w in
      elim t [
        | err e ↦ (err e, w1)
        | ok token ↦
            let (r, w2) = acquire key token retry_count w1 in
            elim r [ err e ↦ (err e, w2) | ok u ↦ (ok token, w2) ]
      ]

  -- The body under the lock, and the deferred release, which runs whatever the body returns.
  unfoldable pub under_lock : {A : Type 0} → Text → M W A → Result Text × W → Result A × W
  under_lock key body (err e, w) = (err e, w)
  under_lock key body (ok token, w) =
      let (r, w') = body w in (r, rdb.release (codes "lock:" ++ key) token w')

  -- `withRedisLock`
  unfoldable pub with_redis_lock : {A : Type 0} → Text → M W A → M W A
  unfolding under_lock
  with_redis_lock key body w = under_lock key body (take_lock key w)

-- `WithNonceLock`, with `none` where no server is set.
unfoldable pub with_nonce_lock : {W A : Type 0} → Option (Rdb W) → Text → M W A → M W A
unfolding with_redis_lock
with_nonce_lock none key body w = body w
with_nonce_lock (some rdb) key body w = with_redis_lock rdb key body w
