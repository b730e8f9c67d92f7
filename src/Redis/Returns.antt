-- ===== src/Redis/Returns.antt =====
-- redis.go: what a call under the lock returns.
use bundler_go.Base.{Text, Option, none, some, Result, ok, err, M, ◌≡◌, err-ne-ok}
use bundler_go.Redis.Lock.{Rdb, with_nonce_lock, under_lock, take_lock}

under_lock-ok :
    {S A : Type 0} (rdb : Rdb S) (key : Text) (body : M S A) (t : Result Text × S) {a : A}
    → (under_lock rdb key body t).0 ≡ ok a
    → (v : S) × ((body v).0 ≡ ok a)
unfolding under_lock
under_lock-ok rdb key body (err e, v) h = absurd (err-ne-ok h)
under_lock-ok rdb key body (ok token, v) h = (v, h)

-- What a body under the lock returned, it returned at some state.
pub with_nonce_lock-ok :
    {S A : Type 0} (rdb : Option (Rdb S)) (key : Text) (body : M S A) (s : S) {a : A}
    → (with_nonce_lock rdb key body s).0 ≡ ok a
    → (v : S) × ((body v).0 ≡ ok a)
unfolding with_nonce_lock
with_nonce_lock-ok none key body s h = (s, h)
with_nonce_lock-ok (some rdb) key body s h = under_lock-ok rdb key body (take_lock rdb key s) h
