-- ===== src/Redis/RoundRobin.antt =====
-- redis.go: the indexes that the cursor gives, one by one and in a row.
use native.Mathlib.Nat.{suc-mod, mod_self, mod-add-mod, mod-lt, mod-eq_of_lt, mod-eq-sub-mod}
use bundler_go.Base.{
  ℕ, ℤ, zero, suc, pos, negsuc, ◌+◌, ◌-◌, ◌%◌, ◌^◌, ◌≤◌, ◌<◌, ◌≡◌, refl, ap, ◌∙◌, List, [], ◌∷◌,
  ◌++◌, Text, codes, text_eq, text_eq_refl, text_eq_iff, Option, none, some, ok, M, leb,
  if◌then◌else◌, false, arith, rem, neg, pos_part, ◌+ℤ◌, Bool-cases, Result-cases, inl, inr, ltb,
  ◌==◌,
}
use bundler_go.Redis.Cursor.{Cursors, cursor, set_cursor, next_index_local, wrap_index, next_index}

add_self_mod : (a n : ℕ) → 0 < n → (a % n + n) % n ≡ a % n
add_self_mod a n h = grind (arith, mod-add-mod, mod-lt, mod-eq_of_lt, mod-eq-sub-mod)

wrap_neg : (m n : ℕ) → m < n → pos_part (rem (neg (pos m) +ℤ pos n) n) ≡ (n - m) % n
wrap_neg m n h = ground arith

wrap_pos : (m n : ℕ) → pos_part (rem (pos m +ℤ pos n) n) ≡ (m + n) % n
wrap_pos m n = ground arith

wrap_index_bound : (v : ℤ) (n : ℕ) → 0 < n → wrap_index v n < n
unfolding wrap_index
wrap_index_bound (pos a) n h = rw (wrap_pos (a % n) n) (mod-lt (a % n + n) h)
wrap_index_bound (negsuc a) n h =
    rw (wrap_neg (suc a % n) n (mod-lt (suc a) h)) (mod-lt (n - suc a % n) h)

module _ {W : Type 0} where
  -- Where the pool is not empty, every index that `NextIndex` returns is one of the pool, whatever
  -- the server's counter is, below zero included.
  next_index_bound :
      (rdb : Option (Text → M W ℤ)) (key : Text) (n i : ℕ) (s : W × Cursors)
      → 0 < n
      → (next_index rdb key n s).0 ≡ ok i
      → i < n
  unfolding next_index
  next_index_bound none key n i (w, cursors) h e = ground (arith, mod-lt (cursor key cursors) h)
  next_index_bound (some incr) key n i (w, cursors) h e =
      elim (Result-cases (incr (codes "walletcursor:" ++ key) w).0) [
        | inl (v, k) ↦ ground (arith, e, k, wrap_index_bound v n h)
        | inr (x, k) ↦ ground (arith, e, k)
      ]

cursor-set :
    (key j : Text) (v : ℕ) (c : Cursors)
    → cursor j (set_cursor key v c) ≡ (if text_eq key j then v else cursor j c)
unfolding cursor set_cursor
cursor-set key j v [] = refl
cursor-set key j v ((k, u) ∷ c) =
    ground (arith, text_eq_iff key j, text_eq_iff k key, text_eq_iff k j, cursor-set key j v c)

-- The indices of consecutive calls.
abbrev pub indices : ℕ → Text → ℕ → Cursors → List ℕ
indices zero key n c = []
indices (suc calls) key n c = let (i, c') = next_index_local key n c in i ∷ indices calls key n c'

abbrev pub count : ℕ → List ℕ → ℕ
count i [] = 0
count i (j ∷ js) = if j == i then suc (count i js) else count i js

-- How many steps from `r` on the index `i` comes, in a circle of `n`.
abbrev distance : ℕ → ℕ → ℕ → ℕ
distance r i n = if leb r i then i - r else i + n - r

suc_mod_cases :
    (cur n : ℕ) → 0 < n → suc cur % n ≡ (if suc (cur % n) == n then 0 else suc (cur % n))
suc_mod_cases cur n h = elim (Bool-cases (suc (cur % n) == n)) [
  | inl e ↦ rw e (suc-mod cur n ∙ ground (arith, mod_self n))
  | inr e ↦ rw e (suc-mod cur n ∙ mod-eq_of_lt (ground (arith, mod-lt cur h)))
]

count_step :
    (r r' n i calls k : ℕ)
    → r' ≡ (if suc r == n then 0 else suc r)
    → r < n
    → i < n
    → suc calls ≤ n
    → k ≡ (if ltb (distance r' i n) calls then 1 else 0)
    → (if r == i then suc k else k) ≡ (if ltb (distance r i n) (suc calls) then 1 else 0)
count_step r r' n i calls k e h hi hc hk = ground arith

count-indices :
    (calls : ℕ) (key : Text) (n i : ℕ) (c : Cursors)
    → i < n
    → calls ≤ n
    → cursor key c + calls < 2 ^ 64
    → count i (indices calls key n c)
      ≡ (if ltb (distance (cursor key c % n) i n) calls then 1 else 0)
unfolding next_index_local
count-indices zero key n i c h k small = ground arith
count-indices (suc calls) key n i c h k small =
    let c' = set_cursor key ((cursor key c + 1) % 2 ^ 64) c in
    let now : cursor key c' ≡ suc (cursor key c) =
      cursor-set key key _ c ∙ rw (text_eq_refl key) (ground (arith, small)) in
    let rest : count i (indices calls key n c')
        ≡ (if ltb (distance (suc (cursor key c) % n) i n) calls then 1 else 0) =
      count-indices calls key n i c' h (omega arith) (omega arith)
      ∙ ap (λ (t : ℕ). if ltb (distance (t % n) i n) calls then 1 else 0) now in
    count_step (cursor key c % n) (suc (cursor key c) % n) n i calls _
      (suc_mod_cases (cursor key c) n (omega arith)) (mod-lt (cursor key c) (omega arith)) h k rest

-- As many consecutive calls as the pool has wallets choose each wallet exactly once, from whatever
-- value the process's own counter has, up to the wrap-around of uint64.
pub next_index_local-round_robin :
    (key : Text) (n i : ℕ) (c : Cursors)
    → i < n
    → cursor key c + n < 2 ^ 64
    → count i (indices n key n c) ≡ 1
next_index_local-round_robin key n i c h small =
    count-indices n key n i c h (omega arith) small
    ∙ ground (arith, mod-lt (cursor key c) {m = n}, h)

-- A choice for one chain leaves the counters of the others alone.
next_index_local-other :
    (key j : Text) (n : ℕ) (c : Cursors)
    → text_eq key j ≡ false
    → cursor j (next_index_local key n c).1 ≡ cursor j c
unfolding next_index_local
next_index_local-other key j n c h = cursor-set key j _ c ∙ rw h
