-- ===== src/Redis/Cursor.antt =====
-- redis.go: `NextIndex` and `nextIndexLocal`.
use bundler_go.Base.{
  ℕ, ℤ, ◌+◌, ◌%◌, ◌^◌, List, [], ◌∷◌, ◌++◌, Text, codes, text_eq, Option, none, some, ok, err,
  wrap_error, M, leb, if◌then◌else◌, rem, pos, pos_part, ◌+ℤ◌,
}

-- `l.cursors`: a uint64 for each key, 0 where there is none.
abbrev pub Cursors : Type 0
Cursors = List (Text × ℕ)

unfoldable pub cursor : Text → Cursors → ℕ
cursor key [] = 0
cursor key ((k, v) ∷ rest) = if text_eq k key then v else cursor key rest

unfoldable pub set_cursor : Text → ℕ → Cursors → Cursors
set_cursor key v [] = (key, v) ∷ []
set_cursor key v ((k, u) ∷ rest) =
    if text_eq k key then (key, v) ∷ rest else (k, u) ∷ set_cursor key v rest

-- `nextIndexLocal`: the counter is a uint64.
unfoldable pub next_index_local : Text → ℕ → Cursors → ℕ × Cursors
unfolding cursor set_cursor
next_index_local key n cursors =
    let cur = cursor key cursors in (cur % n, set_cursor key ((cur + 1) % 2 ^ 64) cursors)

-- `int(((v % int64(n)) + int64(n)) % int64(n))`
unfoldable pub wrap_index : ℤ → ℕ → ℕ
wrap_index v n = pos_part (rem (rem v n +ℤ pos n) n)

-- `NextIndex`: over the server's counter, or over the process's own, which is kept beside the world.
-- `incr` is `INCR` at the server, `none` where no server is set.
module _ {W : Type 0} where
  unfoldable pub next_index : Option (Text → M W ℤ) → Text → ℕ → M (W × Cursors) ℕ
  unfolding next_index_local wrap_index
  next_index rdb key n (w, cursors) = if leb n 1 then (ok 0, (w, cursors)) else elim rdb [
    | none ↦ let (i, cursors') = next_index_local key n cursors in (ok i, (w, cursors'))
    | some incr ↦
        let (r, w') = incr (codes "walletcursor:" ++ key) w in
        elim r [
          | err e ↦ (err (wrap_error (codes "redis cursor incr: ") e), (w', cursors))
          | ok v ↦ (ok (wrap_index v n), (w', cursors))
        ]
  ]
