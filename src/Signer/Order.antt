-- ===== src/Signer/Order.antt =====
-- manager.go: the order of a pool, by the number at the end of each name. `sort.Slice` promises no
-- order of names with equal numbers; here they keep theirs.
use bundler_go.Base.{
  ℤ, pos, List, [], ◌∷◌, Text, Option, none, some, is_empty, trim_space, not, parse_int, ltb_ℤ,
  ◌==◌, if◌then◌else◌,
}

-- What stands behind the last underscore (`LastIndexByte`).
unfoldable pub after_last : Text → Option Text
after_last [] = none
after_last (c ∷ s) = elim (after_last s) [
  | some t ↦ some t
  | none ↦ if c == b'_' then some s else none
]

-- `trailingIndex`
unfoldable pub trailing_index : Text → ℤ
unfolding after_last
trailing_index name = elim (after_last name) [
  | none ↦ pos 0
  | some t ↦ elim (parse_int 10 t) [ none ↦ pos 0 | some n ↦ n ]
]

unfoldable pub insert_by_index : Text → List Text → List Text
insert_by_index x [] = x ∷ []
insert_by_index x (y ∷ ys) =
    if ltb_ℤ (trailing_index y) (trailing_index x) then y ∷ insert_by_index x ys else x ∷ y ∷ ys

-- `sortByTrailingIndex`
unfoldable pub sort_by_trailing_index : List Text → List Text
unfolding insert_by_index
sort_by_trailing_index [] = []
sort_by_trailing_index (x ∷ xs) = insert_by_index x (sort_by_trailing_index xs)

-- `firstNonEmpty`, of two.
unfoldable pub first_non_empty : Text → Text → Text
first_non_empty a b =
    if not (is_empty (trim_space a))
    then trim_space a
    else if not (is_empty (trim_space b))
    then trim_space b
    else []
