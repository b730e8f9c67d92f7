-- ===== src/Signer/OrderLaws.antt =====
-- manager.go: the order of the wallets of a pool.
use mathlib.Core.List.{Perm}
use mathlib.Core.List.Perm
use bundler_go.Base.{
  ℕ, pos, ◌<◌, ◌^◌, ◌≡◌, refl, List, [], ◌∷◌, ◌++◌, Text, codes, true, none, some, inl, inr, arith,
  All, ltb_ℤ, ◌≤ℤ◌, Bool-cases, itoa, itoa-digits, parse_int, parse_int-format_int, format_int,
  is_digit,
}
use bundler_go.Signer.Order.{after_last, trailing_index, insert_by_index, sort_by_trailing_index}
use bundler_go.Kms.Wildcard.{wallet_name}

after_last-none : (s : Text) → All (λ c. is_digit c ≡ true) s → after_last s ≡ none
unfolding after_last
after_last-none [] h = refl
after_last-none (c ∷ s) h = rw (after_last-none s h.1) (ground (arith, h.0))

after_last-append : (p s : Text) {t : Text} → after_last s ≡ some t → after_last (p ++ s) ≡ some t
unfolding after_last
after_last-append [] s h = h
after_last-append (c ∷ p) s h = rw (after_last-append p s h)

after_last-number :
    (s : Text) → All (λ c. is_digit c ≡ true) s → after_last (codes "_" ++ s) ≡ some s
unfolding after_last
after_last-number s h = rw (after_last-none s h)

-- The number that a wallet's name ends with is read back from it, for a number of int64.
trailing_index-wallet_name :
    (chain i : ℕ) → i < 2 ^ 63 → trailing_index (wallet_name chain i) ≡ pos i
unfolding trailing_index
trailing_index-wallet_name chain i h =
    let read : parse_int 10 (itoa i) ≡ some (pos i) =
      unfold format_int in parse_int-format_int (pos i) (ground (arith, h)) in
    rw
      (
        after_last-append (codes "bundler_key_" ++ itoa chain) (codes "_" ++ itoa i)
            (after_last-number (itoa i) (itoa-digits i)),
        trailing_index,
      )
      (rw read)

-- The numbers do not fall along the list.
abbrev pub Sorted : List Text → Type 0
Sorted [] = Unit
Sorted (x ∷ []) = Unit
Sorted (x ∷ y ∷ ys) = (trailing_index x ≤ℤ trailing_index y) × Sorted (y ∷ ys)

insert-Sorted : (x : Text) (ys : List Text) → Sorted ys → Sorted (insert_by_index x ys)
unfolding insert_by_index
insert-Sorted x [] h = tt
insert-Sorted x (y ∷ []) h = ground arith
insert-Sorted x (y ∷ z ∷ ys) h = ground (arith, insert-Sorted x (z ∷ ys) h.1)

insert-perm : (x : Text) (ys : List Text) → Perm (insert_by_index x ys) (x ∷ ys)
unfolding insert_by_index
insert-perm x [] = Perm.refl (x ∷ [])
insert-perm x (y ∷ ys) = elim (Bool-cases (ltb_ℤ (trailing_index y) (trailing_index x))) [
  | inl e ↦ rw e (Perm.trans (Perm.cons y (insert-perm x ys)) (Perm.swap x y ys))
  | inr e ↦ rw e (Perm.refl (x ∷ y ∷ ys))
]

sort-Sorted : (xs : List Text) → Sorted (sort_by_trailing_index xs)
unfolding sort_by_trailing_index
sort-Sorted [] = tt
sort-Sorted (x ∷ xs) = insert-Sorted x (sort_by_trailing_index xs) (sort-Sorted xs)

sort-perm : (xs : List Text) → Perm (sort_by_trailing_index xs) xs
unfolding sort_by_trailing_index
sort-perm [] = Perm.refl []
sort-perm (x ∷ xs) =
    Perm.trans (insert-perm x (sort_by_trailing_index xs)) (Perm.cons x (sort-perm xs))

-- The sorted names are the same names, in the order of the numbers at their ends (2 before 10).
sort_by_trailing_index_lem :
    (xs : List Text) → Sorted (sort_by_trailing_index xs) × Perm (sort_by_trailing_index xs) xs
sort_by_trailing_index_lem xs = (sort-Sorted xs, sort-perm xs)
