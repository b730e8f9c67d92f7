-- ===== src/Kms/Wildcard.antt =====
-- keystore_sqlite.go: the names that `ListByPrefix` gets for the prefix of a chain, under SQLite's
-- `LIKE`.
use bundler_go.Base.{
  ℕ, ◌+◌, ◌*◌, ◌<◌, ◌≡◌, refl, subst, ◌++◌, List, [], ◌∷◌, Text, codes, Bool, true, false, ◌||◌,
  ◌&&◌, inl, inr, ok, map, lower, ◌==◌, if◌then◌else◌, arith, All, All-append, Elem, here, there,
  Bool-cases, itoa, itoa-snoc, itoa-digits, is_digit, append_assoc, trim_space, trim_space_lem,
  NoSpace, is_space,
}
use bundler_go.Kms.Sqlite.{Db, list_by_prefix, sort_strings, Elem-sort_strings}

-- SQLite's documented `LIKE`: `%` stands for any text, `_` for any character, and letters match
-- whatever their case.
pub like : Text → Text → Bool
like [] [] = true
like [] (c ∷ s) = false
like (p ∷ ps) [] = if p == b'%' then like ps [] else false
like (p ∷ ps) (c ∷ s) =
    if p == b'%'
    then like ps (c ∷ s) || like (p ∷ ps) s
    else if p == b'_'
    then like ps s
    else (lower p == lower c) && like ps s

pub select : Text → List Text → List Text
unfolding like
select p [] = []
select p (n ∷ ns) = if like p n then n ∷ select p ns else select p ns

like-any : (s : Text) → like (codes "%") s ≡ true
unfolding like
like-any [] = refl
like-any (c ∷ s) = ground (arith, like-any s)

like-append :
    (p q s : Text)
    → All (λ c. (c == b'%') ≡ false) p
    → like q s ≡ true
    → like (p ++ q) (p ++ s) ≡ true
unfolding like
like-append [] q s h k = k
like-append (c ∷ p) q s h k = ground (arith, h.0, like-append p q s h.1 k)

Elem-select : (p n : Text) (ns : List Text) → like p n ≡ true → Elem n ns → Elem n (select p ns)
unfolding select
Elem-select p n [] h m = elim m [ ]
Elem-select p n (n' ∷ ns) h here = rw h here
Elem-select p n (k ∷ ns) h (there m) = elim (Bool-cases (like p k)) [
  | inl e ↦ rw e (there (Elem-select p n ns h m))
  | inr e ↦ rw e (Elem-select p n ns h m)
]

Elem-map {ℓ κ} :
    {A : Type ℓ} {B : Type κ} (f : A → B) (a : A) (xs : List A) → Elem a xs → Elem (f a) (map f xs)
Elem-map f a [] m = elim m [ ]
Elem-map f a (x ∷ xs) here = here
Elem-map f a (x ∷ xs) (there m) = there (Elem-map f a xs m)

-- `bundler_key_<chain>_`, and the name of a wallet.
abbrev pub pool_prefix : ℕ → Text
pool_prefix chain = codes "bundler_key_" ++ (itoa chain ++ codes "_")

abbrev pub wallet_name : ℕ → ℕ → Text
wallet_name chain index = codes "bundler_key_" ++ (itoa chain ++ (codes "_" ++ itoa index))

no_percent : (s : Text) → All (λ c. is_digit c ≡ true) s → All (λ c. (c == b'%') ≡ false) s
no_percent [] h = tt
no_percent (c ∷ s) h = (ground (arith, h.0), no_percent s h.1)

digits-NoSpace : (s : Text) → All (λ c. is_digit c ≡ true) s → NoSpace s
digits-NoSpace [] h = tt
digits-NoSpace (c ∷ s) h = (unfold is_space in ground (arith, h.0), digits-NoSpace s h.1)

like-foreign :
    (c d i : ℕ)
    → 0 < c
    → d < 10
    → like (pool_prefix c ++ codes "%") (wallet_name (10 * c + d) i) ≡ true
like-foreign c d i h k =
    rw
      (
        itoa-snoc c d h k,
        append_assoc (itoa c) (codes "_") (codes "%"),
        append_assoc (itoa c) ((b'0' + d) ∷ []) (codes "_" ++ itoa i),
      )
      (like-append (codes "bundler_key_") (itoa c ++ codes "_%")
        (itoa c ++ ((b'0' + d) ∷ (codes "_" ++ itoa i))) key_free
        (like-append (itoa c) (codes "_%") ((b'0' + d) ∷ (codes "_" ++ itoa i))
          (no_percent (itoa c) (itoa-digits c)) (unfold like in like-any (codes "_" ++ itoa i))))
  where
    key_free : All (λ c. (c == b'%') ≡ false) (codes "bundler_key_")
    key_free = (
      refl,
      (refl, (refl, (refl, (refl, (refl, (refl, (refl, (refl, (refl, (refl, (refl, tt))))))))))),
    )

wallet_name-NoSpace : (c i : ℕ) → NoSpace (wallet_name c i)
wallet_name-NoSpace c i =
    unfold is_space in
    (
      refl,
      (
        refl,
        (
          refl,
          (
            refl,
            (
              refl,
              (
                refl,
                (
                  refl,
                  (
                    refl,
                    (
                      refl,
                      (
                        refl,
                        (
                          refl,
                          (
                            refl,
                            All-append _ (itoa c) (codes "_" ++ itoa i)
                                (digits-NoSpace (itoa c) (itoa-digits c))
                                (refl, digits-NoSpace (itoa i) (itoa-digits i)),
                          ),
                        ),
                      ),
                    ),
                  ),
                ),
              ),
            ),
          ),
        ),
      ),
    )

module _ {W : Type 0} (db : Db W) (table : List Text) where
  -- Where the database answers as SQLite documents `LIKE`, the wallets of chain 10c + d, for c
  -- above 0 and d below 10, are listed among those of chain c.
  pub list_by_prefix-foreign :
      (c d i : ℕ) (w : W)
      → ((p : Text) (v : W) → db.query_like p v ≡ (ok (select p table), v))
      → 0 < c
      → d < 10
      → Elem (wallet_name (10 * c + d) i) table
      → (names : List Text) × ((list_by_prefix db (pool_prefix c) w).0 ≡ ok names)
        × Elem (wallet_name (10 * c + d) i) names
  unfolding list_by_prefix
  list_by_prefix-foreign c d i w answers h k m =
      let found = Elem-select _ _ table (like-foreign c d i h k) m in
      let name = wallet_name (10 * c + d) i in
      let trimmed =
        subst (λ n. Elem n (map trim_space (select (pool_prefix c ++ codes "%") table)))
          (trim_space_lem name (wallet_name-NoSpace (10 * c + d) i))
          (Elem-map trim_space name _ found) in
      (
        sort_strings (map trim_space (select (pool_prefix c ++ codes "%") table)),
        rw (answers, list_by_prefix),
        Elem-sort_strings name _ trimmed,
      )
