-- ===== src/Kms/Sqlite.antt =====
-- keystore_sqlite.go: the keystore over a table `keys(Name, KeyID, EncKey)`.
use bundler_go.Base.{
  ◌++◌, List, [], ◌∷◌, Text, codes, Bool, true, false, ◌||◌, Option, none, some, is_empty,
  trim_space, ok, err, M, if◌then◌else◌, map, ltb, ◌==◌, Elem, here, there, Bool-cases, inl, inr,
}
use bundler_go.Kms.Provider.{KeyEntry, Keystore}

-- The driver: the columns of the row of a name, and the names that match a `LIKE` pattern.
pub record Db (W : Type 0) : Type 0 where
  pub query_row : Text → M W (Option (Text × Text))
  pub query_like : Text → M W (List Text)
  pub close : M W (Unit {0})

-- The order of Go strings.
unfoldable pub text_ltb : Text → Text → Bool
text_ltb s [] = false
text_ltb [] (d ∷ t) = true
text_ltb (c ∷ s) (d ∷ t) = ltb c d || (if c == d then text_ltb s t else false)

unfoldable pub insert_text : Text → List Text → List Text
unfolding text_ltb
insert_text x [] = x ∷ []
insert_text x (y ∷ ys) = if text_ltb y x then y ∷ insert_text x ys else x ∷ y ∷ ys

-- `sort.Strings`; equal strings are the same, so any sort gives this list.
unfoldable pub sort_strings : List Text → List Text
unfolding insert_text
sort_strings [] = []
sort_strings (x ∷ xs) = insert_text x (sort_strings xs)

-- A row with an empty column counts as not found.
unfoldable pub read_row : Option (Text × Text) → Option KeyEntry
read_row none = none
read_row (some (key_id, enc_key)) =
    if is_empty (trim_space key_id) || is_empty (trim_space enc_key)
    then none
    else some (record { key_id = trim_space key_id; ciphertext = trim_space enc_key })

module _ {W : Type 0} (db : Db W) where
  -- `Lookup`
  unfoldable pub lookup : Text → M W (Option KeyEntry)
  unfolding read_row
  lookup name w =
      let (r, w') = db.query_row name w in
      elim r [ err e ↦ (err e, w') | ok row ↦ (ok (read_row row), w') ]

  -- `ListByPrefix`: `WHERE Name LIKE prefix%`.
  unfoldable pub list_by_prefix : Text → M W (List Text)
  unfolding sort_strings
  list_by_prefix prefix w =
      let (r, w') = db.query_like (prefix ++ codes "%") w in
      elim r [ err e ↦ (err e, w') | ok names ↦ (ok (sort_strings (map trim_space names)), w') ]

  abbrev pub keystore : Keystore W
  unfolding lookup list_by_prefix
  keystore = record { lookup = lookup; list_by_prefix = list_by_prefix; close = db.close }

insert_text-head : (x : Text) (ys : List Text) → Elem x (insert_text x ys)
unfolding insert_text
insert_text-head x [] = here
insert_text-head x (y ∷ ys) = elim (Bool-cases (text_ltb y x)) [
  | inl e ↦ rw e (there (insert_text-head x ys))
  | inr e ↦ rw e here
]

insert_text-tail : (x z : Text) (ys : List Text) → Elem z ys → Elem z (insert_text x ys)
unfolding insert_text
insert_text-tail x z [] m = elim m [ ]
insert_text-tail x z (y ∷ ys) here = elim (Bool-cases (text_ltb y x)) [
  | inl e ↦ rw e here
  | inr e ↦ rw e (there here)
]
insert_text-tail x z (y ∷ ys) (there m) = elim (Bool-cases (text_ltb y x)) [
  | inl e ↦ rw e (there (insert_text-tail x z ys m))
  | inr e ↦ rw e (there (there m))
]

-- Sorting loses no name.
pub Elem-sort_strings : (z : Text) (xs : List Text) → Elem z xs → Elem z (sort_strings xs)
unfolding sort_strings
Elem-sort_strings z [] m = elim m [ ]
Elem-sort_strings z (x ∷ xs) here = insert_text-head x (sort_strings xs)
Elem-sort_strings z (x ∷ xs) (there m) =
    insert_text-tail x z (sort_strings xs) (Elem-sort_strings z xs m)
