-- ===== src/Txerror/Codes.antt =====
-- The regular expression `\b(AC0\d{2}|EP0\d{2}|PM0\d{2})\b` of txerror.go, as a search for the first
-- match, and the statement that the search is right.
use bundler_go.Base.{
  ℕ, ◌≡◌, refl, ap, inl, inr, ◌≢◌, Bool, true, false, not, ◌&&◌, ◌||◌, Option, none, some, [], ◌∷◌,
  ◌++◌, Text, is_digit, take, drop, arith, leb, ◌==◌, if◌then◌else◌, Option-cases, take-append-drop,
}

-- `\w`
abbrev pub is_word : ℕ → Bool
is_word c = is_digit c || (leb b'A' c && leb c b'Z') || (leb b'a' c && leb c b'z') || (c == b'_')

abbrev is_prefix : ℕ → ℕ → Bool
is_prefix a b = (a == b'A' && b == b'C') || (a == b'E' && b == b'P') || (a == b'P' && b == b'M')

-- The text between the two boundaries.
unfoldable pub is_code : Text → Bool
is_code (a ∷ b ∷ z ∷ d ∷ e ∷ []) = is_prefix a b && (z == b'0') && is_digit d && is_digit e
is_code _ = false

-- Whether the text ends with a word character, `w` being the answer for the empty one.
abbrev pub ends_after : Bool → Text → Bool
ends_after w [] = w
ends_after w (c ∷ s) = ends_after (is_word c) s

abbrev pub starts_word : Text → Bool
starts_word [] = false
starts_word (c ∷ s) = is_word c

-- A match at the head; the flag says that a word character stands before. A code begins and ends
-- with word characters, so `\b` asks that none stands next to it.
unfoldable pub match_at : Bool → Text → Option Text
unfolding is_code
match_at word s =
    if is_code (take 5 s) && not word && not (starts_word (drop 5 s)) then some (take 5 s) else none

unfoldable pub find_from : Bool → Text → Option Text
unfolding match_at
find_from word [] = none
find_from word (c ∷ s) = elim (match_at word (c ∷ s)) [
  | some t ↦ some t
  | none ↦ find_from (is_word c) s
]

-- `revertCodeRe.FindStringSubmatch(s)[1]`
unfoldable pub find_revert_code : Text → Option Text
unfolding find_from
find_revert_code s = find_from false s

-- A code that stands in the text as a word of its own.
abbrev pub CodeIn : Text → Text → Type 0
CodeIn t s =
    (a : Text) × (b : Text) × (s ≡ a ++ (t ++ b))
    × (is_code t ≡ true)
    × (ends_after false a ≡ false)
    × (starts_word b ≡ false)

length5-take : (t b : Text) → is_code t ≡ true → (take 5 (t ++ b) ≡ t) × (drop 5 (t ++ b) ≡ b)
unfolding is_code
length5-take (p ∷ q ∷ z ∷ d ∷ e ∷ []) b h = (refl, refl)
length5-take [] b h = cc
length5-take (p ∷ []) b h = cc
length5-take (p ∷ q ∷ []) b h = cc
length5-take (p ∷ q ∷ z ∷ []) b h = cc
length5-take (p ∷ q ∷ z ∷ d ∷ []) b h = cc
length5-take (p ∷ q ∷ z ∷ d ∷ e ∷ f ∷ t) b h = cc

match_at_code :
    (t b : Text) → is_code t ≡ true → starts_word b ≡ false → match_at false (t ++ b) ≡ some t
unfolding match_at
match_at_code t b h w = let (p, q) = length5-take t b h in rw (p, q) (rw (h, w))

match_at_sound :
    (word : Bool) (s : Text) {t : Text}
    → match_at word s ≡ some t
    → (word ≡ false) × (s ≡ t ++ drop 5 s) × (is_code t ≡ true) × (starts_word (drop 5 s) ≡ false)
unfolding match_at
match_at_sound word s {t} h = ground (arith, take-append-drop 5 s)

find_from-match : (w : Bool) (s t : Text) → match_at w s ≡ some t → find_from w s ≡ some t
unfolding find_from
find_from-match w [] t h = cc
find_from-match w (c ∷ s) t h = rw (h, find_from)

module _ (t : Text) where
  abbrev Splits : Bool → Text → Type 0
  Splits w s =
      (a : Text) × (b : Text) × (s ≡ a ++ (t ++ b))
      × (is_code t ≡ true)
      × (ends_after w a ≡ false)
      × (starts_word b ≡ false)

  find_from_sound : (w : Bool) (s : Text) → find_from w s ≡ some t → Splits w s
  unfolding find_from
  find_from_sound w [] h = cc
  find_from_sound w (c ∷ s) h = elim (Option-cases (match_at w (c ∷ s))) [
    | inl e ↦
        let (a, b, p, q, r, u) = find_from_sound (is_word c) s (ground (arith, h, e)) in
        (c ∷ a, b, ap (◌∷◌ c) p, q, r, u)
    | inr (v, e) ↦
        let m = match_at_sound w (c ∷ s) {t = t} (ground (arith, h, e)) in
        ([], drop 5 (c ∷ s), m.1, m.2, m.0, m.3)
  ]

  find_from_complete :
      (w : Bool) (a b : Text)
      → is_code t ≡ true
      → ends_after w a ≡ false
      → starts_word b ≡ false
      → find_from w (a ++ (t ++ b)) ≢ none
  unfolding find_from
  find_from_complete w [] b h e u =
      rw (e, find_from-match false (t ++ b) t (match_at_code t b h u)) (λ k. cc)
  find_from_complete w (c ∷ a) b h e u = elim (Option-cases (match_at w ((c ∷ a) ++ (t ++ b)))) [
    | inl k ↦ rw (k, find_from) (find_from_complete (is_word c) a b h e u)
    | inr (v, k) ↦ rw (k, find_from) (λ e. cc)
  ]

-- What the search returns stands in the text as a word of its own.
pub find_revert_code_sound : (s t : Text) → find_revert_code s ≡ some t → CodeIn t s
unfolding find_revert_code
find_revert_code_sound s t h = find_from_sound t false s h

-- The search fails only on a text in which no code stands.
pub find_revert_code_complete : (s t : Text) → CodeIn t s → find_revert_code s ≢ none
unfolding find_revert_code
find_revert_code_complete s t (a, b, e, h, u, v) = rw e (find_from_complete t false a b h u v)
