-- ===== src/Base/Trim.antt =====
-- `strings.TrimSpace`: texts that it leaves alone.
use mathlib.Core.Path.{◌≡◌, refl}
use mathlib.Core.Logic.{inl, inr}
use mathlib.Core.Bool.{true, false, ◌&&◌, ◌||◌}
use mathlib.Core.List.{[], ◌∷◌}
use native.Mathlib.Omega.{arith}
use bundler_go.Base.Tests.{Bool-cases, ◌==◌}
use bundler_go.Base.Lists.{All}
use bundler_go.Base.Strings.{Text, is_space, trim_left, trim_right, trim_space, is_digit, is_empty}

-- No white space stands in the text.
abbrev pub NoSpace : Text → Type 0
NoSpace = All (λ c. is_space c ≡ false)

trim_right_lem : (s : Text) → NoSpace s → trim_right s ≡ s
unfolding trim_right
trim_right_lem [] h = refl
trim_right_lem (c ∷ s) h = rw (h.0, trim_right_lem s h.1)

trim_left_lem : (s : Text) → NoSpace s → trim_left s ≡ s
unfolding trim_left
trim_left_lem [] h = refl
trim_left_lem (c ∷ s) h = rw h.0

pub trim_space_lem : (s : Text) → NoSpace s → trim_space s ≡ s
unfolding trim_space
trim_space_lem s h = rw (trim_left_lem s h) (trim_right_lem s h)

trim_right_idem : (s : Text) → trim_right (trim_right s) ≡ trim_right s
unfolding trim_right
trim_right_idem [] = refl
trim_right_idem (c ∷ s) = elim (Bool-cases (is_space c && is_empty (trim_right s))) [
  | inl e ↦ rw e
  | inr e ↦ rw e (rw (trim_right_idem s) (rw e))
]

trim_left_trimmed : (s : Text) → trim_left (trim_right (trim_left s)) ≡ trim_right (trim_left s)
unfolding trim_left trim_right
trim_left_trimmed [] = refl
trim_left_trimmed (c ∷ s) = elim (Bool-cases (is_space c)) [
  | inl e ↦ rw e (trim_left_trimmed s)
  | inr e ↦ rw e (rw e (rw e))
]

-- Trimming twice is trimming once.
pub trim_space_idem : (s : Text) → trim_space (trim_space s) ≡ trim_space s
unfolding trim_space
trim_space_idem s = rw trim_left_trimmed (trim_right_idem (trim_left s))

pub numeral-NoSpace : (s : Text) → All (λ c. (is_digit c || (c == b'-')) ≡ true) s → NoSpace s
numeral-NoSpace [] h = tt
numeral-NoSpace (c ∷ s) h = (unfold is_space in ground (arith, h.0), numeral-NoSpace s h.1)
