-- ===== src/Base/Contains.antt =====
-- `strings.Contains` and the occurrence of one text in another.
use mathlib.Core.Path.{◌≡◌, ap}
use mathlib.Core.Logic.{◌↔◌, inl, inr}
use mathlib.Core.Bool.{true}
use mathlib.Core.List.{[], ◌∷◌, ◌++◌}
use native.Mathlib.Omega.{arith}
use bundler_go.Base.Tests.{Bool-cases}
use bundler_go.Base.Strings.{
  Text, has_prefix, contains, Occurs, has_prefix-append, has_prefix_sound,
}

has_prefix-contains : (s p : Text) → has_prefix s p ≡ true → contains s p ≡ true
unfolding contains
has_prefix-contains [] p h = h
has_prefix-contains (c ∷ s) p h = ground (arith, h)

contains-append_left : (a s p : Text) → contains s p ≡ true → contains (a ++ s) p ≡ true
unfolding contains
contains-append_left [] s p h = h
contains-append_left (c ∷ a) s p h = ground (arith, contains-append_left a s p h)

contains_sound : (s p : Text) → contains s p ≡ true → Occurs p s
unfolding contains
contains_sound [] p h = let (b, e) = has_prefix_sound [] p h in ([], b, e)
contains_sound (c ∷ s) p h = elim (Bool-cases (has_prefix (c ∷ s) p)) [
  | inl now ↦ let (b, e) = has_prefix_sound (c ∷ s) p now in ([], b, e)
  | inr later ↦
      let (a, b, e) = contains_sound s p (ground (arith, h, later)) in (c ∷ a, b, ap (◌∷◌ c) e)
]

pub contains_iff : (s p : Text) → (contains s p ≡ true) ↔ Occurs p s
contains_iff s p = (
  contains_sound s p,
  λ o. rw o.2 (
      contains-append_left o.0 (p ++ o.1) p
        (has_prefix-contains (p ++ o.1) p (has_prefix-append p o.1))),
)
