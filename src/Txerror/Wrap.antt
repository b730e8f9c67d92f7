-- ===== src/Txerror/Wrap.antt =====
-- txerror.go: a failure under the prefix of `fmt.Errorf("...: %w", err)`.
use mathlib.Core.List.{map-append}
use bundler_go.Base.{
  ◌≡◌, refl, sym, ap, ◌∙◌, inl, inr, Bool, false, Result, [], ◌∷◌, ◌++◌, Text, codes, Occurs,
  GoError, wrap_error, to_lower, append_assoc,
}
use bundler_go.Txerror.Codes.{is_word, ends_after, CodeIn}
use bundler_go.Txerror.{revert, normalize_error, low_text, extract_reason, extract_code}
use bundler_go.Txerror.Contract.{classify-revert_iff}

ends_after-append : (w : Bool) (p a : Text) → ends_after w (p ++ a) ≡ ends_after (ends_after w p) a
ends_after-append w [] a = refl
ends_after-append w (c ∷ p) a = ends_after-append (is_word c) p a

CodeIn-append : (t p s : Text) → ends_after false p ≡ false → CodeIn t s → CodeIn t (p ++ s)
CodeIn-append t p s h (a, b, e, c, u, v) = (
  p ++ a,
  b,
  ap (◌++◌ p) e ∙ sym (append_assoc p a (t ++ b)),
  c,
  ends_after-append false p a ∙ rw h u,
  v,
)

Occurs-append : (q p s : Text) → Occurs q s → Occurs q (p ++ s)
Occurs-append q p s (a, b, e) = (p ++ a, b, ap (◌++◌ p) e ∙ sym (append_assoc p a (q ++ b)))

low_text-append : (p m r : Text) → low_text (p ++ m) r ≡ to_lower p ++ low_text m r
unfolding to_lower
low_text-append p m r =
    ap to_lower (append_assoc p m (codes " " ++ r)) ∙ map-append _ p (m ++ (codes " " ++ r))

module _ (hex_decode : Text → Result Text) (unpack_revert : Text → Result Text) where
  -- A failure that is a revert is one also under a prefix whose last character is no word character,
  -- as in `fmt.Errorf("tx.wait: %w", err)`.
  normalize_error-wrap :
      (p : Text) (e : GoError)
      → ends_after false p ≡ false
      → (normalize_error hex_decode unpack_revert e).category ≡ revert
      → (normalize_error hex_decode unpack_revert (wrap_error p e)).category ≡ revert
  unfolding normalize_error extract_reason extract_code
  normalize_error-wrap p e h c =
      let r = extract_reason hex_decode unpack_revert e in
      (classify-revert_iff (p ++ e.message) r (extract_code e)).1
        (elim ((classify-revert_iff e.message r (extract_code e)).0 c) [
          | inl (t, inl i) ↦ inl (t, inl i)
          | inl (t, inr i) ↦ inl (t, inr (CodeIn-append t p e.message h i))
          | inr o ↦ inr (
              rw low_text-append
                (Occurs-append (codes "execution reverted") (to_lower p) (low_text e.message r) o))
        ])
