-- ===== src/Text/Parts.antt =====
-- What strings.HasPrefix, HasSuffix, Contains and TrimPrefix say of the parts of a text.
use ai_cloudhub.Common.{
  [], ◌∷◌, ◌++◌, reverse, drop, length, ◌≡◌, refl, sym, ap, ◌∙◌, ◌⊎◌, inl, inr, true, Bool-cases,
  arith,
}
use mathlib.Core.List.{reverse-append, reverse-reverse}
use ai_cloudhub.Text.{Text, has_prefix, has_suffix, contains_text, trim_prefix}

pub has_prefix-split : (s p : Text) → has_prefix s p ≡ true → s ≡ p ++ drop (length p) s
unfolding has_prefix
has_prefix-split s [] h = refl
has_prefix-split [] (c ∷ p) h = absurd (ground arith)
has_prefix-split (d ∷ s) (c ∷ p) h = ground (arith, has_prefix-split s p)

pub has_suffix-split : (s p : Text) → has_suffix s p ≡ true → (front : Text) × (s ≡ front ++ p)
unfolding has_suffix
has_suffix-split s p h =
    let rest = drop (length (reverse p)) (reverse s) in
    (
      reverse rest,
      sym (reverse-reverse s)
          ∙ ap reverse (has_prefix-split (reverse s) (reverse p) h)
          ∙ reverse-append (reverse p) rest
          ∙ ap (λ t. reverse rest ++ t) (reverse-reverse p),
    )

pub contains_text-split :
    (s p : Text)
    → contains_text s p ≡ true
    → (front : Text) × (back : Text) × (s ≡ front ++ (p ++ back))
unfolding contains_text
contains_text-split [] p h = ([], drop (length p) [], has_prefix-split [] p h)
contains_text-split (c ∷ s) p h = elim (Bool-cases (has_prefix (c ∷ s) p)) [
  | inl starts ↦ ([], drop (length p) (c ∷ s), has_prefix-split (c ∷ s) p starts)
  | inr later ↦
      let (front, back, e) = contains_text-split s p (ground arith) in
      (c ∷ front, back, ap (λ l. c ∷ l) e)
]

-- Cutting a prefix off leaves the text, or what stands behind the prefix.
pub trim_prefix-split : (s p : Text) → (s ≡ trim_prefix s p) ⊎ (s ≡ p ++ trim_prefix s p)
unfolding trim_prefix
trim_prefix-split s p = elim (Bool-cases (has_prefix s p)) [
  | inl starts ↦ inr (rw starts (has_prefix-split s p starts))
  | inr other ↦ inl (rw other refl)
]
