-- ===== src/Table/Orders.antt =====
-- A map's rows in another order.
use mathlib.Core.List.{Permᴰ}
use ai_cloudhub.Common.{
  suc, false, List, [], ◌∷◌, map, none, ◌≡◌, refl, ap, subst, ◌∙◌, length, arith, All,
}
use ai_cloudhub.Text.{Text, ◌==◌}
use ai_cloudhub.Text.Laws.{==_sym}
use ai_cloudhub.Table.{find, Unique}

module _ {A : Type 0} where
  pub All-perm : (P : A → Type 0) {l l' : List A} → Permᴰ l l' → All P l → All P l'
  All-perm P Permᴰ.nil h = h
  All-perm P (Permᴰ.cons e d) (x, h) = (subst P e x, All-perm P d h)
  All-perm P (Permᴰ.swap e e') (x, (y, h)) = (subst P e' y, (subst P e x, h))
  All-perm P (Permᴰ.trans d d') h = All-perm P d' (All-perm P d h)

  pub length-perm : {l l' : List A} → Permᴰ l l' → length l ≡ length l'
  length-perm Permᴰ.nil = refl
  length-perm (Permᴰ.cons e d) = ap suc (length-perm d)
  length-perm (Permᴰ.swap e e') = refl
  length-perm (Permᴰ.trans d d') = length-perm d ∙ length-perm d'

  pub map-perm : {B : Type 0} (f : A → B) {l l' : List A} → Permᴰ l l' → Permᴰ (map f l) (map f l')
  map-perm f Permᴰ.nil = Permᴰ.nil
  map-perm f (Permᴰ.cons e d) = Permᴰ.cons (ap f e) (map-perm f d)
  map-perm f (Permᴰ.swap e e') = Permᴰ.swap (ap f e) (ap f e')
  map-perm f (Permᴰ.trans d d') = Permᴰ.trans (map-perm f d) (map-perm f d')

  module _ (key : A → Text) where
    -- A key that is nowhere, and keys that stand once, as predicates on every row.
    absent-All : (k : Text) (l : List A) → find key k l ≡ none → All (λ x. (key x == k) ≡ false) l
    unfolding find
    absent-All k [] h = tt
    absent-All k (x ∷ xs) h = let rest = absent-All k xs in (ground arith, rest (ground arith))

    All-absent : (k : Text) (l : List A) → All (λ x. (key x == k) ≡ false) l → find key k l ≡ none
    unfolding find
    All-absent k [] h = refl
    All-absent k (x ∷ xs) (other, h) = ground (arith, All-absent k xs h)

    absent-perm :
        (k : Text) {l l' : List A} → Permᴰ l l' → find key k l ≡ none → find key k l' ≡ none
    absent-perm k {l} {l'} d h = All-absent k l' (All-perm _ d (absent-All k l h))

    pub Unique-perm : {l l' : List A} → Permᴰ l l' → Unique key l → Unique key l'
    unfolding find
    Unique-perm Permᴰ.nil u = u
    Unique-perm (Permᴰ.cons {b = b} {l₂ = l₂} e d) (new, u) =
        (subst (λ x. find key (key x) l₂ ≡ none) e (absent-perm _ d new), Unique-perm d u)
    Unique-perm (Permᴰ.swap {a = a} {b = b} {a' = a'} {b' = b'} {l = l} e e') (first, (second, u)) =
        swapped (ap key e) (ap key e')
      where
        swapped : key a ≡ key b' → key b ≡ key a' → Unique key (a' ∷ b' ∷ l)
        swapped same same' = ground (arith, first, second, u, same, same', ==_sym (key a) (key b))
    Unique-perm (Permᴰ.trans d d') u = Unique-perm d' (Unique-perm d u)
