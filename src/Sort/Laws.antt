-- ===== src/Sort/Laws.antt =====
-- About the exchange sort of internal/store/memory.go: its order and its elements.
use mathlib.Core.List.{Perm}
use mathlib.Core.List.Perm
use ai_cloudhub.Common.{
  true, false, ◌≤◌, ℕ, zero, suc, List, [], ◌∷◌, Bool, false, ◌≡◌, refl, ap, if◌then◌else◌, length,
  All, All-intro, All-lookup, Has, inl, inr, arith, Bool-cases, ◌↔◌,
}
use ai_cloudhub.Sort.{sweep, sort_rounds, exchange_sort, IsSorted, StrictWeak}

module _ {A : Type 0} (before : A → A → Bool) where
  sweep-perm : (x : A) (ys : List A) → Perm ((sweep before x ys).0 ∷ (sweep before x ys).1) (x ∷ ys)
  unfolding sweep
  sweep-perm x [] = Perm.refl (x ∷ [])
  sweep-perm x (y ∷ ys) = elim (Bool-cases (before y x)) [
    | inl e ↦ rw e (Perm.trans (Perm.swap _ _ _) (Perm.cons x (sweep-perm y ys)))
    | inr e ↦ rw e (
        Perm.trans (Perm.swap _ _ _) (Perm.trans (Perm.cons y (sweep-perm x ys)) (Perm.swap _ _ _)))
  ]

  sweep-Has :
      (a x : A) (ys : List A)
      → Has a ((sweep before x ys).0 ∷ (sweep before x ys).1)
      → Has a (x ∷ ys)
  unfolding sweep
  sweep-Has a x [] h = h
  sweep-Has a x (y ∷ ys) h = ground (arith, sweep-Has a x ys, sweep-Has a y ys)

  Has-sweep :
      (a x : A) (ys : List A)
      → Has a (x ∷ ys)
      → Has a ((sweep before x ys).0 ∷ (sweep before x ys).1)
  unfolding sweep
  Has-sweep a x [] h = h
  Has-sweep a x (y ∷ ys) h = ground (arith, Has-sweep a x ys, Has-sweep a y ys)

  length-sweep : (x : A) (ys : List A) → length (sweep before x ys).1 ≡ length ys
  unfolding sweep
  length-sweep x [] = refl
  length-sweep x (y ∷ ys) = ap suc (length-sweep (if before y x then y else x) ys)

  sort_rounds-perm : (n : ℕ) (xs : List A) → Perm (sort_rounds before n xs) xs
  unfolding sort_rounds
  sort_rounds-perm zero xs = Perm.refl xs
  sort_rounds-perm (suc n) [] = Perm.refl []
  sort_rounds-perm (suc n) (x ∷ xs) =
      Perm.trans (Perm.cons (sweep before x xs).0 (sort_rounds-perm n (sweep before x xs).1))
        (sweep-perm x xs)

  -- The sorted list holds what the list held, as often.
  pub exchange_sort-perm : (xs : List A) → Perm (exchange_sort before xs) xs
  unfolding exchange_sort
  exchange_sort-perm xs = sort_rounds-perm (length xs) xs

  sort_rounds-Has : (n : ℕ) (a : A) (xs : List A) → Has a (sort_rounds before n xs) → Has a xs
  unfolding sort_rounds
  sort_rounds-Has zero a xs h = h
  sort_rounds-Has (suc n) a [] h = h
  sort_rounds-Has (suc n) a (x ∷ xs) (inl e) = sweep-Has a x xs (inl e)
  sort_rounds-Has (suc n) a (x ∷ xs) (inr h) =
      sweep-Has a x xs (inr (sort_rounds-Has n a (sweep before x xs).1 h))

  Has-sort_rounds : (n : ℕ) (a : A) (xs : List A) → Has a xs → Has a (sort_rounds before n xs)
  unfolding sort_rounds
  Has-sort_rounds zero a xs h = h
  Has-sort_rounds (suc n) a [] h = h
  Has-sort_rounds (suc n) a (x ∷ xs) h = elim (Has-sweep a x xs h) [
    | inl e ↦ inl e
    | inr k ↦ inr (Has-sort_rounds n a (sweep before x xs).1 k)
  ]

  pub exchange_sort-Has : (a : A) (xs : List A) → Has a (exchange_sort before xs) ↔ Has a xs
  unfolding exchange_sort
  exchange_sort-Has a xs = (sort_rounds-Has (length xs) a xs, Has-sort_rounds (length xs) a xs)

  module _ (order : StrictWeak before) where
    pub StrictWeak-irrefl : (x : A) → before x x ≡ false
    StrictWeak-irrefl x = elim (Bool-cases (before x x)) [ inl e ↦ order.asymm x x e | inr e ↦ e ]

    sweep-least :
        (x : A) (ys : List A)
        → All (λ z. before z (sweep before x ys).0 ≡ false) (sweep before x ys).1
          × (before x (sweep before x ys).0 ≡ false)
    unfolding sweep
    sweep-least x [] = (tt, StrictWeak-irrefl x)
    sweep-least x (y ∷ ys) = split (before y x) refl (sweep-least y ys) (sweep-least x ys)
      where
        Least : A → List A → Type 0
        Least m zs = All (λ z. before z m ≡ false) zs

        split :
            (b : Bool)
            → before y x ≡ b
            → Least (sweep before y ys).0 (sweep before y ys).1
              × (before y (sweep before y ys).0 ≡ false)
            → Least (sweep before x ys).0 (sweep before x ys).1
              × (before x (sweep before x ys).0 ≡ false)
            → let s = sweep before (if b then y else x) ys in
              Least s.0 ((if b then x else y) ∷ s.1) × (before x s.0 ≡ false)
        split true e (rest, least) _ =
            let x_least = order.cotrans x y _ (order.asymm y x e) least in
            ((x_least, rest), x_least)
        split false e _ (rest, least) = ((order.cotrans y x _ e least, rest), least)

    sort_rounds-IsSorted :
        (n : ℕ) (xs : List A) → length xs ≤ n → IsSorted before (sort_rounds before n xs)
    unfolding sort_rounds
    sort_rounds-IsSorted zero [] h = tt
    sort_rounds-IsSorted zero (x ∷ xs) h = absurd (omega arith)
    sort_rounds-IsSorted (suc n) [] h = tt
    sort_rounds-IsSorted (suc n) (x ∷ xs) h = (
      All-intro _ _ (λ a m.
          All-lookup _ _ a (sweep-least x xs).0 (sort_rounds-Has n a (sweep before x xs).1 m)),
      sort_rounds-IsSorted n (sweep before x xs).1 (omega (arith, length-sweep x xs)),
    )

    -- For a strict weak order, the exchange sort of the store leaves no element behind one that it should
    -- precede.
    pub exchange_sort-IsSorted : (xs : List A) → IsSorted before (exchange_sort before xs)
    unfolding exchange_sort
    exchange_sort-IsSorted xs = sort_rounds-IsSorted (length xs) xs (omega arith)
