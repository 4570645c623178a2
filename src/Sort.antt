-- ===== src/Sort.antt =====
-- The exchange sort that internal/store/memory.go writes out in each of its listings:
-- `for i { for k > i { if before(out[k], out[i]) { swap } } }`.
use ai_cloudhub.Common.{
  ℕ, zero, suc, List, [], ◌∷◌, Bool, true, false, ◌≡◌, if◌then◌else◌, length, All,
}
pub mod Laws
pub mod Keys

module _ {A : Type 0} (before : A → A → Bool) where
  -- One round of the outer loop, at position `i` with `x = out[i]`: what ends there, and what
  -- stands behind it.
  sweep : A → List A → A × List A
  sweep x [] = (x, [])
  sweep x (y ∷ ys) =
      let (m, rest) = sweep (if before y x then y else x) ys in
      (m, (if before y x then x else y) ∷ rest)

  sort_rounds : ℕ → List A → List A
  sort_rounds zero xs = xs
  sort_rounds (suc n) [] = []
  sort_rounds (suc n) (x ∷ xs) = let (m, rest) = sweep x xs in m ∷ sort_rounds n rest

  unfoldable pub exchange_sort : List A → List A
  unfolding sort_rounds sweep
  exchange_sort xs = sort_rounds (length xs) xs

  -- No element stands behind one that it should precede.
  abbrev pub IsSorted : List A → Type 0
  IsSorted [] = Unit
  IsSorted (x ∷ xs) = All (λ y. before y x ≡ false) xs × IsSorted xs

  -- What makes `before` a usable order: two elements do not precede one another, and not to precede
  -- is transitive.
  pub record StrictWeak : Type 0 where
    pub asymm : (x y : A) → before x y ≡ true → before y x ≡ false
    pub cotrans : (x y z : A) → before x y ≡ false → before y z ≡ false → before x z ≡ false
