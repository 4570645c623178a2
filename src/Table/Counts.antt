-- ===== src/Table/Counts.antt =====
-- How many rows of a map satisfy a test, as rows are written and removed.
use ai_cloudhub.Common.{
  ℕ, ◌+◌, ◌≤◌, ◌≡◌, Bool, true, false, List, [], ◌∷◌, some, arith, length, keep,
}
use ai_cloudhub.Text.{Text}
use ai_cloudhub.Table.{find, put, remove}

abbrev pub one_if : Bool → ℕ
one_if true = 1
one_if false = 0

module _ {A : Type 0} (p : A → Bool) where
  abbrev pub count : List A → ℕ
  count ds = length (keep p ds)

module _ {A : Type 0} (key : A → Text) (p : A → Bool) where
  -- A row under a key that is there takes the place of the old one.
  pub count-put :
      (d : A) (ds : List A) {old : A}
      → find key (key d) ds ≡ some old
      → count p (put key d ds) + one_if (p old) ≡ count p ds + one_if (p d)
  unfolding find put
  count-put d [] found = ground arith
  count-put d (x ∷ xs) {old} found = ground (arith, count-put d xs {old = old})

  pub count-put_le : (d : A) (ds : List A) → count p (put key d ds) ≤ count p ds + one_if (p d)
  unfolding put
  count-put_le d [] = ground arith
  count-put_le d (x ∷ xs) = ground (arith, count-put_le d xs)

  pub count-remove_le : (k : Text) (ds : List A) → count p (remove key k ds) ≤ count p ds
  unfolding remove
  count-remove_le k [] = omega arith
  count-remove_le k (x ∷ xs) = ground (arith, count-remove_le k xs)
