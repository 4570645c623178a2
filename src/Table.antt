-- ===== src/Table.antt =====
-- A Go map from a text to rows that hold their own key (`map[string]*Job` and its like), as the list
-- of its rows. Go visits a map in no set order: the list's order is the one that a loop meets, and a
-- theorem about every list is about every order.
use ai_cloudhub.Common.{List, [], ◌∷◌, Option, none, some, ◌≡◌, not, if◌then◌else◌, keep}
use ai_cloudhub.Text.{Text, ◌==◌}
pub mod Laws
pub mod Counts
pub mod Orders

module _ {A : Type 0} (key : A → Text) where
  -- m[k]
  unfoldable pub find : Text → List A → Option A
  find k [] = none
  find k (r ∷ rs) = if key r == k then some r else find k rs

  -- m[key r] = r
  unfoldable pub put : A → List A → List A
  put r [] = r ∷ []
  put r (x ∷ xs) = if key x == key r then r ∷ xs else x ∷ put r xs

  -- delete(m, k)
  unfoldable pub remove : Text → List A → List A
  remove k rows = keep (λ r. not (key r == k)) rows

  -- No key stands twice.
  abbrev pub Unique : List A → Type 0
  Unique [] = Unit
  Unique (r ∷ rs) = (find (key r) rs ≡ none) × Unique rs
