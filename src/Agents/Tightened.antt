-- ===== src/Agents/Tightened.antt =====
-- internal/agent/service.go: what counts as taking something from an agent.
use ai_cloudhub.Common.{Bool, true, false, not, ◌&&◌, ◌||◌, List, [], ◌∷◌, if◌then◌else◌}
use ai_cloudhub.Text.{Text, ◌==◌}
use ai_cloudhub.Policy.{contains}
pub mod Laws

abbrev pub is_none : List Text → Bool
is_none [] = true
is_none (x ∷ xs) = false

-- A key of the old set that the new one has not.
unfoldable pub drops_one : List Text → List Text → Bool
unfolding contains
drops_one [] new = false
drops_one (x ∷ old) new = not (contains new x) || drops_one old new

unfoldable pub string_slices_equal : List Text → List Text → Bool
string_slices_equal [] [] = true
string_slices_equal [] (y ∷ ys) = false
string_slices_equal (x ∷ xs) [] = false
string_slices_equal (x ∷ xs) (y ∷ ys) = x == y && string_slices_equal xs ys

unfoldable pub scopes_tightened : List Text → List Text → Bool
unfolding drops_one string_slices_equal
scopes_tightened old new = not (string_slices_equal old new) && drops_one old new

-- An empty list of drives or of prefixes is no restriction.
unfoldable pub drives_tightened : List Text → List Text → Bool
unfolding drops_one string_slices_equal
drives_tightened old new =
    if string_slices_equal old new
    then false
    else if is_none old && not (is_none new)
    then true
    else if not (is_none old) && is_none new
    then false
    else drops_one old new

unfoldable pub prefixes_tightened : List Text → List Text → Bool
unfolding drives_tightened
prefixes_tightened old new = drives_tightened old new
