-- ===== src/Memory/Laws.antt =====
-- About the users of internal/store/memory.go.
use ai_cloudhub.Common.{◌≡◌, refl, Bool, List, [], ◌∷◌, Option, none, some, if◌then◌else◌, arith}
use ai_cloudhub.Text.{Text, ◌==◌}
use ai_cloudhub.Text.Laws.{==_iff}
use ai_cloudhub.Table.{find, put}
use ai_cloudhub.Memory.{User, user_key, find_user, change_user}

-- A row under a new name stands behind the rows that were there.
pub find_user-put :
    (r : User) (id : Text) (t : List User) {u : User}
    → find user_key r.username t ≡ none
    → find_user id t ≡ some u
    → find_user id (put user_key r t) ≡ some u
unfolding find put find_user
find_user-put r id [] new found = ground arith
find_user-put r id (x ∷ xs) {u} new found = ground (arith, find_user-put r id xs {u = u})

abbrev pub changed_if : Bool → (User → User) → Option User → Option User
changed_if b f none = none
changed_if b f (some u) = some (if b then f u else u)

pub find_user-change :
    (f : User → User)
    → ((u : User) → (f u).id ≡ u.id)
    → (j id : Text) (t : List User)
    → find_user id (change_user j f t) ≡ changed_if (j == id) f (find_user id t)
unfolding find_user change_user
find_user-change f same j id [] = refl
find_user-change f same j id (x ∷ xs) =
    ground
      (arith, same x, ==_iff x.id j, ==_iff x.id id, ==_iff j id, find_user-change f same j id xs)
