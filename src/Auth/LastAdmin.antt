-- ===== src/Auth/LastAdmin.antt =====
-- About SetRole of internal/auth/auth.go, and the other calls that touch an account.
use ai_cloudhub.Common.{
  ℕ, ◌+◌, ◌≤◌, ◌≡◌, refl, Bool, true, false, List, [], ◌∷◌, none, some, Option-cases, Bool-cases,
  inl, inr, arith, map, keep, length,
}
use ai_cloudhub.Text.{Text, codes, ◌==◌, trim_space}
use ai_cloudhub.Table.{find, put}
use ai_cloudhub.Action.{return, fail, reads, or_fail, ◌>>=◌}
use ai_cloudhub.Action.Keeps.{Keeps}
use ai_cloudhub.Memory.{
  Memory, User, user_key, with_role, role_or_user, find_user, change_user, create_user,
  update_user_role, update_user_password, bump_token_version, get_user_by_id, list_users,
}
use ai_cloudhub.Auth.{Service, new_uuid, draw}
use ai_cloudhub.Auth.Accounts.{admin, known_role, insert_user, count_admins, demotes_last, set_role}
use ai_cloudhub.Auth.Calls.{AuthCall, perform_all}
use ai_cloudhub.Auth.Calls.Kept.{Writes, always, perform_all-Kept}
use ai_cloudhub.Auth.Calls.Frames.{users-Writes}

abbrev is_admin : User → Bool
is_admin u = u.role == admin

-- How many rows hold the role of an administrator.
abbrev pub admins : List User → ℕ
admins us = length (keep is_admin us)

role_admin : (r : Text) → (role_or_user r == admin) ≡ (r == admin)
unfolding role_or_user ◌==◌
role_admin [] = refl
role_admin (c ∷ cs) = refl

listed_admins :
    (us : List User)
    → length (keep is_admin (map (λ u. record (with_role u) { password = codes "" }) us))
      ≡ admins us
unfolding with_role
listed_admins [] = refl
listed_admins (u ∷ us) = ground (arith, listed_admins us, role_admin u.role)

count_admins_lem : (m : Memory) → count_admins m ≡ admins m.users
unfolding count_admins list_users
count_admins_lem m = listed_admins m.users

admins-put :
    (r : User) (us : List User)
    → find user_key r.username us ≡ none
    → admins us ≤ admins (put user_key r us)
unfolding find put
admins-put r [] new = ground arith
admins-put r (x ∷ xs) new = ground (arith, admins-put r xs)

abbrev one_if : Bool → ℕ
one_if true = 1
one_if false = 0

-- A change of one row changes the count by that row.
admins-change :
    (f : User → User) (id : Text) (us : List User) {u : User}
    → find_user id us ≡ some u
    → admins (change_user id f us) + one_if (is_admin u) ≡ admins us + one_if (is_admin (f u))
unfolding find_user change_user
admins-change f id [] found = ground arith
admins-change f id (x ∷ xs) {u} found = ground (arith, admins-change f id xs {u = u})

abbrev HasAdmin : List User → Type 0
HasAdmin us = 1 ≤ admins us

insert-HasAdmin :
    (sv : Service) (n h r : Text) → Keeps (λ m. HasAdmin m.users) (insert_user sv n h r)
unfolding insert_user new_uuid draw ◌>>=◌ create_user return with_role
insert-HasAdmin sv n h r = record {
  kept = λ m p. elim (Option-cases (find user_key n m.users)) [
    | inl new ↦ rw new (omega (arith, p, admins-put _ m.users new))
    | inr (old, taken) ↦ rw taken p
  ];
}

password-HasAdmin : (u h : Text) → Keeps (λ m. HasAdmin m.users) (update_user_password u h)
unfolding update_user_password
password-HasAdmin u h = record {
  kept = λ m p. elim (Option-cases (find_user u m.users)) [
    | inl missing ↦ rw (missing, update_user_password) p
    | inr (x, there) ↦
        rw (there, update_user_password) (omega (arith, admins-change _ u m.users {u = x} there))
  ];
}

bump-HasAdmin : (u : Text) → Keeps (λ m. HasAdmin m.users) (bump_token_version u)
unfolding bump_token_version
bump-HasAdmin u = record {
  kept = λ m p. elim (Option-cases (find_user u m.users)) [
    | inl missing ↦ rw (missing, bump_token_version) p
    | inr (x, there) ↦
        rw (there, bump_token_version) (omega (arith, admins-change _ u m.users {u = x} there))
  ];
}

-- What SetRole checks is enough.
demoted-HasAdmin :
    (r u : Text) (x : User) (m : Memory)
    → find_user u m.users ≡ some x
    → known_role r ≡ true
    → demotes_last (with_role x).role r m ≡ false
    → HasAdmin m.users
    → HasAdmin (change_user u (λ y. record y { role = r }) m.users)
unfolding demotes_last with_role
demoted-HasAdmin r u x m there good more p = ground (
  arith,
  admins-change (λ y. record y { role = r }) u m.users {u = x} there,
  count_admins_lem m,
  role_admin x.role,
  role_admin (role_or_user x.role),
)

role-HasAdmin : (u r : Text) → Keeps (λ m. HasAdmin m.users) (set_role u r)
unfolding set_role ◌>>=◌ or_fail reads return fail update_user_role get_user_by_id
role-HasAdmin u r = record {
  kept = λ m p. elim (Bool-cases (known_role (trim_space r))) [
    | inr bad ↦ rw (bad, set_role) p
    | inl good ↦ elim (Option-cases (find_user u m.users)) [
      | inl missing ↦ rw (good, missing, set_role, get_user_by_id) p
      | inr (x, there) ↦ elim (Bool-cases (demotes_last (with_role x).role (trim_space r) m)) [
        | inl last ↦ rw (good, there, set_role, get_user_by_id, last) p
        | inr more ↦
            rw (good, there, set_role, get_user_by_id, more, update_user_role, there)
              (demoted-HasAdmin (trim_space r) u x m there good more p)
      ]
    ]
  ];
}

-- A store with an administrator keeps one, whatever calls are made and in whatever order.
pub always-HasAdmin :
    (sv : Service) (cs : List (ℕ × AuthCall)) (m : Memory)
    → 1 ≤ admins m.users
    → 1 ≤ admins (perform_all sv cs m).users
always-HasAdmin sv cs m p =
    let w : Writes sv (λ now. Unit) (λ m. HasAdmin m.users) =
      users-Writes sv (λ now. Unit) HasAdmin (insert-HasAdmin sv) role-HasAdmin password-HasAdmin
        bump-HasAdmin in
    perform_all-Kept w cs m (always cs) p
