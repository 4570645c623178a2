-- ===== src/Auth/Accounts.antt =====
-- internal/auth/auth.go: accounts.
use ai_cloudhub.Common.{
  ℕ, Bool, not, ◌&&◌, ◌||◌, List, leb, ◌==◌ as nat_eq, length, keep, map, if◌then◌else◌,
}
use ai_cloudhub.Text.{Text, codes, ◌==◌, trim_space}
use ai_cloudhub.Action.{
  Result, ok, err, Action, return, fail, lift, reads, or_fail, or_wrap, ◌>>=◌, ◌>>◌, ◌and_then◌,
}
use ai_cloudhub.Memory.{
  Memory, User, role_or_user, create_user, get_user_by_username, get_user_by_id, count_users,
  update_user_role, update_user_password, bump_token_version, list_users,
}
use ai_cloudhub.Memory.Tokens.{revoke_refresh_tokens_for_user}
use ai_cloudhub.Auth.{
  Service, AuthUser, new_uuid, hash_password, is_bcrypt_hash, validate_username, validate_password,
}
use ai_cloudhub.Auth.Sessions.{TokenPair, issue_tokens}
pub mod Refused

abbrev pub admin : Text
admin = codes "admin"

abbrev pub user : Text
user = codes "user"

-- A name that a row holds is taken.
unfoldable pub free_username : Text → Memory → Result {0} Unit
unfolding get_user_by_username
free_username username m = elim (get_user_by_username username m) [
  | ok u ↦ err (codes "user exists")
  | err e ↦ ok tt
]

-- The row of an account, under a new identifier.
unfoldable pub insert_user : Service → Text → Text → Text → Action Memory AuthUser
unfolding new_uuid create_user
insert_user sv username hash role = do
  id ← new_uuid sv
  create_user
      (record { id = id; username = username; password = hash; role = role; token_version = 0 })
  return (record { id = id; username = username; role = role })

-- The first account is an administrator's.
unfoldable pub first_role : Memory → Text
unfolding count_users
first_role m = if nat_eq (count_users m) 0 then admin else user

unfoldable pub register : Service → Text → Text → Action Memory AuthUser
unfolding validate_username validate_password free_username hash_password first_role insert_user
register sv username password = do
  lift (validate_username (trim_space username))
  lift (validate_password password)
  reads (free_username (trim_space username))
  hash ← hash_password sv password
  role ← reads (λ m. ok (first_role m))
  insert_user sv (trim_space username) hash role

abbrev pub known_role : Text → Bool
known_role r = r == admin || r == user

unfoldable pub admin_create_user : Service → Text → Text → Text → Action Memory AuthUser
unfolding validate_username validate_password free_username hash_password insert_user role_or_user
admin_create_user sv username password role = do
  lift (validate_username (trim_space username))
  lift (validate_password password)
  if not (known_role (role_or_user (trim_space role)))
      then fail (codes "role must be admin or user")
      else (do
        reads (free_username (trim_space username))
        hash ← hash_password sv password
        insert_user sv (trim_space username) hash (role_or_user (trim_space role)))

-- A stored password is a bcrypt hash, or, from before, the password itself.
unfoldable pub password_matches : Service → Text → Text → Bool
unfolding is_bcrypt_hash
password_matches sv stored given =
    if is_bcrypt_hash stored then sv.bcrypt_matches stored given else stored == given

unfoldable pub bad_credentials : Text
bad_credentials = codes "invalid credentials"

-- A stored password that is not a hash yet is replaced by its hash.
unfoldable pub upgrade_password : Service → User → Text → Action Memory Unit
unfolding is_bcrypt_hash hash_password update_user_password
upgrade_password sv rec password = if is_bcrypt_hash rec.password then return tt else (do
  hash ← hash_password sv password
  or_wrap (codes "upgrade password hash: ") (update_user_password rec.id hash))

unfoldable pub login : Service → ℕ → Text → Text → Action Memory TokenPair
unfolding bad_credentials password_matches upgrade_password role_or_user issue_tokens
login sv now username password = do
  rec ← or_fail bad_credentials (reads (get_user_by_username username))
  if not (password_matches sv rec.password password) then fail bad_credentials else (do
    upgrade_password sv rec password
    issue_tokens sv now rec.id rec.username (role_or_user rec.role) rec.token_version)

-- countAdmins
unfoldable pub count_admins : Memory → ℕ
unfolding list_users
count_admins m = length (keep (λ u. u.role == admin) (list_users m))

-- Whether a change of role would leave the store without an administrator.
unfoldable pub demotes_last : Text → Text → Memory → Bool
unfolding count_admins role_or_user
demotes_last current role m =
    role_or_user current == admin && role == user && leb (count_admins m) 1

unfoldable pub set_role : Text → Text → Action Memory Unit
unfolding get_user_by_id demotes_last update_user_role
set_role user_id role =
    if not (known_role (trim_space role)) then fail (codes "role must be admin or user") else (do
      cur ← or_fail (codes "user not found") (reads (get_user_by_id user_id))
      last ← reads (λ m. ok (demotes_last cur.role (trim_space role) m))
      if last
          then fail (codes "cannot demote the last admin")
          else update_user_role user_id (trim_space role))

-- Every session of the account ends.
unfoldable pub change_password : Service → Text → Text → Text → Action Memory Unit
unfolding validate_password password_matches bad_credentials hash_password update_user_password
change_password sv user_id old_password new_password = do
  lift (validate_password new_password)
  u ← or_fail (codes "user not found") (reads (get_user_by_id user_id))
  if not (password_matches sv u.password old_password) then fail bad_credentials else (do
    hash ← hash_password sv new_password
    update_user_password user_id hash
    revoke_refresh_tokens_for_user user_id and_then bump_token_version user_id and_then return tt)

unfoldable pub public_user : User → AuthUser
unfolding role_or_user
public_user u = record { id = u.id; username = u.username; role = role_or_user u.role }

unfoldable pub get_user : Text → Action Memory AuthUser
unfolding get_user_by_id public_user
get_user id = do u ← reads (get_user_by_id id); return (public_user u)

unfoldable pub list_public : Memory → List AuthUser
unfolding list_users public_user
list_public m = map public_user (list_users m)
