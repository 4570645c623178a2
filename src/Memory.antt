-- ===== src/Memory.antt =====
-- internal/store/memory.go: the in-memory store, with the maps of the accounts: users, refresh
-- tokens, revoked tokens, agents, drives, bindings and the audit log. Each method runs under
-- the store's mutex, so it is one step. A time is in nanoseconds since 1970, and `now` is a method's
-- reading of the clock. `drawn` counts the random values that have been given.
use ai_cloudhub.Common.{
  ℕ, suc, ◌+◌, ◌-◌, Bool, true, false, not, ◌&&◌, ◌||◌, List, [], ◌∷◌, ◌++◌, Option, none, some,
  ltb, leb, ◌==◌ as nat_eq, if◌then◌else◌, keep, map, take, drop, length, reverse,
}
use ai_cloudhub.Text.{Text, codes, ◌==◌, is_empty}
use ai_cloudhub.Table.{find, put}
use ai_cloudhub.Action.{Result, ok, err, Action}
pub mod Tokens
pub mod Agents
pub mod Bindings
pub mod Audit
pub mod Laws

pub record User : Type 0 where
  pub id : Text
  pub username : Text
  pub password : Text
  pub role : Text
  pub token_version : ℕ

pub record RefreshToken : Type 0 where
  pub id : Text
  pub user_id : Text
  pub token_hash : Text
  pub expires_at : ℕ
  pub created_at : ℕ
  pub revoked : Bool

-- An entry of revokedJTI.
pub record RevokedJti : Type 0 where
  pub jti : Text
  pub expires_at : ℕ

pub record Agent : Type 0 where
  pub id : Text
  pub owner_user_id : Text
  pub name : Text
  pub description : Text
  pub status : Text
  pub default_scopes : List Text
  pub allowed_drive_ids : List Text
  pub read_prefixes : List Text
  pub write_prefixes : List Text
  pub token_version : ℕ
  pub created_at : ℕ

pub record Drive : Type 0 where
  pub id : Text
  pub user_id : Text
  pub name : Text
  pub alias : Text
  pub provider_id : Text
  pub bucket : Text
  pub prefix : Text
  pub mount_point : Text
  pub region : Text
  pub created_at : ℕ

pub record Binding : Type 0 where
  pub id : Text
  pub user_id : Text
  pub drive_id : Text
  pub device_id : Text
  pub mount_point : Text
  pub mode : Text
  pub desired : Text
  pub actual : Text
  pub last_error : Text
  pub updated_at : ℕ
  pub created_at : ℕ

pub record AuditEvent : Type 0 where
  pub id : Text
  pub user_id : Text
  pub agent_id : Text
  pub action : Text
  pub target : Text
  pub detail : Text
  pub created_at : ℕ

pub record AuditFilter : Type 0 where
  pub limit : ℕ
  pub user_id : Text
  pub agent_id : Text
  pub action : Text

pub record Memory : Type 0 where
  pub users : List User
  pub refresh : List RefreshToken
  pub revoked_jti : List RevokedJti
  pub agents : List Agent
  pub drives : List Drive
  pub bindings : List Binding
  pub audits : List AuditEvent
  pub drawn : ℕ

abbrev pub user_key : User → Text
user_key u = u.username

abbrev pub refresh_key : RefreshToken → Text
refresh_key t = t.id

abbrev pub jti_key : RevokedJti → Text
jti_key r = r.jti

abbrev pub agent_key : Agent → Text
agent_key a = a.id

abbrev pub drive_key : Drive → Text
drive_key d = d.id

abbrev pub binding_key : Binding → Text
binding_key b = b.id

-- `if cp.Role == "" { cp.Role = "user" }`
unfoldable pub role_or_user : Text → Text
role_or_user r = if is_empty r then codes "user" else r

unfoldable pub with_role : User → User
unfolding role_or_user
with_role u = record u { role = role_or_user u.role }

unfoldable pub create_user : User → Action Memory Unit
unfolding with_role find put
create_user u m = elim (find user_key u.username m.users) [
  | some old ↦ (err (codes "user exists"), m)
  | none ↦ (ok tt, record m { users = put user_key (with_role u) m.users })
]

abbrev found_user : Option User → Result User
found_user none = err (codes "user not found")
found_user (some u) = ok (with_role u)

unfoldable pub get_user_by_username : Text → Memory → Result User
get_user_by_username username m = found_user (find user_key username m.users)

-- The first row that the loop meets with this identifier.
unfoldable pub find_user : Text → List User → Option User
find_user id [] = none
find_user id (u ∷ us) = if u.id == id then some u else find_user id us

unfoldable pub get_user_by_id : Text → Memory → Result User
get_user_by_id id m = found_user (find_user id m.users)

unfoldable pub count_users : Memory → ℕ
count_users m = length m.users

-- The write of the loops that look for a user: the first row with this identifier.
unfoldable pub change_user : Text → (User → User) → List User → List User
change_user id f [] = []
change_user id f (u ∷ us) = if u.id == id then f u ∷ us else u ∷ change_user id f us

unfoldable pub update_user_role : Text → Text → Action Memory Unit
unfolding find_user change_user
update_user_role user_id role m = elim (find_user user_id m.users) [
  | none ↦ (err (codes "user not found"), m)
  | some u ↦
      (ok tt, record m { users = change_user user_id (λ u. record u { role = role }) m.users })
]

unfoldable pub update_user_password : Text → Text → Action Memory Unit
unfolding find_user change_user
update_user_password user_id hash m = elim (find_user user_id m.users) [
  | none ↦ (err (codes "user not found"), m)
  | some u ↦
      (ok tt, record m { users = change_user user_id (λ u. record u { password = hash }) m.users })
]

-- The version is a Go `int` that starts at 0: 2^63 increments are out of reach.
unfoldable pub bump_token_version : Text → Action Memory ℕ
unfolding find_user change_user
bump_token_version user_id m = elim (find_user user_id m.users) [
  | none ↦ (err (codes "user not found"), m)
  | some u ↦ (
    ok (suc u.token_version),
    record m {
      users = change_user user_id (λ u. record u { token_version = suc u.token_version }) m.users;
    },
  )
]

-- Passwords are never listed.
unfoldable pub list_users : Memory → List User
unfolding with_role
list_users m = map (λ u. record (with_role u) { password = codes "" }) m.users
