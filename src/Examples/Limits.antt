-- ===== src/Examples/Limits.antt =====
-- The theorems on refused logins and on drives, at the store of Sessions.antt.
use ai_cloudhub.Common.{◌≡◌, refl, [], ◌∷◌, List, arith}
use ai_cloudhub.Text.{codes, ◌==◌, has_prefix}
use ai_cloudhub.Table.{find}
use ai_cloudhub.Auth.{is_bcrypt_hash}
use ai_cloudhub.Int.{pos}
use ai_cloudhub.Action.{ok, err}
use ai_cloudhub.Memory.{User, get_user_by_username, with_role}
use ai_cloudhub.Auth.Accounts.{login, password_matches}
use ai_cloudhub.Auth.Accounts.Refused.{login-refused}
use ai_cloudhub.Drives.{Drives, CreateInput}
use ai_cloudhub.Drives.Bindings.{BindingCreate}
use ai_cloudhub.Drives.Calls.{DriveCall, creates, creates_binding, sets_desired, perform_all}
use ai_cloudhub.Drives.Limits.{WithinLimits, drives-Limited}
use ai_cloudhub.Examples.Sessions.{auth_service, store}

ann_only :
    (u : User) → get_user_by_username (codes "ann") store ≡ ok u → u.password ≡ codes "$2a$secret"
unfolding get_user_by_username find with_role ◌==◌
ann_only u known = ground arith

login-refused_example :
    login auth_service 5 (codes "ann") (codes "guess") store
    ≡ (err (codes "invalid credentials"), store)
unfolding password_matches is_bcrypt_hash has_prefix ◌==◌
login-refused_example =
    login-refused auth_service 5 (codes "ann") (codes "guess") store
      (λ u known. rw (ann_only u known) refl)

abbrev drive_service : Drives
drive_service = record {
  auth = auth_service;
  quota = pos 1;
  binding_quota = pos 1;
  get_provider = λ u p. ok tt;
  default_mount_point = codes "/workspace";
}

abbrev wanted : CreateInput
wanted = record {
  name = codes "docs";
  alias = codes "a";
  provider_id = codes "p";
  bucket = codes "b";
  prefix = [];
  mount_point = [];
  region = [];
}

abbrev mounted_at : BindingCreate
mounted_at = record {
  drive_id = codes "d1";
  device_id = [];
  mount_point = [];
  mode = [];
  desired = [];
}

abbrev twice : List DriveCall
twice =
    creates 5 (codes "u") wanted
    ∷ creates 6 (codes "u") wanted
    ∷ creates_binding 7 (codes "u") mounted_at
    ∷ sets_desired 8 (codes "u") (codes "b1") (codes "unmounted")
    ∷ []

drives-Limited_example : WithinLimits drive_service (perform_all drive_service twice store)
drives-Limited_example =
    drives-Limited drive_service twice store (λ u. omega arith, λ u a given. omega arith)
      λ u. omega arith
