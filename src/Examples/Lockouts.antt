-- ===== src/Examples/Lockouts.antt =====
-- The theorems on the lockout, at the store of Sessions.antt.
use ai_cloudhub.Common.{◌≡◌, refl, true, [], ◌∷◌, arith}
use ai_cloudhub.Text.{Text, codes, ◌==◌, trim_space, has_prefix}
use ai_cloudhub.Table.{find}
use ai_cloudhub.Action.{◌>>=◌, or_fail, reads, fail}
use ai_cloudhub.Memory.{with_role, get_user_by_username}
use ai_cloudhub.Lockout.{
  FailEntry, Limits, Gate, Attempt, lock_key, handle_login, handle_all, too_many,
}
use ai_cloudhub.Lockout.Laws.{LockedSince, lockout-holds}
use ai_cloudhub.Lockout.Starts.{lockout-starts}
use ai_cloudhub.Examples.Sessions.{auth_service, store}

abbrev limits : Limits
limits = record { max_fail = 2; window = 100 }

abbrev wrong : Attempt
wrong = record {
  now = 10;
  ip = codes "i";
  allowed = true;
  username = codes "ann";
  password = codes "guess";
}

abbrev right : Attempt
right = record wrong { now = 60; password = codes "secret" }

abbrev unlocked : Gate
unlocked = record { memory = store; failures = [] }

abbrev entry : FailEntry
entry = record { key = codes "user:ann|ip:i"; count = 2; first = 10 }

abbrev shut : Gate
shut = record { memory = store; failures = entry ∷ [] }

lockout-holds_example :
    let g1 = handle_all auth_service limits (λ x. x) (wrong ∷ []) shut in
    ((why : Text) × ((handle_login auth_service limits (λ x. x) right g1).1 ≡ too_many why))
    × ((handle_login auth_service limits (λ x. x) right g1).0.memory.users ≡ g1.memory.users)
    × ((handle_login auth_service limits (λ x. x) right g1).0.memory.refresh ≡ g1.memory.refresh)
unfolding lock_key trim_space find ◌==◌
lockout-holds_example =
    lockout-holds auth_service limits (λ x. x) (codes "user:ann|ip:i") 10 (wrong ∷ []) right shut
      (omega arith, tt) (omega arith) refl (entry, refl, refl, omega arith)

lockout-starts_example :
    LockedSince limits
      (codes "user:ann|ip:i")
      10
      (handle_all auth_service limits (λ x. x) (wrong ∷ wrong ∷ []) unlocked).failures
unfolding lock_key trim_space handle_login ◌>>=◌ or_fail reads get_user_by_username ◌==◌ has_prefix
    with_role fail find
lockout-starts_example =
    lockout-starts auth_service limits (λ x. x) (codes "user:ann|ip:i") 10 wrong (wrong ∷ [])
      unlocked refl (omega arith, tt) (refl, refl, (refl, refl, tt)) (omega arith) refl
