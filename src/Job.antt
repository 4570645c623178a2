-- ===== src/Job.antt =====
-- internal/job/service.go and internal/store/store.go: the job row, its states, the errors of the
-- queue. A time is the number of nanoseconds since Go's zero time, so that `IsZero` is `== 0`.
use ai_cloudhub.Common.{
  ℕ, Bool, true, false, ◌&&◌, Option, List, [], ◌∷◌, if◌then◌else◌, ◌≡◌, refl, ◌⊎◌, inl, inr,
}
use ai_cloudhub.Text.{Text, codes, ◌==◌}
use ai_cloudhub.Int.{ℤ}
pub mod Settings
pub mod Rows

pub data Status : Type 0 where
  pending dispatched running succeeded failed cancelled : Status

-- The strings of the status constants.
unfoldable pub status_text : Status → Text
status_text pending = codes "pending"
status_text dispatched = codes "dispatched"
status_text running = codes "running"
status_text succeeded = codes "succeeded"
status_text failed = codes "failed"
status_text cancelled = codes "cancelled"

-- map[string]string
abbrev pub Labels : Type 0
Labels = List (Text × Text)

-- What encoding/json makes of the values that the queue stores; `none` stands for an error of
-- json.Unmarshal and for a nil map.
pub record Codec : Type 0 where
  pub marshal_command : List Text → Text
  pub marshal_labels : Labels → Text
  pub unmarshal_labels : Text → Option Labels

-- m[k] of a Go map from strings to strings: a missing key reads as the empty string.
unfoldable pub label_value : Text → Labels → Text
label_value k [] = []
label_value k ((j, v) ∷ m) = if j == k then v else label_value k m

-- `for k, v := range want { if have[k] != v { return false } }; return true`
unfoldable pub labels_include : Labels → Labels → Bool
labels_include have [] = true
labels_include have ((k, v) ∷ want) = label_value k have == v && labels_include have want

-- The row of a job. `command_json` and `labels_json` are what json.Marshal made of the command and
-- of the labels, empty where there are none. `timeout_sec` and `max_attempts` are clamped at 0
-- before a row is made, so they are numbers.
pub record Job : Type 0 where
  pub id : Text
  pub user_id : Text
  pub drive_id : Text
  pub binding_id : Text
  pub mode : Text
  pub command_json : Text
  pub status : Status
  pub region_hint : Text
  pub note : Text
  pub connector_id : Text
  pub agent_id : Text
  pub claimed_by_agent_id : Text
  pub claimed_by_runner_id : Text
  pub priority : ℤ
  pub labels_json : Text
  pub idempotency_key : Text
  pub exit_code : Option ℤ
  pub duration_ms : ℤ
  pub heartbeat_at : ℕ
  pub claimed_at : ℕ
  pub timeout_sec : ℕ
  pub attempt_count : ℕ
  pub max_attempts : ℕ
  pub stdout : Text
  pub stderr : Text
  pub stdout_truncated : Bool
  pub stderr_truncated : Bool
  pub created_at : ℕ
  pub updated_at : ℕ

pub record CreateInput : Type 0 where
  pub drive_id : Text
  pub binding_id : Text
  pub mode : Text
  pub command : List Text
  pub region_hint : Text
  pub note : Text
  pub connector_id : Text
  pub timeout_sec : ℤ
  pub max_attempts : ℤ
  pub priority : ℤ
  pub labels : Labels
  pub idempotency_key : Text
  pub agent_id : Text

pub record CompleteInput : Type 0 where
  pub success : Bool  -- OK
  pub note : Text
  pub exit_code : Option ℤ
  pub duration_ms : ℤ
  pub stdout : Text
  pub stderr : Text
  pub stdout_truncated : Bool
  pub stderr_truncated : Bool

pub data Err : Type 0 where
  job_not_found : Err
  job_not_claimable : Status → Err
  job_cancelled : Err
  job_not_running : Status → Err
  job_not_releaseable : Status → Err
  job_already_finished : Err
  drive_id_required : Err
  command_required : Err
  idempotency_key_too_long : Err
  too_many_labels : Err
  empty_label_key : Err
  label_too_long : Err
  idempotency_conflict : Err
  no_pending_jobs : Err
  no_pending_jobs_in_region : Text → Err
  no_claimable_jobs : ℕ → Text → Err
  release_failed : Text → Text → Err
  bad_status_filter : Err
  outbox_id_required : Err
  outbox_exists : Err
  outbox_not_found : Err

pub data Result {ℓ} (A : Type ℓ) : Type ℓ where
  ok : A → Result A
  err : Err → Result A

pub Result-cases {ℓ} :
    {A : Type ℓ} (r : Result A) → ((a : A) × (r ≡ ok a)) ⊎ ((e : Err) × (r ≡ err e))
Result-cases (ok a) = inl (a, refl)
Result-cases (err e) = inr (e, refl)

abbrev pub is_terminal : Status → Bool
is_terminal succeeded = true
is_terminal failed = true
is_terminal cancelled = true
is_terminal _ = false

-- `pending` or `dispatched`
abbrev pub is_claimable : Status → Bool
is_claimable pending = true
is_claimable dispatched = true
is_claimable _ = false

abbrev pub is_running : Status → Bool
is_running running = true
is_running _ = false
