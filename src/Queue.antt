-- ===== src/Queue.antt =====
-- internal/job/service.go: the BYOC job queue over the store. An operation is a function from the
-- store to the new store and its result; `now` is its reading of the clock. Metrics are left out:
-- nothing reads them. The goroutine that notifyJobTerminal starts is a later call of
-- process_webhook_outbox.
use ai_cloudhub.Common.{
  ℕ, suc, ◌+◌, Bool, true, false, List, [], ◌∷◌, ◌++◌, Option, none, some, if◌then◌else◌,
}
use ai_cloudhub.Text.{Text, codes, trim_space, is_empty}
use ai_cloudhub.Int.{ℤ}
use ai_cloudhub.Outbox.{Outbox, Delivery}
use ai_cloudhub.Job.{
  Status, succeeded, failed, cancelled, Job, Codec, CompleteInput, Result, ok, err, Err,
  job_not_found, status_text,
}
use ai_cloudhub.Job.Settings.{Getenv, job_webhook_url, job_output_max}
use ai_cloudhub.Job.Rows.{
  Outcome, refused, kept, changed, heartbeat_row, release_row, complete_row, cancel_row,
  fail_timeout_row, fail_max_attempts_row,
}
use ai_cloudhub.Store.{Store, get_job, get_job_by_id, update_job}
use ai_cloudhub.Store.Webhooks.{enqueue_webhook_outbox}
pub mod Reclaim
pub mod Claim
pub mod Create
pub mod Deliver
pub mod Admin
pub mod Lifecycle
pub mod Races
pub mod Twice
pub mod Finish
pub mod Output
pub mod System

-- The envelope that is posted to the webhook.
pub record WebhookEvent : Type 0 where
  pub event_id : Text
  pub event : Text
  pub occurred_at : ℕ
  pub job : Job

-- The service, and what it takes from elsewhere: the environment, the n-th identifier that
-- uuid.NewString gives, and encoding/json.
pub record Service : Type 0 where
  pub lease : ℤ
  pub getenv : Getenv
  pub uuid : ℕ → Text
  pub codec : Codec
  pub marshal_event : WebhookEvent → Text

event_name : Status → Text
unfolding status_text
event_name succeeded = codes "job.succeeded"
event_name failed = codes "job.failed"
event_name cancelled = codes "job.cancelled"
event_name s = codes "job." ++ status_text s

event_of : Service → ℕ → Job → Text → WebhookEvent
unfolding event_name
event_of sv now j id = record {
  event_id = id;
  event = event_name j.status;
  occurred_at = now;
  job = j;
}

outbox_row : Service → ℕ → Job → Text → Outbox
unfolding event_of
outbox_row sv now j id = record {
  id = id;
  job_id = j.id;
  user_id = j.user_id;
  event = event_name j.status;
  payload_json = sv.marshal_event (event_of sv now j id);
  status = Delivery.pending;
  attempts = 0;
  next_attempt_at = now;
  last_error = codes "";
  created_at = now;
  updated_at = now;
  delivered_at = 0;
}

-- An error of the store leaves the event out.
unfoldable pub notify_job_terminal : Service → ℕ → Store → Job → Store
unfolding outbox_row
notify_job_terminal sv now st j =
    let drawn = record st { drawn = suc st.drawn } in
    if is_empty (job_webhook_url sv.getenv)
    then st
    else elim (enqueue_webhook_outbox (outbox_row sv now j (sv.uuid st.drawn)) drawn) [
      | none ↦ drawn
      | some st' ↦ st'
    ]

-- What every operation on a row shares: an error of the look-up is "job not found"; a refused or a
-- kept row leaves the store alone; a changed one is written, and `after` runs once it is.
unfoldable pub settle : (Store → Job → Store) → Store → Outcome → Store × Result Job
settle after st (refused e) = (st, err e)
settle after st (kept j) = (st, ok j)
settle after st (changed j) = elim (update_job j st) [
  | none ↦ (st, err job_not_found)
  | some st' ↦ (after st' j, ok j)
]

unfoldable pub with_row :
    (Store → Job → Store) → (Job → Outcome) → Store → Result Job → Store × Result Job
unfolding settle
with_row after row st (err e) = (st, err job_not_found)
with_row after row st (ok j) = settle after st (row j)

-- An operation that notifies nobody.
abbrev pub silent : Store → Job → Store
silent st j = st

unfoldable pub heartbeat : ℕ → Text → Text → Store → Store × Result Job
unfolding with_row
heartbeat now user_id id st = with_row silent (heartbeat_row now) st (get_job user_id id st)

unfoldable pub release_to_pending : ℕ → Text → Text → Text → Store → Store × Result Job
unfolding with_row
release_to_pending now user_id id reason st =
    with_row silent (release_row now reason) st (get_job user_id id st)

module _ (sv : Service) where
  unfoldable pub fail_timeout : ℕ → Text → Text → ℕ → Store → Store × Result Job
  unfolding with_row
  fail_timeout now user_id id sec st =
      with_row (notify_job_terminal sv now) (fail_timeout_row now sec) st (get_job user_id id st)

  unfoldable pub fail_max_attempts : ℕ → Text → Text → ℕ → ℕ → Store → Store × Result Job
  unfolding with_row
  fail_max_attempts now user_id id attempt max st =
      with_row (notify_job_terminal sv now) (fail_max_attempts_row now attempt max) st
        (get_job user_id id st)

  unfoldable pub complete : ℕ → Text → Text → CompleteInput → Store → Store × Result Job
  unfolding with_row
  complete now user_id id result st =
      with_row (notify_job_terminal sv now) (complete_row now (job_output_max sv.getenv) result) st
        (get_job user_id id st)

  unfoldable pub cancel_store_job : ℕ → Text → Store → Job → Store × Result Job
  unfolding settle
  cancel_store_job now admin_note st j =
      settle (notify_job_terminal sv now) st (cancel_row now admin_note j)

  unfoldable pub cancel : ℕ → Text → Text → Store → Store × Result Job
  unfolding with_row
  cancel now user_id id st =
      with_row (notify_job_terminal sv now) (cancel_row now (codes "")) st (get_job user_id id st)
