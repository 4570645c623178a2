-- ===== src/Queue/Lifecycle.antt =====
-- The specification of the queue: what may happen to a row, and to the table of rows.
use ai_cloudhub.Common.{ℕ, ◌≤◌, ◌≡◌, some}
use ai_cloudhub.Text.{Text}
use ai_cloudhub.Table.{find, put}
use ai_cloudhub.Job.{
  Status, pending, dispatched, running, succeeded, failed, cancelled, Job, CompleteInput,
  is_terminal,
}
use ai_cloudhub.Job.Rows.{
  changed, claim_row, heartbeat_row, fail_timeout_row, fail_max_attempts_row, release_row,
  complete_row, cancel_row,
}
use ai_cloudhub.Store.{Store, job_key}
pub mod Edges
pub mod Traces
pub mod Operations
pub mod Calls
pub mod Admin

-- The transition diagram of a job's status.
infix 40 ◌⟶◌
pub data ◌⟶◌ : Status → Status → Type 0 where
  claim_pending : pending ⟶ running
  claim_dispatched : dispatched ⟶ running
  beat : running ⟶ running
  release_running : running ⟶ pending
  release_dispatched : dispatched ⟶ pending
  finish_pending : pending ⟶ succeeded
  finish_dispatched : dispatched ⟶ succeeded
  finish_running : running ⟶ succeeded
  fail_pending : pending ⟶ failed
  fail_dispatched : dispatched ⟶ failed
  fail_running : running ⟶ failed
  cancel_pending : pending ⟶ cancelled
  cancel_dispatched : dispatched ⟶ cancelled
  cancel_running : running ⟶ cancelled

-- One write of a row by one of the operations.
pub data Change (j k : Job) : Type 0 where
  claimed : (now : ℕ) (agent runner : Text) → claim_row now agent runner j ≡ changed k → Change j k
  beaten : (now : ℕ) → heartbeat_row now j ≡ changed k → Change j k
  timed_out : (now sec : ℕ) → fail_timeout_row now sec j ≡ changed k → Change j k
  given_up :
      (now attempt max : ℕ) → fail_max_attempts_row now attempt max j ≡ changed k → Change j k
  released : (now : ℕ) (reason : Text) → release_row now reason j ≡ changed k → Change j k
  completed :
      (now max : ℕ) (result : CompleteInput)
      → complete_row now max result j ≡ changed k
      → Change j k
  stopped : (now : ℕ) (note : Text) → cancel_row now note j ≡ changed k → Change j k

-- A sequence of such writes, to rows of users that `P` allows. Identifiers may be drawn on the way.
pub data Trace (P : Text → Type 0) (st : Store) : Store → Type 0 where
  start : {end : Store} → end.jobs ≡ st.jobs → st.drawn ≤ end.drawn → Trace P st end
  step :
      {mid end : Store} (j k : Job)
      → Trace P st mid
      → find job_key j.id mid.jobs ≡ some j
      → P j.user_id
      → Change j k
      → end.jobs ≡ put job_key k mid.jobs
      → mid.drawn ≤ end.drawn
      → Trace P st end
