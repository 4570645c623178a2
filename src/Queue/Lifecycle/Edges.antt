-- ===== src/Queue/Lifecycle/Edges.antt =====
-- About one write of a row, by any operation of internal/job/service.go.
use ai_cloudhub.Common.{◌≡◌, refl, arith, false}
use ai_cloudhub.Job.{Status, Job, is_terminal}
use ai_cloudhub.Job.Rows.{
  claim_row, heartbeat_row, fail_timeout_row, fail_max_attempts_row, release_row, complete_row,
  cancel_row,
}
use ai_cloudhub.Queue.Lifecycle.{
  Change, claimed, beaten, timed_out, given_up, released, completed, stopped, ◌⟶◌, claim_pending,
  claim_dispatched, beat, release_running, release_dispatched, finish_pending, finish_dispatched,
  finish_running, fail_pending, fail_dispatched, fail_running, cancel_pending, cancel_dispatched,
  cancel_running,
}

ruleset edges = (
  claim_pending, claim_dispatched, beat, release_running, release_dispatched, finish_pending,
  finish_dispatched, finish_running, fail_pending, fail_dispatched, fail_running, cancel_pending,
  cancel_dispatched, cancel_running,
)

-- Every write of a row by an operation of the queue follows an edge of the transition diagram.
pub change_edge : {j k : Job} → Change j k → j.status ⟶ k.status
unfolding claim_row heartbeat_row fail_timeout_row fail_max_attempts_row release_row complete_row
    cancel_row
change_edge (claimed now a r h) = grind (arith, edges)
change_edge (beaten now h) = grind (arith, edges)
change_edge (timed_out now sec h) = grind (arith, edges)
change_edge (given_up now a m h) = grind (arith, edges)
change_edge (released now r h) = grind (arith, edges)
change_edge (completed now m r h) = grind (arith, edges)
change_edge (stopped now n h) = grind (arith, edges)

-- What a job is and whose it is.
pub record SameWork (j k : Job) : Type 0 where
  pub id : k.id ≡ j.id
  pub user_id : k.user_id ≡ j.user_id
  pub drive_id : k.drive_id ≡ j.drive_id
  pub command_json : k.command_json ≡ j.command_json
  pub created_at : k.created_at ≡ j.created_at
  pub priority : k.priority ≡ j.priority
  pub idempotency_key : k.idempotency_key ≡ j.idempotency_key
  pub max_attempts : k.max_attempts ≡ j.max_attempts
  pub timeout_sec : k.timeout_sec ≡ j.timeout_sec

pub Change-SameWork : {j k : Job} → Change j k → SameWork j k
unfolding claim_row heartbeat_row fail_timeout_row fail_max_attempts_row release_row complete_row
    cancel_row
Change-SameWork (claimed now a r h) = ground arith
Change-SameWork (beaten now h) = ground arith
Change-SameWork (timed_out now sec h) = ground arith
Change-SameWork (given_up now a m h) = ground arith
Change-SameWork (released now r h) = ground arith
Change-SameWork (completed now m r h) = ground arith
Change-SameWork (stopped now n h) = ground arith

edge_live : {s t : Status} → s ⟶ t → is_terminal s ≡ false
edge_live claim_pending = refl
edge_live claim_dispatched = refl
edge_live beat = refl
edge_live release_running = refl
edge_live release_dispatched = refl
edge_live finish_pending = refl
edge_live finish_dispatched = refl
edge_live finish_running = refl
edge_live fail_pending = refl
edge_live fail_dispatched = refl
edge_live fail_running = refl
edge_live cancel_pending = refl
edge_live cancel_dispatched = refl
edge_live cancel_running = refl

-- A finished row is written no more.
pub Change-live : {j k : Job} → Change j k → is_terminal j.status ≡ false
Change-live c = edge_live (change_edge c)
