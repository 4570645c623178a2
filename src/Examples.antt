-- ===== src/Examples.antt =====
-- Concrete stores, calls and requests, at which the theorems of the other files are applied.
use ai_cloudhub.Common.{
  ℕ, zero, suc, ◌≤◌, ◌<◌, ◌≡◌, ◌≢◌, ◌↔◌, refl, ◌⊎◌, inl, inr, Bool, true, false, List, [], ◌∷◌,
  ◌++◌, Option, none, some, arith, All, Has, if◌then◌else◌,
}
use ai_cloudhub.Text.{Text, codes, ◌==◌, is_empty}
use ai_cloudhub.Text.Laws.{==_iff}
use ai_cloudhub.Int.{ℤ, pos}
use ai_cloudhub.Table.{find, put, Unique}
use ai_cloudhub.Sort.{exchange_sort}
use ai_cloudhub.Outbox.{Outbox, Delivery}
use ai_cloudhub.Job.{
  Status, pending, running, succeeded, Job, Codec, CompleteInput, Result, ok, err, Err, is_terminal,
  is_running, job_not_claimable,
}
use ai_cloudhub.Job.Rows.{changed, claim_row, heartbeat_row, release_row}
use ai_cloudhub.Store.{
  Store, job_key, get_job, claim_pending_job, purge_terminal_jobs, purge_candidates,
}
use ai_cloudhub.Queue.{Service, cancel}
use ai_cloudhub.Queue.Claim.{Claimer, claim_order, claim_next}
use ai_cloudhub.Queue.Claim.Order.{exchange_sort-SortsSlices}
use ai_cloudhub.Queue.Claim.Exclusive.{claim_once}
use ai_cloudhub.Queue.System.{
  Call, claims, heartbeats, completes, cancels, reclaims_all, purges_jobs, answer_all,
}
use ai_cloudhub.Queue.System.Safety.{Distinct, Inv, Fate, answer_all-terminal, answer_all-Fate}
use ai_cloudhub.Queue.System.Isolation.{answer_all-others}
pub mod Calls
pub mod Claims
pub mod Endings
pub mod Rules
pub mod Sessions
pub mod Limits
pub mod Lockouts
pub mod Revoked

-- The service with an empty environment, identifiers that count, and codecs that keep nothing.
abbrev pub service : Service
service = record {
  lease = pos 300;
  getenv = λ name. [];
  uuid = λ n. n ∷ [];
  codec = record {
    marshal_command = λ c. codes "[]";
    marshal_labels = λ m. codes "{}";
    unmarshal_labels = λ t. none;
  };
  marshal_event = λ e. codes "{}";
}

pub distinct : Distinct service
distinct m n e = ground arith

abbrev pub alice : Text
alice = codes "alice"

abbrev pub bob : Text
bob = codes "bob"

abbrev pub waiting : Job
waiting = record {
  id = 0 ∷ [];
  user_id = alice;
  drive_id = codes "d";
  binding_id = [];
  mode = codes "mount";
  command_json = codes "[]";
  status = pending;
  region_hint = [];
  note = [];
  connector_id = [];
  agent_id = [];
  claimed_by_agent_id = [];
  claimed_by_runner_id = [];
  priority = pos 0;
  labels_json = [];
  idempotency_key = [];
  exit_code = none;
  duration_ms = pos 0;
  heartbeat_at = 0;
  claimed_at = 0;
  timeout_sec = 0;
  attempt_count = 0;
  max_attempts = 0;
  stdout = [];
  stderr = [];
  stdout_truncated = false;
  stderr_truncated = false;
  created_at = 5;
  updated_at = 5;
}

abbrev pub done : Job
done = record waiting { status = succeeded }

abbrev pub busy : Job
busy = record waiting {
  status = running;
  heartbeat_at = 6;
  claimed_at = 6;
  attempt_count = 1;
  updated_at = 6;
}

-- A store that holds one job.
abbrev pub holding : Job → Store
holding j = record { jobs = j ∷ []; webhooks = []; drawn = 1 }

pub holding-Inv : (s : Status) → Inv service (holding (record waiting { status = s }))
unfolding find
holding-Inv s = record {
  unique = (refl, tt);
  fresh = λ n h. ground (arith, ==_iff (0 ∷ []) (n ∷ []));
}

abbrev pub deliver_ok : ℕ → Outbox → Bool × Text
deliver_ok now e = (true, codes "")

abbrev pub session : List Call
session =
    claims (record { now = 7; user_id = alice; agent = codes "a"; runner = codes "r" }) (0 ∷ [])
    ∷ heartbeats 8 alice (0 ∷ [])
    ∷ cancels 9 alice (0 ∷ [])
    ∷ purges_jobs 10 1
    ∷ []
