-- ===== src/Examples/Endings.antt =====
-- The theorems on repeated operations, on deliveries and on counts.
use mathlib.Core.List.{Permᴰ}
use ai_cloudhub.Common.{
  ◌≤◌, ◌≡◌, refl, true, false, [], ◌∷◌, some, arith, length, keep, if◌then◌else◌,
}
use ai_cloudhub.Text.{Text, codes, ◌==◌, trim_space}
use ai_cloudhub.Int.{pos}
use ai_cloudhub.Table.{find, put}
use ai_cloudhub.Outbox.{Outbox, Delivery}
use ai_cloudhub.Job.{Job, CompleteInput, ok, succeeded}
use ai_cloudhub.Job.Rows.{complete_row}
use ai_cloudhub.Store.{Store, get_job, update_job}
use ai_cloudhub.Store.Listing.{count_jobs_by_status, matches}
use ai_cloudhub.Store.Listing.Counts.{by_status, count_jobs_by_status_total}
use ai_cloudhub.Queue.{Service, complete, notify_job_terminal}
use ai_cloudhub.Job.Settings.{
  hard_max_job_output, job_output_max, job_webhook_url, job_webhook_max_attempts,
}
use ai_cloudhub.Queue.Deliver.{process_webhook_outbox}
use ai_cloudhub.Queue.Deliver.Tries.{Tries, Tried, process_webhook_outbox-Tried}
use ai_cloudhub.Queue.Finish.{complete_finishes}
use ai_cloudhub.Queue.Output.{Tail, complete_output}
use ai_cloudhub.Queue.Reclaim.{out_of_time}
use ai_cloudhub.Queue.Reclaim.Wrap.{timeout_wraps}
use ai_cloudhub.Store.{job_key}
use ai_cloudhub.Queue.Twice.{complete_twice}
use ai_cloudhub.Store.{new_memory, get_job_by_idempotency_key, find_by_key, create_job}
use ai_cloudhub.Table.{Unique}
use ai_cloudhub.Job.{CreateInput}
use ai_cloudhub.Queue.Create.{
  Payload, label_key, decode_job_labels, new_job, create, normalise, encode_job_labels,
  clamp_priority, insert_job,
}
use ai_cloudhub.Queue.Create.Idempotent.{reordered, create_twice}
use ai_cloudhub.Examples.{service, alice, busy, holding, deliver_ok}

abbrev report : CompleteInput
report = record {
  success = true;
  note = [];
  exit_code = some (pos 0);
  duration_ms = pos 12;
  stdout = codes "done";
  stderr = [];
  stdout_truncated = false;
  stderr_truncated = false;
}

abbrev ended : Job
ended = record busy {
  status = succeeded;
  exit_code = some (pos 0);
  duration_ms = pos 12;
  stdout = codes "done";
  heartbeat_at = 0;
  claimed_at = 0;
  updated_at = 8;
}

complete_twice_example :
    complete service 9 alice (0 ∷ []) (record report { success = false }) (holding ended)
    ≡ (holding ended, ok ended)
unfolding complete get_job find ◌==◌ complete_row update_job notify_job_terminal trim_space
    job_output_max job_webhook_url put
complete_twice_example =
    complete_twice service 8 9 alice (0 ∷ []) report (record report { success = false })
      (holding busy) (holding ended) ended refl

-- A service that posts to a receiver, and an event that is due.
abbrev posting : Service
posting = record service {
  getenv = λ name. if name == codes "AI_CLOUDHUB_JOB_WEBHOOK_URL" then codes "http://r" else [];
}

abbrev event : Outbox
event = record {
  id = codes "w";
  job_id = 0 ∷ [];
  user_id = alice;
  event = codes "job.succeeded";
  payload_json = [];
  status = Delivery.pending;
  attempts = 2;
  next_attempt_at = 5;
  last_error = [];
  created_at = 5;
  updated_at = 5;
  delivered_at = 0;
}

abbrev notified : Store
notified = record (holding busy) { webhooks = event ∷ [] }

event-Tries : Tries 8 event
event-Tries = record { left = λ p. omega arith; used = omega arith }

process_webhook_outbox-Tried_example :
    Tried posting (process_webhook_outbox posting deliver_ok 9 1 notified).0
unfolding job_webhook_max_attempts trim_space ◌==◌
process_webhook_outbox-Tried_example =
    process_webhook_outbox-Tried posting deliver_ok 9 1 notified (event-Tries, tt)

count_jobs_by_status_total_example :
    let d = count_jobs_by_status alice (holding busy) in
    (d.total ≡ length (keep (λ j. matches alice j.user_id) (holding busy).jobs))
    × (by_status d ≡ d.total)
count_jobs_by_status_total_example = count_jobs_by_status_total alice (holding busy)

abbrev label_x : Text × Text
label_x = (codes "x", codes "1")

abbrev label_y : Text × Text
label_y = (codes " y", codes "2")

abbrev keyed_input : CreateInput
keyed_input = record {
  drive_id = codes "d";
  binding_id = [];
  mode = [];
  command = codes "ls" ∷ [];
  region_hint = [];
  note = [];
  connector_id = [];
  timeout_sec = pos 0;
  max_attempts = pos 3;
  priority = pos 0;
  labels = label_x ∷ label_y ∷ [];
  idempotency_key = codes "k";
  agent_id = [];
}

abbrev keyed_payload : Payload
keyed_payload = record {
  drive_id = codes "d";
  binding_id = [];
  mode = codes "mount";
  command_json = codes "[]";
  region_hint = [];
  connector_id = [];
  priority = pos 0;
  timeout_sec = 0;
  max_attempts = 3;
  labels_json = codes "{}";
  idempotency_key = codes "k";
}

no_labels : (s : Text) → Unique label_key (decode_job_labels service.codec s)
unfolding decode_job_labels
no_labels [] = tt
no_labels (c ∷ cs) = tt

abbrev first_row : Job
first_row = new_job 5 (0 ∷ []) alice keyed_input keyed_payload

abbrev after_first : Store
after_first = record { jobs = first_row ∷ []; webhooks = []; drawn = 1 }

create_twice_example :
    create service 6 alice (reordered (label_y ∷ label_x ∷ []) keyed_input) after_first
    ≡ (after_first, ok (first_row, false))
unfolding create normalise trim_space encode_job_labels clamp_priority find new_memory
    get_job_by_idempotency_key insert_job create_job put find_by_key ◌==◌
create_twice_example =
    create_twice service 5 6 alice keyed_input (label_y ∷ label_x ∷ []) keyed_payload new_memory
      after_first first_row true refl (Permᴰ.swap refl refl) (refl, (refl, tt)) (λ a b d u. refl)
      refl refl refl no_labels refl

complete_finishes_example :
    (k : Job) × ((complete service 8 alice (0 ∷ []) report (holding busy)).1 ≡ ok k)
    × (k.status ≡ succeeded)
    × (find job_key (0 ∷ []) (complete service 8 alice (0 ∷ []) report (holding busy)).0.jobs
        ≡ some k)
unfolding get_job find ◌==◌
complete_finishes_example =
    complete_finishes service 8 alice (0 ∷ []) report (holding busy) busy refl refl

abbrev loud : CompleteInput
loud = record report { stderr = codes "warning" }

complete_output_example :
    let max = job_output_max service.getenv in
    (max ≤ hard_max_job_output)
    × ((k : Job) × (find job_key
            (0 ∷ [])
            (complete service 8 alice (0 ∷ []) loud (holding busy)).0.jobs
          ≡ some k)
        × Tail max (codes "done") false k.stdout k.stdout_truncated
        × Tail max (codes "warning") false k.stderr k.stderr_truncated)
unfolding get_job find ◌==◌
complete_output_example =
    complete_output service 8 alice (0 ∷ []) loud (holding busy) busy refl refl refl refl

abbrev endless : Job
endless = record busy { timeout_sec = 9_223_372_037; claimed_at = 6 }

timeout_wraps_example : out_of_time service.getenv 6 endless ≡ true
timeout_wraps_example =
    timeout_wraps service.getenv 6 endless (omega arith) (omega arith) refl (omega arith)
