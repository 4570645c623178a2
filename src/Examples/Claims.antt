-- ===== src/Examples/Claims.antt =====
-- The theorems on claims, races and purges, at a store that holds one job.
use ai_cloudhub.Common.{
  ◌+◌, ◌≤◌, ◌<◌, ◌≡◌, ◌↔◌, refl, ◌⊎◌, true, false, [], ◌∷◌, none, some, arith, Has, length,
  if◌then◌else◌,
}
use ai_cloudhub.Text.{codes, ◌==◌, trim_space}
use ai_cloudhub.Table.{find, put}
use ai_cloudhub.Sort.{exchange_sort}
use ai_cloudhub.Outbox.{Outbox, Delivery}
use ai_cloudhub.Job.{
  pending, running, Job, ok, err, Err, is_terminal, job_not_claimable, job_not_found,
}
use ai_cloudhub.Job.Rows.{claim_row, heartbeat_row, release_row}
use ai_cloudhub.Store.{
  Store, job_key, get_job, claim_pending_job, purge_terminal_jobs, purge_candidates,
}
use ai_cloudhub.Queue.{cancel}
use ai_cloudhub.Queue.Claim.{Claimer, claim_order, claim_next}
use ai_cloudhub.Queue.Claim.Order.{exchange_sort-SortsSlices}
use ai_cloudhub.Queue.Claim.Exclusive.{claim_once}
use ai_cloudhub.Examples.{service, alice, waiting, done, holding, holding-Inv}
use ai_cloudhub.Job.{cancelled}
use ai_cloudhub.Job.Settings.{
  job_output_max, job_webhook_max_attempts, job_webhook_max_inflight, hard_max_job_output,
}
use ai_cloudhub.Job.Settings.Bounds.{settings-range}
use ai_cloudhub.Queue.Lifecycle.{Change, claimed, released, ◌⟶◌}
use ai_cloudhub.Queue.Lifecycle.Edges.{change_edge, SameWork}
use ai_cloudhub.Queue.Lifecycle.Traces.{History, untouched, written, History-SameWork}
use ai_cloudhub.Queue.Claim.Exclusive.{claims_in, releases_in, claims-le-releases, attempts_in}
use ai_cloudhub.Queue.Claim.Best.{claimed_row, CanTake, claim_next-best}
use ai_cloudhub.Queue.Claim.Order.{claim_order-StrictWeak}
use ai_cloudhub.Queue.Reclaim.{reclaim_stale}
use ai_cloudhub.Queue.Races.{write_back, late_heartbeat}
use ai_cloudhub.Store.Purge.{listed, purge-find, purge-webhooks}
use ai_cloudhub.Store.Purge.Counts.{purge-le-limit}
use ai_cloudhub.Sort.{IsSorted}
use ai_cloudhub.Sort.Laws.{exchange_sort-IsSorted}

abbrev taken : Job
taken = record waiting {
  status = running;
  claimed_by_agent_id = codes "a";
  claimed_by_runner_id = codes "r";
  heartbeat_at = 7;
  claimed_at = 7;
  attempt_count = 1;
  updated_at = 7;
}

claim_once_example :
    claim_pending_job 8 (codes "eve") (0 ∷ []) (codes "b") (codes "q") (holding taken) ≡ (
      holding taken,
      err (if alice == codes "eve" then job_not_claimable running else job_not_found),
    )
unfolding claim_pending_job get_job find ◌==◌ claim_row put
claim_once_example =
    claim_once alice (codes "eve") (0 ∷ []) (codes "a") (codes "r") (codes "b") (codes "q") 7 8
      (holding waiting) (holding taken) taken refl

-- A job that is claimed, given back and claimed again.
abbrev freed : Job
freed = record waiting { status = pending; attempt_count = 1; updated_at = 8 }

abbrev again : Job
again = record waiting {
  status = running;
  claimed_by_agent_id = codes "a";
  claimed_by_runner_id = codes "r";
  heartbeat_at = 9;
  claimed_at = 9;
  attempt_count = 2;
  updated_at = 9;
}

frees : Change taken freed
unfolding release_row trim_space
frees = released 8 [] refl

claims_again : Change freed again
unfolding claim_row
claims_again = claimed 9 (codes "a") (codes "r") refl

round_trip : History taken again
round_trip = written (written (untouched refl) frees) claims_again

claims-le-releases_example : claims_in round_trip ≤ releases_in round_trip
claims-le-releases_example = claims-le-releases round_trip refl

attempts_in_example : 2 ≡ 1 + claims_in round_trip
attempts_in_example = attempts_in round_trip

change_edge_example : running ⟶ pending
change_edge_example = change_edge frees

History-SameWork_example : SameWork taken again
History-SameWork_example = History-SameWork round_trip

late_heartbeat_example :
    let after_cancel = (cancel service 8 alice (0 ∷ []) (holding taken)).0 in
    (find job_key (0 ∷ []) after_cancel.jobs
      ≡ some
          (record taken { status = cancelled; heartbeat_at = 0; claimed_at = 0; updated_at = 8 }))
    × (find job_key (0 ∷ []) (write_back (heartbeat_row 9 taken) after_cancel).jobs
        ≡ some (record taken { heartbeat_at = 9; updated_at = 9 }))
unfolding get_job find ◌==◌
late_heartbeat_example = late_heartbeat service 8 9 alice (0 ∷ []) (holding taken) taken refl refl

abbrev runner : Claimer
runner = record { now = 7; user_id = alice; agent = codes "a"; runner = codes "r" }

claim_next-best_example :
    let st' = (reclaim_stale service 7 alice (holding waiting)).0 in
    ((e : Err) × (claim_next service exchange_sort runner [] (holding waiting) ≡ (st', err e))
      × ((j : Job)
          → ¬ CanTake service exchange_sort exchange_sort-SortsSlices runner []
              (holding waiting)
              (holding-Inv pending).unique
              j))
    ⊎ ((j : Job) × CanTake service exchange_sort exchange_sort-SortsSlices runner []
          (holding waiting)
          (holding-Inv pending).unique
          j
        × ((o : Job)
            → CanTake service exchange_sort exchange_sort-SortsSlices runner []
                (holding waiting)
                (holding-Inv pending).unique
                o
            → claim_order o j ≡ false)
        × (claim_next service exchange_sort runner [] (holding waiting) ≡ (
          record st' { jobs = put job_key (claimed_row runner j) st'.jobs },
          ok (claimed_row runner j),
        )))
claim_next-best_example =
    claim_next-best service exchange_sort exchange_sort-SortsSlices runner [] (holding waiting)
      (holding-Inv pending).unique

purge-find_example :
    (find job_key (0 ∷ []) (purge_terminal_jobs 9 1 (holding done)).0.jobs ≡ some done)
    ⊎ ((j : Job) × (find job_key (0 ∷ []) (holding done).jobs ≡ some j)
        × (is_terminal j.status ≡ true)
        × (j.updated_at < 9)
        × (find job_key (0 ∷ []) (purge_terminal_jobs 9 1 (holding done)).0.jobs ≡ none))
unfolding find ◌==◌
purge-find_example = purge-find 9 1 (holding done) (0 ∷ []) (refl, tt)

purge-le-limit_example :
    let (st', deleted) = purge_terminal_jobs 9 1 (holding done) in
    (length st'.jobs + deleted ≡ 1) × (deleted ≤ 1)
unfolding find
purge-le-limit_example = purge-le-limit 9 1 (holding done) (refl, tt) (omega arith)

exchange_sort-IsSorted_example :
    IsSorted claim_order (exchange_sort claim_order (waiting ∷ done ∷ []))
exchange_sort-IsSorted_example =
    exchange_sort-IsSorted claim_order claim_order-StrictWeak (waiting ∷ done ∷ [])

abbrev event : Outbox
event = record {
  id = codes "w";
  job_id = 0 ∷ [];
  user_id = alice;
  event = codes "job.succeeded";
  payload_json = [];
  status = Delivery.pending;
  attempts = 0;
  next_attempt_at = 5;
  last_error = [];
  created_at = 5;
  updated_at = 5;
  delivered_at = 0;
}

abbrev notified : Store
notified = record (holding done) { webhooks = event ∷ [] }

purge-webhooks_example :
    Has event (purge_terminal_jobs 9 1 notified).0.webhooks
    ↔ (Has event notified.webhooks × (listed event.job_id (purge_candidates 9 1 notified) ≡ false))
purge-webhooks_example = purge-webhooks 9 1 notified event

settings-range_example :
    ((0 < job_output_max service.getenv) × (job_output_max service.getenv ≤ hard_max_job_output))
    × ((0 < job_webhook_max_attempts service.getenv)
        × (job_webhook_max_attempts service.getenv ≤ 32))
    × ((0 < job_webhook_max_inflight service.getenv)
        × (job_webhook_max_inflight service.getenv ≤ 32))
settings-range_example = settings-range service.getenv
