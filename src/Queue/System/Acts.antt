-- ===== src/Queue/System/Acts.antt =====
-- About one call of internal/job/service.go: what it may do to the table.
use ai_cloudhub.Common.{
  ℕ, suc, ◌≡◌, refl, List, some, none, ◌⊎◌, inl, inr, Bool, true, Bool-cases, arith, if◌then◌else◌,
  ltb,
}
use ai_cloudhub.Text.{Text, is_empty}
use ai_cloudhub.Table.{find, put, Unique}
use ai_cloudhub.Outbox.{Outbox}
use ai_cloudhub.Job.{Job, CreateInput, Result-cases, is_terminal}
use ai_cloudhub.Job.Settings.{job_terminal_retain}
use ai_cloudhub.Store.{Store, job_key, create_job, get_job_by_idempotency_key, purge_terminal_jobs}
use ai_cloudhub.Store.Purge.{purge-find, purge-drawn, purge-Unique}
use ai_cloudhub.Queue.{Service}
use ai_cloudhub.Queue.Create.{Payload, create, normalise, insert_job, new_job, same_create_payload}
use ai_cloudhub.Queue.Admin.{purge_jobs, admin_purge_terminal_jobs}
use ai_cloudhub.Queue.Deliver.Frame.{
  SameJobs, process-SameJobs, retry-SameJobs, retry_batch-SameJobs, purge_webhooks-SameJobs,
  admin_purge_webhooks-SameJobs,
}
use ai_cloudhub.Queue.Lifecycle.{Trace, start}
use ai_cloudhub.Queue.Lifecycle.Traces.{Trace-refl, Trace-mono}
use ai_cloudhub.Queue.Lifecycle.Operations.{
  heartbeat-Trace, release-Trace, complete-Trace, cancel-Trace,
}
use ai_cloudhub.Queue.Lifecycle.Calls.{
  Anyone, reclaim_stale-Trace, reclaim_stale_all-Trace, claim-Trace, claim_next-Trace,
  claim_next_filtered-Trace,
}
use ai_cloudhub.Queue.Lifecycle.Admin.{
  admin_complete-Trace, admin_cancel-Trace, admin_cancel_all-Trace, admin_release-Trace,
}
use ai_cloudhub.Queue.System.{
  Call, creates, claims, claims_next, claims_next_filtered, heartbeats, releases, completes,
  cancels, reclaims, reclaims_all, admin_completes, admin_cancels, admin_cancels_all,
  admin_releases, purges_jobs, admin_purges_jobs, processes_webhooks, retries_webhook,
  retries_webhooks, purges_webhooks, admin_purges_webhooks, answer,
}

pub data Act (sv : Service) (st end : Store) : Type 0 where
  writes : Trace Anyone st end → Act sv st end
  adds :
      (j : Job)
      → j.id ≡ sv.uuid st.drawn
      → end.jobs ≡ put job_key j st.jobs
      → end.drawn ≡ suc st.drawn
      → Act sv st end
  deletes :
      end.drawn ≡ st.drawn
      → Unique job_key end.jobs
      → ((id : Text)
          → (find job_key id end.jobs ≡ find job_key id st.jobs)
            ⊎ ((j : Job) × (find job_key id st.jobs ≡ some j)
                × (is_terminal j.status ≡ true)
                × (find job_key id end.jobs ≡ none)))
      → Act sv st end

unchanged : (sv : Service) {st end : Store} → SameJobs st end → Act sv st end
unchanged sv s = writes (start s.jobs (omega (arith, s.drawn)))

insert-Act :
    (sv : Service) (now : ℕ) (u : Text) (input : CreateInput) (p : Payload) (st : Store)
    → Act sv st (insert_job sv now u input p st).0
unfolding insert_job create_job new_job
insert-Act sv now u input p st = adds (new_job now (sv.uuid st.drawn) u input p) refl refl refl

create-Act :
    (sv : Service) (now : ℕ) (u : Text) (input : CreateInput) (st : Store)
    → Act sv st (create sv now u input st).0
unfolding create
create-Act sv now u input st = elim (Result-cases (normalise sv.codec input)) [
  | inr (e, bad) ↦ rw (bad, create) (writes (Trace-refl st))
  | inl (p, good) ↦ elim (Bool-cases (is_empty p.idempotency_key)) [
    | inl plain ↦ rw (good, create, plain) (insert-Act sv now u input p st)
    | inr keyed ↦ elim (Result-cases (get_job_by_idempotency_key u p.idempotency_key st)) [
      | inr (e, new) ↦ rw (good, create, keyed, new) (insert-Act sv now u input p st)
      | inl (j, old) ↦ elim (Bool-cases (same_create_payload sv.codec j p)) [
        | inl same ↦ rw (good, create, keyed, old, same) (writes (Trace-refl st))
        | inr other ↦ rw (good, create, keyed, old, other) (writes (Trace-refl st))
      ]
    ]
  ]
]

purge-Act :
    (sv : Service) (cut limit : ℕ) (st : Store)
    → Unique job_key st.jobs
    → Act sv st (purge_terminal_jobs cut limit st).0
purge-Act sv cut limit st u = deletes (purge-drawn cut limit st) (purge-Unique cut limit st u) λ id.
    elim (purge-find cut limit st id u) [
      | inl same ↦ inl same
      | inr (j, found, finished, _, gone) ↦ inr (j, found, finished, gone)
    ]

purge_jobs-Act :
    (sv : Service) (now age : ℕ) (st : Store)
    → Unique job_key st.jobs
    → Act sv st (purge_jobs sv now age st).0
unfolding purge_jobs
purge_jobs-Act sv now age st u =
    elim (Bool-cases (ltb 0 (if ltb 0 age then age else job_terminal_retain sv.getenv))) [
      | inl on ↦ rw (on, purge_jobs) (purge-Act sv _ 500 st u)
      | inr off ↦ rw (off, purge_jobs) (writes (Trace-refl st))
    ]

module _ (sv : Service) (sort_slice : (Job → Job → Bool) → List Job → List Job)
    (deliver : ℕ → Outbox → Bool × Text) (st : Store) where
  owner : {u : Text} {end : Store} → Trace (λ v. v ≡ u) st end → Act sv st end
  owner t = writes (Trace-mono (λ v e. tt) t)

  pub answer-Act :
      (c : Call) → Unique job_key st.jobs → Act sv st (answer sv sort_slice deliver c st)
  unfolding answer admin_purge_terminal_jobs
  answer-Act (creates now u input) _ = create-Act sv now u input st
  answer-Act (claims c id) _ = owner (claim-Trace sv sort_slice c id st)
  answer-Act (claims_next c region) _ = owner (claim_next-Trace sv sort_slice c region st)
  answer-Act (claims_next_filtered c region allow) _ =
      owner (claim_next_filtered-Trace sv sort_slice c region allow st)
  answer-Act (heartbeats now u id) _ = owner (heartbeat-Trace now u id st)
  answer-Act (releases now u id reason) _ = owner (release-Trace now u id st reason)
  answer-Act (completes now u id result) _ = owner (complete-Trace now u id st sv result)
  answer-Act (cancels now u id) _ = owner (cancel-Trace now u id st sv)
  answer-Act (reclaims now u) _ = owner (reclaim_stale-Trace sv now u st)
  answer-Act (reclaims_all now) _ = writes (reclaim_stale_all-Trace sv now st)
  answer-Act (admin_completes now id result) _ = writes (admin_complete-Trace sv now id result st)
  answer-Act (admin_cancels now id note) _ = writes (admin_cancel-Trace sv now id note st)
  answer-Act (admin_cancels_all now u status limit) k =
      writes (admin_cancel_all-Trace sv now u status limit st k)
  answer-Act (admin_releases now id reason) _ = writes (admin_release-Trace sv now id reason st)
  answer-Act (purges_jobs now age) k = purge_jobs-Act sv now age st k
  answer-Act (admin_purges_jobs now age) k = purge-Act sv _ 2000 st k
  answer-Act (processes_webhooks now limit) _ =
      unchanged sv (process-SameJobs sv deliver now limit st)
  answer-Act (retries_webhook now id) _ = unchanged sv (retry-SameJobs now id st)
  answer-Act (retries_webhooks now f) _ = unchanged sv (retry_batch-SameJobs now f st)
  answer-Act (purges_webhooks now age) _ = unchanged sv (purge_webhooks-SameJobs sv now age st)
  answer-Act (admin_purges_webhooks now age) _ =
      unchanged sv (admin_purge_webhooks-SameJobs sv now age st)
