-- ===== src/Queue/Deliver/Frame.antt =====
-- About the outbox operations of internal/job/service.go, and the table of jobs.
use ai_cloudhub.Common.{
  ℕ, suc, ◌+◌, ◌≡◌, refl, List, [], ◌∷◌, some, Option-cases, Bool-cases, inl, inr, Bool, arith, ◌∙◌,
  if◌then◌else◌, ltb,
}
use ai_cloudhub.Text.{Text, is_empty}
use ai_cloudhub.Outbox.{Outbox}
use ai_cloudhub.Job.Settings.{Getenv, job_webhook_url, job_webhook_retain, job_webhook_max_attempts}
use ai_cloudhub.Store.{Store}
use ai_cloudhub.Store.Webhooks.{
  WebhookFilter, list_due_webhook_outbox, update_webhook_outbox, get_webhook_outbox,
  purge_webhook_outbox, is_pending,
}
use ai_cloudhub.Queue.{Service}
use ai_cloudhub.Queue.Deliver.{
  attempted, finish_webhook_attempt, requeued, requeue_webhook_row, requeue_all,
  admin_retry_webhook, admin_retry_webhooks_batch, deliver_row, deliver_all, process_webhook_outbox,
  purge_webhooks, admin_purge_webhooks,
}

pub record SameJobs (a b : Store) : Type 0 where
  pub jobs : b.jobs ≡ a.jobs
  pub drawn : b.drawn ≡ a.drawn

SameJobs-trans : {a b c : Store} → SameJobs a b → SameJobs b c → SameJobs a c
SameJobs-trans p q = record { jobs = q.jobs ∙ p.jobs; drawn = q.drawn ∙ p.drawn }

pub update-SameJobs :
    (e : Outbox) (st : Store) {st' : Store}
    → update_webhook_outbox e st ≡ some st'
    → SameJobs st st'
unfolding update_webhook_outbox
update-SameJobs e st h = ground arith

finish-SameJobs :
    (g : Getenv) (now : ℕ) (e : Outbox) (success : Bool) (error : Text) (max : ℕ) (st : Store)
    → SameJobs st (finish_webhook_attempt g now e success error max st).0
unfolding finish_webhook_attempt
finish-SameJobs g now e success error max st =
    elim (Option-cases (update_webhook_outbox (attempted g now success error max e) st)) [
      | inl h ↦ rw (h, finish_webhook_attempt) (record { jobs = refl; drawn = refl })
      | inr (st', h) ↦ rw (h, finish_webhook_attempt) (update-SameJobs _ st h)
    ]

module _ (sv : Service) (deliver : ℕ → Outbox → Bool × Text) where
  deliver_row-SameJobs :
      (now : ℕ) (row : Outbox) (st : Store) → SameJobs st (deliver_row sv deliver now row st).0
  unfolding deliver_row
  deliver_row-SameJobs now row st = elim (Option-cases (get_webhook_outbox row.id st)) [
    | inl h ↦ rw (h, deliver_row) (record { jobs = refl; drawn = refl })
    | inr (fresh, h) ↦ elim (Bool-cases (is_pending fresh.status)) [
      | inl p ↦
          rw (h, deliver_row, p)
            (finish-SameJobs sv.getenv now fresh _ _ (job_webhook_max_attempts sv.getenv) st)
      | inr p ↦ rw (h, deliver_row, p) (record { jobs = refl; drawn = refl })
    ]
  ]

  deliver_all-SameJobs :
      (now : ℕ) (rows : List Outbox) (st : Store) (n : ℕ)
      → SameJobs st (deliver_all sv deliver now rows st n).0
  unfolding deliver_all
  deliver_all-SameJobs now [] st n = record { jobs = refl; drawn = refl }
  deliver_all-SameJobs now (row ∷ rows) st n =
      let (st', k) = deliver_row sv deliver now row st in
      SameJobs-trans (deliver_row-SameJobs now row st) (deliver_all-SameJobs now rows st' (n + k))

  pub process-SameJobs :
      (now limit : ℕ) (st : Store) → SameJobs st (process_webhook_outbox sv deliver now limit st).0
  unfolding process_webhook_outbox
  process-SameJobs now limit st = elim (Bool-cases (is_empty (job_webhook_url sv.getenv))) [
    | inl off ↦ rw (off, process_webhook_outbox) (record { jobs = refl; drawn = refl })
    | inr on ↦
        rw (on, process_webhook_outbox)
          (deliver_all-SameJobs now (list_due_webhook_outbox now limit st) st 0)
  ]

pub retry-SameJobs :
    (now : ℕ) (id : Text) (st : Store) → SameJobs st (admin_retry_webhook now id st).0
unfolding admin_retry_webhook requeue_webhook_row
retry-SameJobs now id st = elim (Option-cases (get_webhook_outbox id st)) [
  | inl h ↦ rw (h, admin_retry_webhook) (record { jobs = refl; drawn = refl })
  | inr (e, h) ↦ elim (Option-cases (update_webhook_outbox (requeued now e) st)) [
    | inl k ↦ rw (h, admin_retry_webhook, k) (record { jobs = refl; drawn = refl })
    | inr (st', k) ↦ rw (h, admin_retry_webhook, k) (update-SameJobs _ st k)
  ]
]

requeue_all-SameJobs :
    (now : ℕ) (es : List Outbox) (st : Store) (n : ℕ) → SameJobs st (requeue_all now es st n).0
unfolding requeue_all
requeue_all-SameJobs now [] st n = record { jobs = refl; drawn = refl }
requeue_all-SameJobs now (e ∷ es) st n =
    elim (Option-cases (update_webhook_outbox (requeued now e) st)) [
      | inl k ↦ rw (k, requeue_all) (requeue_all-SameJobs now es st n)
      | inr (st', k) ↦
          rw (k, requeue_all)
            (SameJobs-trans (update-SameJobs _ st k) (requeue_all-SameJobs now es st' (suc n)))
    ]

pub retry_batch-SameJobs :
    (now : ℕ) (f : WebhookFilter) (st : Store) → SameJobs st (admin_retry_webhooks_batch now f st).0
unfolding admin_retry_webhooks_batch
retry_batch-SameJobs now f st = requeue_all-SameJobs now _ st 0

purge-SameJobs : (cut limit : ℕ) (st : Store) → SameJobs st (purge_webhook_outbox cut limit st).0
unfolding purge_webhook_outbox
purge-SameJobs cut limit st = record { jobs = refl; drawn = refl }

pub purge_webhooks-SameJobs :
    (sv : Service) (now age : ℕ) (st : Store) → SameJobs st (purge_webhooks sv now age st).0
unfolding purge_webhooks
purge_webhooks-SameJobs sv now age st =
    elim (Bool-cases (ltb 0 (if ltb 0 age then age else job_webhook_retain sv.getenv))) [
      | inl on ↦ rw (on, purge_webhooks) (purge-SameJobs _ 500 st)
      | inr off ↦ rw (off, purge_webhooks) (record { jobs = refl; drawn = refl })
    ]

pub admin_purge_webhooks-SameJobs :
    (sv : Service) (now age : ℕ) (st : Store) → SameJobs st (admin_purge_webhooks sv now age st).0
unfolding admin_purge_webhooks
admin_purge_webhooks-SameJobs sv now age st = purge-SameJobs _ 2000 st
