-- ===== src/Queue/Deliver.antt =====
-- internal/job/service.go: delivery from the webhook outbox. The HTTP request of one attempt is a
-- parameter: for a time and a row it says whether the receiver took it, and the error text if not.
-- ProcessWebhookOutbox is modelled for the default of one delivery at a time.
use ai_cloudhub.Common.{
  ℕ, suc, ◌+◌, ◌-◌, ◌*◌, Bool, List, [], ◌∷◌, Option, none, some, ltb, leb, if◌then◌else◌, take,
}
use ai_cloudhub.Text.{Text, codes, is_empty}
use ai_cloudhub.Int.{second}
use ai_cloudhub.Outbox.{Outbox, Delivery}
use ai_cloudhub.Job.{Result, ok, err, outbox_not_found}
use ai_cloudhub.Job.Settings.{
  Getenv, job_webhook_url, job_webhook_max_attempts, webhook_backoff, job_webhook_retain, week,
}
use ai_cloudhub.Store.{Store}
use ai_cloudhub.Store.Webhooks.{
  WebhookFilter, get_webhook_outbox, update_webhook_outbox, list_due_webhook_outbox,
  list_webhook_outbox, purge_webhook_outbox, is_pending,
}
use ai_cloudhub.Queue.{Service}
pub mod Frame
pub mod Tries

abbrev error_max : ℕ
error_max = 500

-- The row after an attempt, as finishWebhookAttempt fills it in.
unfoldable pub attempted : Getenv → ℕ → Bool → Text → ℕ → Outbox → Outbox
attempted getenv now success error max_attempts e =
    let tried = record e { attempts = e.attempts + 1; updated_at = now } in
    if success
    then record tried { status = Delivery.delivered; delivered_at = now; last_error = codes "" }
    else if leb max_attempts (e.attempts + 1)
    then record tried { status = Delivery.dead; last_error = take error_max error }
    else record tried {
      next_attempt_at = now + webhook_backoff getenv (e.attempts + 1);
      last_error = take error_max error;
    }

-- The store with the row written back, and how many were delivered: 1 or 0.
unfoldable pub finish_webhook_attempt : Getenv → ℕ → Outbox → Bool → Text → ℕ → Store → Store × ℕ
unfolding attempted
finish_webhook_attempt getenv now e success error max_attempts st =
    elim (update_webhook_outbox (attempted getenv now success error max_attempts e) st) [
      | none ↦ (st, 0)
      | some st' ↦ (st', if success then 1 else 0)
    ]

-- resets a row for redelivery; its next attempt is a second in the past
unfoldable pub requeued : ℕ → Outbox → Outbox
requeued now e = record e {
  status = Delivery.pending;
  attempts = 0;
  next_attempt_at = now - second;
  last_error = codes "";
  delivered_at = 0;
  updated_at = now;
}

unfoldable pub requeue_webhook_row : ℕ → Outbox → Store → Option Store
unfolding requeued
requeue_webhook_row now e st = update_webhook_outbox (requeued now e) st

unfoldable pub admin_retry_webhook : ℕ → Text → Store → Store × Result Outbox
unfolding requeue_webhook_row
admin_retry_webhook now id st = elim (get_webhook_outbox id st) [
  | none ↦ (st, err outbox_not_found)
  | some e ↦ elim (requeue_webhook_row now e st) [
    | none ↦ (st, err outbox_not_found)
    | some st' ↦ (st', ok (requeued now e))
  ]
]

unfoldable pub requeue_all : ℕ → List Outbox → Store → ℕ → Store × ℕ
unfolding requeue_webhook_row
requeue_all now [] st n = (st, n)
requeue_all now (e ∷ es) st n = elim (requeue_webhook_row now e st) [
  | none ↦ requeue_all now es st n
  | some st' ↦ requeue_all now es st' (suc n)
]

-- `if limit <= 0 { limit = 100 }; if limit > 500 { limit = 500 }`
abbrev pub retry_limit : ℕ → ℕ
retry_limit n = if ltb n 1 then 100 else if ltb 500 n then 500 else n

-- No status in the filter means the dead rows; a text that names no status is refused before.
unfoldable pub admin_retry_webhooks_batch : ℕ → WebhookFilter → Store → Store × ℕ
unfolding requeue_all
admin_retry_webhooks_batch now f st =
    let status : Option Delivery = elim f.status [ none ↦ some Delivery.dead | some d ↦ some d ] in
    requeue_all now
      (list_webhook_outbox (record f { status = status; limit = retry_limit f.limit }) st) st 0

module _ (sv : Service) (deliver : ℕ → Outbox → Bool × Text) where
  -- One row of the batch: read afresh, and left alone unless it is still pending.
  unfoldable pub deliver_row : ℕ → Outbox → Store → Store × ℕ
  unfolding finish_webhook_attempt
  deliver_row now row st = elim (get_webhook_outbox row.id st) [
    | none ↦ (st, 0)
    | some fresh ↦
        if is_pending fresh.status
        then finish_webhook_attempt sv.getenv now fresh (deliver now fresh).0 (deliver now fresh).1
            (job_webhook_max_attempts sv.getenv) st
        else (st, 0)
  ]

  unfoldable pub deliver_all : ℕ → List Outbox → Store → ℕ → Store × ℕ
  unfolding deliver_row
  deliver_all now [] st delivered = (st, delivered)
  deliver_all now (row ∷ rows) st delivered =
      let (st', n) = deliver_row now row st in deliver_all now rows st' (delivered + n)

  unfoldable pub process_webhook_outbox : ℕ → ℕ → Store → Store × ℕ
  unfolding deliver_all
  process_webhook_outbox now limit st =
      if is_empty (job_webhook_url sv.getenv)
      then (st, 0)
      else deliver_all now (list_due_webhook_outbox now limit st) st 0

-- PurgeWebhookOutbox and AdminPurgeWebhooks: a duration of 0 stands for the setting.
unfoldable pub purge_webhooks : Service → ℕ → ℕ → Store → Store × ℕ
purge_webhooks sv now older_than st =
    let age = if ltb 0 older_than then older_than else job_webhook_retain sv.getenv in
    if ltb 0 age then purge_webhook_outbox (now - age) 500 st else (st, 0)

unfoldable pub admin_purge_webhooks : Service → ℕ → ℕ → Store → Store × ℕ
admin_purge_webhooks sv now older_than st =
    let age = if ltb 0 older_than then older_than else job_webhook_retain sv.getenv in
    purge_webhook_outbox (now - (if ltb 0 age then age else week * second)) 2000 st
