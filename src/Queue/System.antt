-- ===== src/Queue/System.antt =====
-- The whole service: the calls that its clients, its administrators and its workers make, in any
-- order. A list of calls is one interleaving of theirs.
use ai_cloudhub.Common.{ℕ, Bool, List, [], ◌∷◌, Option}
use ai_cloudhub.Text.{Text}
use ai_cloudhub.Outbox.{Outbox}
use ai_cloudhub.Job.{Job, CreateInput, CompleteInput}
use ai_cloudhub.Store.{Store}
use ai_cloudhub.Store.Webhooks.{WebhookFilter}
use ai_cloudhub.Queue.{Service, heartbeat, release_to_pending, complete, cancel}
use ai_cloudhub.Queue.Reclaim.{reclaim_stale, reclaim_stale_all}
use ai_cloudhub.Queue.Claim.{Claimer, claim, claim_next, claim_next_filtered}
use ai_cloudhub.Queue.Create.{create}
use ai_cloudhub.Queue.Deliver.{
  process_webhook_outbox, admin_retry_webhook, admin_retry_webhooks_batch, purge_webhooks,
  admin_purge_webhooks,
}
use ai_cloudhub.Queue.Admin.{
  admin_complete, admin_cancel, admin_cancel_all, admin_release, purge_jobs,
  admin_purge_terminal_jobs,
}
pub mod Acts
pub mod Safety
pub mod Isolation

pub data Call : Type 0 where
  creates : (now : ℕ) (user_id : Text) → CreateInput → Call
  claims : Claimer → (id : Text) → Call
  claims_next : Claimer → (region : Text) → Call
  claims_next_filtered : Claimer → (region : Text) → Option (Text → Text) → Call
  heartbeats : (now : ℕ) (user_id id : Text) → Call
  releases : (now : ℕ) (user_id id reason : Text) → Call
  completes : (now : ℕ) (user_id id : Text) → CompleteInput → Call
  cancels : (now : ℕ) (user_id id : Text) → Call
  reclaims : (now : ℕ) (user_id : Text) → Call
  reclaims_all : (now : ℕ) → Call
  admin_completes : (now : ℕ) (id : Text) → CompleteInput → Call
  admin_cancels : (now : ℕ) (id note : Text) → Call
  admin_cancels_all : (now : ℕ) (user_id status : Text) (limit : ℕ) → Call
  admin_releases : (now : ℕ) (id reason : Text) → Call
  purges_jobs : (now older_than : ℕ) → Call
  admin_purges_jobs : (now older_than : ℕ) → Call
  processes_webhooks : (now limit : ℕ) → Call
  retries_webhook : (now : ℕ) (id : Text) → Call
  retries_webhooks : (now : ℕ) → WebhookFilter → Call
  purges_webhooks : (now older_than : ℕ) → Call
  admin_purges_webhooks : (now older_than : ℕ) → Call

module _ (sv : Service) (sort_slice : (Job → Job → Bool) → List Job → List Job)
    (deliver : ℕ → Outbox → Bool × Text) where
  unfoldable pub answer : Call → Store → Store
  answer (creates now u input) st = (create sv now u input st).0
  answer (claims c id) st = (claim sv sort_slice c id st).0
  answer (claims_next c region) st = (claim_next sv sort_slice c region st).0
  answer (claims_next_filtered c region allow) st =
      (claim_next_filtered sv sort_slice c region allow st).0
  answer (heartbeats now u id) st = (heartbeat now u id st).0
  answer (releases now u id reason) st = (release_to_pending now u id reason st).0
  answer (completes now u id result) st = (complete sv now u id result st).0
  answer (cancels now u id) st = (cancel sv now u id st).0
  answer (reclaims now u) st = (reclaim_stale sv now u st).0
  answer (reclaims_all now) st = (reclaim_stale_all sv now st).0
  answer (admin_completes now id result) st = (admin_complete sv now id result st).0
  answer (admin_cancels now id note) st = (admin_cancel sv now id note st).0
  answer (admin_cancels_all now u status limit) st = (admin_cancel_all sv now u status limit st).0
  answer (admin_releases now id reason) st = (admin_release now id reason st).0
  answer (purges_jobs now age) st = (purge_jobs sv now age st).0
  answer (admin_purges_jobs now age) st = (admin_purge_terminal_jobs sv now age st).0
  answer (processes_webhooks now limit) st = (process_webhook_outbox sv deliver now limit st).0
  answer (retries_webhook now id) st = (admin_retry_webhook now id st).0
  answer (retries_webhooks now f) st = (admin_retry_webhooks_batch now f st).0
  answer (purges_webhooks now age) st = (purge_webhooks sv now age st).0
  answer (admin_purges_webhooks now age) st = (admin_purge_webhooks sv now age st).0

  unfoldable pub answer_all : List Call → Store → Store
  unfolding answer
  answer_all [] st = st
  answer_all (c ∷ cs) st = answer_all cs (answer c st)
