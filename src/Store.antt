-- ===== src/Store.antt =====
-- internal/store/memory.go: the in-memory store, with the two maps that the job queue uses. Each
-- method runs under the store's mutex, so it is one step. `drawn` counts the identifiers that
-- uuid.NewString has given.
use ai_cloudhub.Common.{
  ℕ, zero, suc, ◌+◌, Bool, true, false, not, ◌&&◌, ◌||◌, List, [], ◌∷◌, Option, none, some, ltb,
  ◌==◌ as nat_eq, if◌then◌else◌, keep, take, length,
}
use ai_cloudhub.Text.{Text, ◌==◌, text_lt, trim_space, is_empty}
use ai_cloudhub.Table.{find, put, remove}
use ai_cloudhub.Sort.{exchange_sort}
use ai_cloudhub.Outbox.{Outbox}
use ai_cloudhub.Job.{
  Status, Job, Err, Result, ok, err, job_not_found, job_not_claimable, is_claimable, is_terminal,
  is_running,
}
use ai_cloudhub.Job.Rows.{claim_row, Outcome, refused, kept, changed}
pub mod Laws
pub mod Listing
pub mod Webhooks
pub mod Purge

pub record Store : Type 0 where
  pub jobs : List Job
  pub webhooks : List Outbox
  pub drawn : ℕ

abbrev pub job_key : Job → Text
job_key j = j.id

abbrev pub webhook_key : Outbox → Text
webhook_key e = e.id

unfoldable pub new_memory : Store
new_memory = record { jobs = []; webhooks = []; drawn = 0 }

unfoldable pub create_job : Job → Store → Store
create_job j st = record st { jobs = put job_key j st.jobs }

-- A row of another user is not there.
owned : Text → Option Job → Result Job
owned user_id none = err job_not_found
owned user_id (some j) = if j.user_id == user_id then ok j else err job_not_found

unfoldable pub get_job : Text → Text → Store → Result Job
unfolding owned
get_job user_id id st = owned user_id (find job_key id st.jobs)

unfoldable pub get_job_by_id : Text → Store → Result Job
get_job_by_id id st = elim (find job_key id st.jobs) [ none ↦ err job_not_found | some j ↦ ok j ]

-- `none` where the row is missing or of another user.
unfoldable pub update_job : Job → Store → Option Store
update_job j st = elim (find job_key j.id st.jobs) [
  | none ↦ none
  | some cur ↦
      if cur.user_id == j.user_id then some (record st { jobs = put job_key j st.jobs }) else none
]

-- The first row that the loop meets with this key.
unfoldable pub find_by_key : Text → Text → List Job → Result Job
find_by_key user_id key [] = err job_not_found
find_by_key user_id key (j ∷ js) =
    if j.user_id == user_id && j.idempotency_key == key then ok j else find_by_key user_id key js

unfoldable pub get_job_by_idempotency_key : Text → Text → Store → Result Job
unfolding find_by_key
get_job_by_idempotency_key user_id key st =
    if is_empty (trim_space key)
    then err job_not_found
    else find_by_key user_id (trim_space key) st.jobs

unfoldable pub list_pending_jobs : Text → Store → List Job
list_pending_jobs user_id st = keep (λ j. j.user_id == user_id && is_claimable j.status) st.jobs

-- created_at ascending, then id ascending
unfoldable pub oldest_first : Job → Job → Bool
oldest_first a b =
    ltb a.created_at b.created_at || (nat_eq a.created_at b.created_at && text_lt a.id b.id)

unfoldable pub list_running_jobs : Text → Store → List Job
unfolding oldest_first
list_running_jobs user_id st =
    let user = trim_space user_id in
    exchange_sort oldest_first
      (keep (λ j. is_running j.status && (is_empty user || j.user_id == user)) st.jobs)

write_claim : Store → Outcome → Store × Result Job
write_claim st (refused e) = (st, err e)
write_claim st (kept j) = (st, ok j)
write_claim st (changed j) = (record st { jobs = put job_key j st.jobs }, ok j)

claim_found : ℕ → Text → Text → Store → Result Job → Store × Result Job
unfolding write_claim
claim_found now agent runner st (err e) = (st, err e)
claim_found now agent runner st (ok j) = write_claim st (claim_row now agent runner j)

-- Claims under the write mutex, so that one caller wins. The look-up is that of GetJob.
unfoldable pub claim_pending_job : ℕ → Text → Text → Text → Text → Store → Store × Result Job
unfolding claim_found
claim_pending_job now user_id id agent runner st =
    claim_found now agent runner st (get_job user_id id st)

-- `if limit <= 0 { limit = 500 }; if limit > 5000 { limit = 5000 }`
abbrev pub purge_limit : ℕ → ℕ
purge_limit zero = 500
purge_limit (suc n) = if ltb 5000 (suc n) then 5000 else suc n

is_purgeable : ℕ → Job → Bool
is_purgeable older_than j = is_terminal j.status && ltb j.updated_at older_than

abbrev pub updated_before : Job → Job → Bool
updated_before a b = ltb a.updated_at b.updated_at

unfoldable pub purge_candidates : ℕ → ℕ → Store → List Job
unfolding is_purgeable
purge_candidates older_than limit st =
    take (purge_limit limit) (exchange_sort updated_before (keep (is_purgeable older_than) st.jobs))

-- delete(m.jobs, id), and every outbox row of that job.
unfoldable pub delete_job : Text → Store → Store
delete_job id st = record st {
  jobs = remove job_key id st.jobs;
  webhooks = keep (λ e. not (e.job_id == id)) st.webhooks;
}

unfoldable pub delete_jobs : List Job → Store → Store
unfolding delete_job
delete_jobs [] st = st
delete_jobs (j ∷ js) st = delete_jobs js (delete_job j.id st)

unfoldable pub purge_terminal_jobs : ℕ → ℕ → Store → Store × ℕ
unfolding delete_jobs purge_candidates
purge_terminal_jobs older_than limit st =
    let list = purge_candidates older_than limit st in (delete_jobs list st, length list)
