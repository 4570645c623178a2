-- ===== src/Queue/Admin.antt =====
-- internal/job/service.go: the operations of an administrator, on the jobs of every user, and the
-- purge of old jobs.
use ai_cloudhub.Common.{ℕ, suc, ◌-◌, ◌*◌, true, false, List, [], ◌∷◌, ◌++◌, ltb, if◌then◌else◌}
use ai_cloudhub.Text.{Text, codes, trim_space, is_empty, ◌==◌}
use ai_cloudhub.Int.{second}
use ai_cloudhub.Job.{
  Status, pending, dispatched, running, Job, CompleteInput, Result, ok, err, job_not_found,
  bad_status_filter, status_text,
}
use ai_cloudhub.Job.Settings.{job_terminal_retain}
use ai_cloudhub.Store.{Store, get_job_by_id, purge_terminal_jobs}
use ai_cloudhub.Store.Listing.{AdminJobFilter, list_jobs_admin}
use ai_cloudhub.Queue.{Service, complete, cancel_store_job, release_to_pending}

unfoldable pub admin_note : Text → Text
admin_note note =
    let n = trim_space note in
    if is_empty n then codes "admin force complete" else codes "admin complete: " ++ n

release_reason : Text → Text
release_reason reason =
    let r = trim_space reason in
    if is_empty r then codes "admin force release" else codes "admin: " ++ r

unfoldable pub admin_release : ℕ → Text → Text → Store → Store × Result Job
unfolding release_reason
admin_release now id reason st = elim (get_job_by_id (trim_space id) st) [
  | err e ↦ (st, err job_not_found)
  | ok j ↦ release_to_pending now j.user_id j.id (release_reason reason) st
]

-- The texts that AdminCancelAll takes for a status, and the states that it goes through.
unfoldable pub cancel_statuses : Text → Result (List Status)
unfolding status_text
cancel_statuses s =
    if is_empty s
    then ok (pending ∷ dispatched ∷ running ∷ [])
    else if s == status_text pending
    then ok (pending ∷ [])
    else if s == status_text dispatched
    then ok (dispatched ∷ [])
    else if s == status_text running
    then ok (running ∷ [])
    else err bad_status_filter

abbrev pub cancel_limit : ℕ → ℕ
cancel_limit n = if ltb n 1 then 100 else if ltb 500 n then 500 else n

module _ (sv : Service) (now : ℕ) where
  unfoldable pub admin_complete : Text → CompleteInput → Store → Store × Result Job
  unfolding admin_note
  admin_complete id result st = elim (get_job_by_id (trim_space id) st) [
    | err e ↦ (st, err job_not_found)
    | ok j ↦ complete sv now j.user_id j.id (record result { note = admin_note result.note }) st
  ]

  unfoldable pub admin_cancel : Text → Text → Store → Store × Result Job
  admin_cancel id note st = elim (get_job_by_id (trim_space id) st) [
    | err e ↦ (st, err job_not_found)
    | ok j ↦ cancel_store_job sv now (trim_space note) st j
  ]

  -- The inner loop, which stops at the limit.
  unfoldable pub cancel_rows : ℕ → List Job → Store → ℕ → Store × ℕ
  cancel_rows limit [] st n = (st, n)
  cancel_rows limit (j ∷ js) st n =
      let done = cancel_store_job sv now (codes "admin cancel-all") st j in
      elim done.1 [
        | err e ↦ cancel_rows limit js done.0 n
        | ok _ ↦ elim (ltb (suc n) limit) [
          | true ↦ cancel_rows limit js done.0 (suc n)
          | false ↦ (done.0, suc n)
        ]
      ]

  -- The outer loop over the states.
  unfoldable pub cancel_each : Text → ℕ → List Status → Store → ℕ → Store × ℕ
  unfolding cancel_rows
  cancel_each user_id limit [] st n = (st, n)
  cancel_each user_id limit (s ∷ ss) st n = elim (ltb n limit) [
    | false ↦ (st, n)
    | true ↦
        let filter : AdminJobFilter = record {
          user_id = user_id;
          status = status_text s;
          region_hint = codes "";
          claimed_by_runner_id = codes "";
          limit = limit - n;
          cursor_created = 0;
          cursor_id = codes "";
        } in
        let done = cancel_rows limit (list_jobs_admin filter st) st n in
        cancel_each user_id limit ss done.0 done.1
  ]

  unfoldable pub admin_cancel_all : Text → Text → ℕ → Store → Store × Result ℕ
  unfolding cancel_each cancel_statuses
  admin_cancel_all user_id status limit st = elim (cancel_statuses (trim_space status)) [
    | err e ↦ (st, err e)
    | ok statuses ↦
        let done = cancel_each (trim_space user_id) (cancel_limit limit) statuses st 0 in
        (done.0, ok done.1)
  ]

  -- A duration of 0 stands for the setting, which is off by default.
  unfoldable pub purge_jobs : ℕ → Store → Store × ℕ
  purge_jobs older_than st =
      let age = if ltb 0 older_than then older_than else job_terminal_retain sv.getenv in
      if ltb 0 age then purge_terminal_jobs (now - age) 500 st else (st, 0)

  unfoldable pub admin_purge_terminal_jobs : ℕ → Store → Store × ℕ
  admin_purge_terminal_jobs older_than st =
      let age = if ltb 0 older_than then older_than else job_terminal_retain sv.getenv in
      purge_terminal_jobs (now - (if ltb 0 age then age else 30 * 24 * 3600 * second)) 2000 st
