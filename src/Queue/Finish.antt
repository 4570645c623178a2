-- ===== src/Queue/Finish.antt =====
-- About Complete of internal/job/service.go, on a job that has not ended.
use ai_cloudhub.Common.{arith, ℕ, ◌≡◌, refl, sym, subst, ap, ◌∙◌, some, false, if◌then◌else◌}
use ai_cloudhub.Text.{Text}
use ai_cloudhub.Table.{find}
use ai_cloudhub.Job.{Job, CompleteInput, ok, succeeded, failed, is_terminal}
use ai_cloudhub.Job.Settings.{job_output_max}
use ai_cloudhub.Job.Rows.{Outcome, changed, complete_row}
use ai_cloudhub.Store.{Store, job_key, get_job}
use ai_cloudhub.Store.Laws.{get_job-ok, update_job_total}
use ai_cloudhub.Queue.{Service, complete, with_row, settle, notify_job_terminal}
use ai_cloudhub.Queue.Lifecycle.Operations.{notify-LeavesJobs}
use ai_cloudhub.Queue.Races.{settle_writes, find-put_same}

-- The row that an operation writes, where it writes one.
abbrev written_row : Outcome → Job → Job
written_row (changed k) j = k
written_row _ j = j

-- What Complete writes: the same job, with the reported status.
Finished : CompleteInput → Job → Job → Type 0
Finished result j k =
    (k.id ≡ j.id)
    × (k.user_id ≡ j.user_id)
    × (k.status ≡ (if result.success then succeeded else failed))

complete_row_live :
    (now max : ℕ) (result : CompleteInput) (j : Job)
    → is_terminal j.status ≡ false
    → (k : Job) × (complete_row now max result j ≡ changed k) × Finished result j k
unfolding complete_row Finished
complete_row_live now max result j live =
    let k = written_row (complete_row now max result j) j in
    (k, ground arith, (ground arith, ground arith, ground arith))

-- What Complete answers and writes of a job that has not ended.
pub complete_writes :
    (sv : Service) (now : ℕ) (u id : Text) (result : CompleteInput) (st : Store) (j : Job)
    → get_job u id st ≡ ok j
    → is_terminal j.status ≡ false
    → (k : Job) × (complete_row now (job_output_max sv.getenv) result j ≡ changed k)
      × ((complete sv now u id result st).1 ≡ ok k)
      × (k.status ≡ (if result.success then succeeded else failed))
      × (find job_key id (complete sv now u id result st).0.jobs ≡ some k)
unfolding complete with_row Finished settle
complete_writes sv now u id result st j there live =
    let (found, mine, here) = get_job-ok u id st there in
    let (k, row, (same_id, same_user, status)) =
      complete_row_live now (job_output_max sv.getenv) result j live in
    let stands = subst (λ x. find job_key x st.jobs ≡ some j) (sym here) found in
    let jobs =
      settle_writes (notify_job_terminal sv now) st j k (notify-LeavesJobs sv now) stands same_id
        same_user in
    (
      k,
      row,
      rw (there, row, update_job_total j k st stands same_id same_user, with_row, settle) refl,
      status,
      rw (there, row, with_row)
          (ap (find job_key id) jobs ∙ find-put_same id st.jobs k (same_id ∙ here)),
    )

-- A user's Complete of a job that is the user's and has not ended succeeds: it answers with a row whose
-- status is the reported one, and that row stands in the table.
pub complete_finishes :
    (sv : Service) (now : ℕ) (u id : Text) (result : CompleteInput) (st : Store) (j : Job)
    → get_job u id st ≡ ok j
    → is_terminal j.status ≡ false
    → (k : Job) × ((complete sv now u id result st).1 ≡ ok k)
      × (k.status ≡ (if result.success then succeeded else failed))
      × (find job_key id (complete sv now u id result st).0.jobs ≡ some k)
complete_finishes sv now u id result st j there live =
    let (k, row, answer, status, stands) = complete_writes sv now u id result st j there live in
    (k, answer, status, stands)
