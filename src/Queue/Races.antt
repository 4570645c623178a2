-- ===== src/Queue/Races.antt =====
-- An operation of the queue reads a row, and writes the whole row back under a second lock of the
-- store. These are the interleavings of two such operations on one row.
use ai_cloudhub.Common.{ℕ, ◌≡◌, refl, ap, subst, sym, ◌∙◌, List, none, some, arith}
use ai_cloudhub.Text.{Text, codes}
use ai_cloudhub.Text.Laws.{==_iff}
use ai_cloudhub.Table.{find, put}
use ai_cloudhub.Table.Laws.{find-put}
use ai_cloudhub.Job.{Job, ok, running, cancelled}
use ai_cloudhub.Job.Rows.{Outcome, changed, heartbeat_row, cancel_row}
use ai_cloudhub.Store.{Store, job_key, get_job, update_job}
use ai_cloudhub.Store.Laws.{get_job-ok, update_job_total}
use ai_cloudhub.Queue.{Service, cancel, settle, notify_job_terminal, with_row}
use ai_cloudhub.Queue.Lifecycle.Operations.{LeavesJobs, notify-LeavesJobs}

-- The write of an operation that has read `j`.
abbrev pub write_back : Outcome → Store → Store
write_back (changed j) st = elim (update_job j st) [ none ↦ st | some st' ↦ st' ]
write_back _ st = st

pub settle_writes :
    (after : Store → Job → Store) (st : Store) (j k : Job)
    → LeavesJobs after
    → find job_key j.id st.jobs ≡ some j
    → k.id ≡ j.id
    → k.user_id ≡ j.user_id
    → (settle after st (changed k)).0.jobs ≡ put job_key k st.jobs
unfolding settle
settle_writes after st j k quiet found i u =
    rw (update_job_total j k st found i u, settle)
      (quiet (record st { jobs = put job_key k st.jobs }) k).0

write_back_found :
    (st : Store) (j k : Job)
    → find job_key j.id st.jobs ≡ some j
    → k.id ≡ j.id
    → k.user_id ≡ j.user_id
    → (write_back (changed k) st).jobs ≡ put job_key k st.jobs
write_back_found st j k found i u = rw (update_job_total j k st found i u, write_back) refl

pub find-put_same :
    (id : Text) (ks : List Job) (k : Job) → k.id ≡ id → find job_key id (put job_key k ks) ≡ some k
find-put_same id ks k e = ground (arith, find-put job_key id k ks, ==_iff k.id id)

-- The rows that a cancellation and a heartbeat make of a running job.
abbrev stopped_at : ℕ → Job → Job
stopped_at now j = record j {
  status = cancelled;
  heartbeat_at = 0;
  claimed_at = 0;
  updated_at = now;
}

abbrev beaten_at : ℕ → Job → Job
beaten_at now j = record j { heartbeat_at = now; updated_at = now }

running_stopped :
    (now : ℕ) (j : Job)
    → j.status ≡ running
    → cancel_row now (codes "") j ≡ changed (stopped_at now j)
unfolding cancel_row
running_stopped now j h = rw h refl

running_beaten :
    (now : ℕ) (j : Job) → j.status ≡ running → heartbeat_row now j ≡ changed (beaten_at now j)
unfolding heartbeat_row
running_beaten now j h = rw h refl

cancel_writes :
    (sv : Service) (now : ℕ) (u id : Text) (st : Store) (j : Job)
    → get_job u id st ≡ ok j
    → j.status ≡ running
    → (cancel sv now u id st).0.jobs ≡ put job_key (stopped_at now j) st.jobs
unfolding cancel with_row
cancel_writes sv now u id st j found runs =
    let (row, mine, here) = get_job-ok u id st found in
    rw (found, running_stopped now j runs, with_row)
      (settle_writes (notify_job_terminal sv now) st j (stopped_at now j) (notify-LeavesJobs sv now)
        (subst (λ x. find job_key x st.jobs ≡ some j) (sym here) row) refl refl)

-- A heartbeat that reads the row of a running job before a cancellation and writes it afterwards undoes it:
-- the job runs again.
pub late_heartbeat :
    (sv : Service) (now now' : ℕ) (u id : Text) (st : Store) (j : Job)
    → get_job u id st ≡ ok j
    → j.status ≡ running
    → let after_cancel = (cancel sv now u id st).0 in
      (find job_key id after_cancel.jobs
        ≡ some
            (record j { status = cancelled; heartbeat_at = 0; claimed_at = 0; updated_at = now }))
      × (find job_key id (write_back (heartbeat_row now' j) after_cancel).jobs
          ≡ some (record j { heartbeat_at = now'; updated_at = now' }))
late_heartbeat sv now now' u id st j found runs =
    let (row, mine, here) = get_job-ok u id st found in
    let end = (cancel sv now u id st).0 in
    let gone : find job_key id end.jobs ≡ some (stopped_at now j) =
      ap (find job_key id) (cancel_writes sv now u id st j found runs)
      ∙ find-put_same id st.jobs (stopped_at now j) here in
    let kept : find job_key j.id end.jobs ≡ some (stopped_at now j) =
      subst (λ x. find job_key x end.jobs ≡ some (stopped_at now j)) (sym here) gone in
    (
      gone,
      rw (running_beaten now' j runs) (
          ap (find job_key id)
            (write_back_found end (stopped_at now j) (beaten_at now' j) kept refl refl)
          ∙ find-put_same id end.jobs (beaten_at now' j) here),
    )
