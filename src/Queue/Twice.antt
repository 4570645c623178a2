-- ===== src/Queue/Twice.antt =====
-- About Complete of internal/job/service.go, called twice.
use ai_cloudhub.Common.{
  ℕ, ◌≡◌, refl, sym, ap, subst, ◌∙◌, ◌⊎◌, inl, inr, some, Option-cases, arith, true,
}
use ai_cloudhub.Text.{Text}
use ai_cloudhub.Text.Laws.{==_iff}
use ai_cloudhub.Table.{find, put}
use ai_cloudhub.Table.Laws.{find-put}
use ai_cloudhub.Job.{Job, CompleteInput, Result-cases, ok, is_terminal}
use ai_cloudhub.Job.Settings.{job_output_max}
use ai_cloudhub.Job.Rows.{Outcome, refused, kept, changed, complete_row}
use ai_cloudhub.Store.{Store, job_key, get_job, update_job}
use ai_cloudhub.Store.Laws.{get_job-ok, get_job-some, update_job-some}
use ai_cloudhub.Queue.{Service, complete, with_row, settle, notify_job_terminal}
use ai_cloudhub.Queue.Lifecycle.Operations.{LeavesJobs, notify-LeavesJobs}

module _ (after : Store → Job → Store) (quiet : LeavesJobs after) where
  -- An operation that answers with a row leaves that row in the table.
  settle-stands :
      (st st' : Store) (j k : Job) (o : Outcome)
      → find job_key j.id st.jobs ≡ some j
      → (o ≡ kept k → k ≡ j)
      → (o ≡ changed k → k.id ≡ j.id)
      → settle after st o ≡ (st', ok k)
      → find job_key j.id st'.jobs ≡ some k
  unfolding settle
  settle-stands st st' j k (refused e) found same id h = absurd (ground arith)
  settle-stands st st' j k (kept l) found same id h =
      let l_k : l ≡ k = ground arith in
      subst (λ (s : Store). find job_key j.id s.jobs ≡ some k) (ap (λ x. x.0) h)
        (found ∙ ap some (sym (same (ap kept l_k))))
  settle-stands st st' j k (changed l) found same id h = elim (Option-cases (update_job l st)) [
    | inl e ↦ absurd (ground arith)
    | inr (s, e) ↦
        let wrote : (after s l ≡ st') × (l ≡ k) = ground arith in
        let l_id : l.id ≡ j.id = ap (λ (x : Job). x.id) (wrote.1) ∙ id (ap changed (wrote.1)) in
        let jobs : st'.jobs ≡ put job_key l st.jobs =
          ap (λ (x : Store). x.jobs) (sym (wrote.0))
          ∙ ((quiet s l).0 ∙ (update_job-some l st e).0) in
        ap (find job_key j.id) jobs
        ∙ ground (arith, find-put job_key j.id l st.jobs, ==_iff l.id j.id)
  ]

settle-answer :
    (after : Store → Job → Store) (st st' : Store) (k : Job) (o : Outcome)
    → settle after st o ≡ (st', ok k)
    → (o ≡ kept k) ⊎ (o ≡ changed k)
unfolding settle
settle-answer after st st' k (refused e) h = absurd (ground arith)
settle-answer after st st' k (kept l) h = inl (ground arith)
settle-answer after st st' k (changed l) h = inr (ground arith)

-- What `row` must be for the operation to be repeatable: it keeps an ended row, and ends every other one that
-- it changes, without touching its id and its owner.
record Ending (row : Job → Outcome) : Type 0 where
  stays : (j k : Job) → row j ≡ kept k → (k ≡ j) × (is_terminal k.status ≡ true)
  ends :
      (j k : Job)
      → row j ≡ changed k
      → (k.id ≡ j.id) × (k.user_id ≡ j.user_id) × (is_terminal k.status ≡ true)

complete_row-Ending : (now max : ℕ) (result : CompleteInput) → Ending (complete_row now max result)
unfolding complete_row
complete_row-Ending now max result = record {
  stays = λ j k h. ground arith;
  ends = λ j k h. ground arith;
}

-- The row that an ending operation answers with stands in the table, is the user's, and has ended.
with_row-stands :
    (after : Store → Job → Store) (row : Job → Outcome)
    → LeavesJobs after
    → Ending row
    → (u id : Text) (st st' : Store) (k : Job)
    → with_row after row st (get_job u id st) ≡ (st', ok k)
    → (get_job u id st' ≡ ok k) × (is_terminal k.status ≡ true)
unfolding with_row
with_row-stands after row quiet ending u id st st' k h = elim (Result-cases (get_job u id st)) [
  | inr (e, missing) ↦ absurd (ground arith)
  | inl (j, there) ↦
      let (found, mine, here) = get_job-ok u id st there in
      let answered : settle after st (row j) ≡ (st', ok k) =
        ap (with_row after row st) (sym there) ∙ h in
      let stands =
        settle-stands after quiet st st' j k (row j)
          (subst (λ x. find job_key x st.jobs ≡ some j) (sym here) found)
          (λ e. (ending.stays j k e).0) (λ e. (ending.ends j k e).0) answered in
      let (same_user, over) = user_and_end j (settle-answer after st st' k (row j) answered) in
      (
        get_job-some u id st' k (subst (λ x. find job_key x st'.jobs ≡ some k) here stands)
            (same_user ∙ mine),
        over,
      )
]
  where
    user_and_end :
        (j : Job)
        → (row j ≡ kept k) ⊎ (row j ≡ changed k)
        → (k.user_id ≡ j.user_id) × (is_terminal k.status ≡ true)
    user_and_end j (inl e) =
        let (same, over) = ending.stays j k e in (ap (λ (x : Job). x.user_id) same, over)
    user_and_end j (inr e) = let (_, same_user, over) = ending.ends j k e in (same_user, over)

complete_kept :
    (now max : ℕ) (result : CompleteInput) (k : Job)
    → is_terminal k.status ≡ true
    → complete_row now max result k ≡ kept k
unfolding complete_row
complete_kept now max result k h = rw h refl

-- A second Complete of a job changes nothing and answers with the row of the first, whatever it reports.
pub complete_twice :
    (sv : Service) (now now' : ℕ) (u id : Text) (result result' : CompleteInput) (st st' : Store)
    (k : Job)
    → complete sv now u id result st ≡ (st', ok k)
    → complete sv now' u id result' st' ≡ (st', ok k)
unfolding complete with_row settle
complete_twice sv now now' u id result result' st st' k h =
    let (there, over) =
      with_row-stands (notify_job_terminal sv now)
        (complete_row now (job_output_max sv.getenv) result) (notify-LeavesJobs sv now)
        (complete_row-Ending now (job_output_max sv.getenv) result) u id st st' k h in
    rw (there, complete_kept now' (job_output_max sv.getenv) result' k over) refl
