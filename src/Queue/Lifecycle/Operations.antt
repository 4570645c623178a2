-- ===== src/Queue/Lifecycle/Operations.antt =====
-- About the operations of internal/job/service.go on one row, as writes of the specification.
use ai_cloudhub.Text.{◌==◌}
use ai_cloudhub.Table.Laws.{find-put}
use ai_cloudhub.Common.{
  ap, false, ◌≤◌, ℕ, ◌≡◌, refl, sym, subst, ◌∙◌, some, Option-cases, inl, inr, arith,
}
use ai_cloudhub.Text.{Text, codes}
use ai_cloudhub.Table.{find}
use ai_cloudhub.Job.{Job, Result, ok, err, CompleteInput}
use ai_cloudhub.Job.Settings.{job_output_max}
use ai_cloudhub.Job.Rows.{
  Outcome, refused, kept, changed, heartbeat_row, fail_timeout_row, fail_max_attempts_row,
  release_row, complete_row, cancel_row,
}
use ai_cloudhub.Store.{Store, job_key, get_job, update_job, claim_pending_job}
use ai_cloudhub.Store.Laws.{get_job-ok, update_job-some, claim_pending_job_cases}
use ai_cloudhub.Store.Webhooks.{enqueue_webhook_outbox}
use ai_cloudhub.Queue.{
  Service, notify_job_terminal, settle, with_row, silent, heartbeat, release_to_pending,
  fail_timeout, fail_max_attempts, complete, cancel_store_job, cancel,
}
use ai_cloudhub.Queue.Lifecycle.Edges.{Change-SameWork}
use ai_cloudhub.Queue.Lifecycle.Traces.{Trace-refl}
use ai_cloudhub.Queue.Lifecycle.{
  Change, claimed, beaten, timed_out, given_up, released, completed, stopped, Trace, start, step,
}

-- Work after a write that leaves the jobs alone.
abbrev pub LeavesJobs : (Store → Job → Store) → Type 0
LeavesJobs after =
    (st : Store) (j : Job) → ((after st j).jobs ≡ st.jobs) × (st.drawn ≤ (after st j).drawn)

pub notify-LeavesJobs : (sv : Service) (now : ℕ) → LeavesJobs (notify_job_terminal sv now)
unfolding notify_job_terminal enqueue_webhook_outbox
notify-LeavesJobs sv now st j = ground arith

module _ (P : Text → Type 0) (after : Store → Job → Store) (quiet : LeavesJobs after) where
  settle-Trace :
      (st : Store) (j : Job) (o : Outcome)
      → find job_key j.id st.jobs ≡ some j
      → P j.user_id
      → ((k : Job) → o ≡ changed k → Change j k)
      → Trace P st (settle after st o).0
  unfolding settle
  settle-Trace st j (refused e) f p c = start refl (omega arith)
  settle-Trace st j (kept k) f p c = start refl (omega arith)
  settle-Trace st j (changed k) f p c = elim (Option-cases (update_job k st)) [
    | inl e ↦ rw (e, settle) (start refl (omega arith))
    | inr (st', e) ↦
        rw (e, settle)
          (step j k (Trace-refl st) f p (c k refl) ((quiet st' k).0 ∙ (update_job-some k st e).0)
            (omega (arith, quiet st' k, update_job-some k st e)))
  ]

  with_row-Trace :
      (st : Store) (user_id id : Text) (row : Job → Outcome)
      → P user_id
      → ((j k : Job) → row j ≡ changed k → Change j k)
      → Trace P st (with_row after row st (get_job user_id id st)).0
  unfolding with_row
  with_row-Trace st user_id id row p c = go (get_job user_id id st) refl
    where
      go : (r : Result Job) → get_job user_id id st ≡ r → Trace P st (with_row after row st r).0
      go (err e) h = start refl (omega arith)
      go (ok j) h =
          let (found, mine, here) = get_job-ok user_id id st h in
          settle-Trace st j (row j) (subst (λ x. find job_key x st.jobs ≡ some j) (sym here) found)
            (subst P (sym mine) p) (c j)

  -- The rows under other ids stay what they are.
  pub settle-others :
      (st : Store) (id : Text) (o : Outcome)
      → ((k : Job) → o ≡ changed k → k.id ≡ id)
      → (x : Text) → (id == x) ≡ false
      → find job_key x (settle after st o).0.jobs ≡ find job_key x st.jobs
  unfolding settle
  settle-others st id (refused e) i x n = refl
  settle-others st id (kept k) i x n = refl
  settle-others st id (changed k) i x n = elim (Option-cases (update_job k st)) [
    | inl e ↦ rw (e, settle)
    | inr (st', e) ↦
        rw (e, settle)
          (ap (find job_key x) ((quiet st' k).0 ∙ (update_job-some k st e).0)
            ∙ (find-put job_key x k st.jobs ∙ (rw (i k refl, n))))
  ]

-- The user's own rows.
abbrev pub Only : Text → Text → Type 0
Only u v = v ≡ u

module _ (now : ℕ) (user_id id : Text) (st : Store) where
  pub heartbeat-Trace : Trace (Only user_id) st (heartbeat now user_id id st).0
  unfolding heartbeat
  heartbeat-Trace =
      with_row-Trace (Only user_id) silent (λ st j. (refl, omega arith)) st user_id id
        (heartbeat_row now) refl (λ j k h. beaten now h)

  pub release-Trace :
      (reason : Text) → Trace (Only user_id) st (release_to_pending now user_id id reason st).0
  unfolding release_to_pending
  release-Trace reason =
      with_row-Trace (Only user_id) silent (λ st j. (refl, omega arith)) st user_id id
        (release_row now reason) refl (λ j k h. released now reason h)

  module _ (sv : Service) where
    pub fail_timeout-Trace :
        (sec : ℕ) → Trace (Only user_id) st (fail_timeout sv now user_id id sec st).0
    unfolding fail_timeout
    fail_timeout-Trace sec =
        with_row-Trace (Only user_id) (notify_job_terminal sv now) (notify-LeavesJobs sv now) st
          user_id id (fail_timeout_row now sec) refl (λ j k h. timed_out now sec h)

    pub fail_max_attempts-Trace :
        (attempt max : ℕ)
        → Trace (Only user_id) st (fail_max_attempts sv now user_id id attempt max st).0
    unfolding fail_max_attempts
    fail_max_attempts-Trace attempt max =
        with_row-Trace (Only user_id) (notify_job_terminal sv now) (notify-LeavesJobs sv now) st
          user_id id (fail_max_attempts_row now attempt max) refl
          (λ j k h. given_up now attempt max h)

    pub complete-Trace :
        (result : CompleteInput) → Trace (Only user_id) st (complete sv now user_id id result st).0
    unfolding complete
    complete-Trace result =
        with_row-Trace (Only user_id) (notify_job_terminal sv now) (notify-LeavesJobs sv now) st
          user_id id (complete_row now (job_output_max sv.getenv) result) refl
          (λ j k h. completed now _ result h)

    pub cancel-Trace : Trace (Only user_id) st (cancel sv now user_id id st).0
    unfolding cancel
    cancel-Trace =
        with_row-Trace (Only user_id) (notify_job_terminal sv now) (notify-LeavesJobs sv now) st
          user_id id (cancel_row now (codes "")) refl (λ j k h. stopped now (codes "") h)

-- A row as it stands in the table, cancelled in the name of an administrator.
pub cancel_store_job-Trace :
    (sv : Service) (now : ℕ) (note : Text) (st : Store) (j : Job)
    → find job_key j.id st.jobs ≡ some j
    → Trace (Only j.user_id) st (cancel_store_job sv now note st j).0
unfolding cancel_store_job
cancel_store_job-Trace sv now note st j f =
    settle-Trace (Only j.user_id) (notify_job_terminal sv now) (notify-LeavesJobs sv now) st j
      (cancel_row now note j) f refl (λ k h. stopped now note h)

pub cancel_store_job-others :
    (sv : Service) (now : ℕ) (note : Text) (st : Store) (j : Job) (x : Text)
    → (j.id == x) ≡ false
    → find job_key x (cancel_store_job sv now note st j).0.jobs ≡ find job_key x st.jobs
unfolding cancel_store_job
cancel_store_job-others sv now note st j x n =
    settle-others (λ u. Unit {0}) (notify_job_terminal sv now) (notify-LeavesJobs sv now) st j.id
      (cancel_row now note j) (λ k h. (Change-SameWork (stopped now note h)).id) x n

pub claim_pending_job-Trace :
    (now : ℕ) (user_id id agent runner : Text) (st : Store)
    → Trace (Only user_id) st (claim_pending_job now user_id id agent runner st).0
claim_pending_job-Trace now user_id id agent runner st =
    elim (claim_pending_job_cases now user_id id agent runner st) [
      | inl (e, h) ↦ rw h (start refl (omega arith))
      | inr (j, k, found, mine, here, row, h) ↦ rw h (
          step j k (Trace-refl st) (subst (λ x. find job_key x st.jobs ≡ some j) (sym here) found)
            mine (claimed now agent runner row) refl (omega arith))
    ]
