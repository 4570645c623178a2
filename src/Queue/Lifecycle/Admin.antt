-- ===== src/Queue/Lifecycle/Admin.antt =====
-- About the administrator's operations of internal/job/service.go, as writes of the specification.
use ai_cloudhub.Common.{
  ℕ, suc, ◌-◌, ◌≡◌, sym, subst, List, [], ◌∷◌, some, none, inl, inr, arith, false, Bool-cases, ltb,
  All, All-intro, Has, mem-keep, take-Has,
}
use ai_cloudhub.Text.{Text, codes, trim_space, ◌==◌}
use ai_cloudhub.Text.Laws.{==_sym}
use ai_cloudhub.Table.{find, Unique}
use ai_cloudhub.Table.Laws.{Has-find, keep-Unique}
use ai_cloudhub.Sort.Laws.{exchange_sort-Has}
use ai_cloudhub.Sort.Keys.{exchange_sort-Unique, take-Unique}
use ai_cloudhub.Job.{Status, Job, Result-cases, CompleteInput, status_text}
use ai_cloudhub.Store.{Store, job_key, get_job_by_id}
use ai_cloudhub.Store.Laws.{get_job_by_id-ok}
use ai_cloudhub.Store.Listing.{AdminJobFilter, list_jobs_admin, newest_first, page_limit}
use ai_cloudhub.Queue.{Service, cancel_store_job}
use ai_cloudhub.Queue.Admin.{
  admin_complete, admin_cancel, admin_release, admin_cancel_all, cancel_rows, cancel_each,
  cancel_statuses, cancel_limit,
}
use ai_cloudhub.Queue.Lifecycle.{Trace}
use ai_cloudhub.Queue.Lifecycle.Traces.{Trace-refl, Trace-append, Trace-mono, Trace-Unique}
use ai_cloudhub.Queue.Lifecycle.Operations.{
  complete-Trace, release-Trace, cancel_store_job-Trace, cancel_store_job-others,
}
use ai_cloudhub.Queue.Lifecycle.Calls.{Anyone}

-- The rows of a listing are rows of the table, and their keys are distinct.
listing-Has :
    (f : AdminJobFilter) (st : Store) (j : Job) → Has j (list_jobs_admin f st) → Has j st.jobs
unfolding list_jobs_admin
listing-Has f st j m =
    (mem-keep _ st.jobs j
      ((exchange_sort-Has newest_first j _).0 (take-Has (page_limit f.limit) _ j m))).0

listing-Unique :
    (f : AdminJobFilter) (st : Store)
    → Unique job_key st.jobs
    → Unique job_key (list_jobs_admin f st)
unfolding list_jobs_admin
listing-Unique f st u =
    take-Unique job_key (page_limit f.limit) _
      (exchange_sort-Unique job_key newest_first _ (keep-Unique job_key _ st.jobs u))

-- Every row of a list stands in the table as it stands in the list.
abbrev Current : List Job → Store → Type 0
Current js st = All (λ j. find job_key j.id st.jobs ≡ some j) js

Current-kept :
    (id : Text) (js : List Job) (a b : Store)
    → ((x : Text) → (id == x) ≡ false → find job_key x b.jobs ≡ find job_key x a.jobs)
    → find job_key id js ≡ none
    → Current js a
    → Current js b
unfolding find
Current-kept id [] a b same n c = tt
Current-kept id (j ∷ js) a b same n c =
    ground (arith, same j.id, ==_sym id j.id, Current-kept id js a b same)

module _ (sv : Service) (now : ℕ) where
  cancel_rows-Trace :
      (limit : ℕ) (js : List Job) (st : Store) (n : ℕ)
      → Unique job_key js
      → Current js st
      → Trace Anyone st (cancel_rows sv now limit js st n).0
  unfolding cancel_rows
  cancel_rows-Trace limit [] st n u c = Trace-refl st
  cancel_rows-Trace limit (j ∷ js) st n u c =
      let out = cancel_store_job sv now (codes "admin cancel-all") st j in
      let first = cancel_store_job-Trace sv now (codes "admin cancel-all") st j c.0 in
      let first' : Trace Anyone st out.0 = Trace-mono (λ u e. tt) first in
      let rest : Current js out.0 =
        Current-kept j.id js st out.0 (cancel_store_job-others sv now _ st j) u.0 c.1 in
      elim (Result-cases out.1) [
        | inr (e, no_cancel) ↦
            rw (no_cancel, cancel_rows)
              (Trace-append first' (cancel_rows-Trace limit js out.0 n u.1 rest))
        | inl (k, cancelled) ↦ elim (Bool-cases (ltb (suc n) limit)) [
          | inl more ↦
              rw (cancelled, cancel_rows, more)
                (Trace-append first' (cancel_rows-Trace limit js out.0 (suc n) u.1 rest))
          | inr full ↦ rw (cancelled, cancel_rows, full) first'
        ]
      ]

  listing-Current :
      (f : AdminJobFilter) (st : Store) → Unique job_key st.jobs → Current (list_jobs_admin f st) st
  listing-Current f st u =
      All-intro _ _ (λ j m. Has-find job_key st.jobs j u (listing-Has f st j m))

  cancel_each-Trace :
      (user_id : Text) (limit : ℕ) (ss : List Status) (st : Store) (n : ℕ)
      → Unique job_key st.jobs
      → Trace Anyone st (cancel_each sv now user_id limit ss st n).0
  unfolding cancel_each
  cancel_each-Trace user_id limit [] st n u = Trace-refl st
  cancel_each-Trace user_id limit (s ∷ ss) st n u = elim (Bool-cases (ltb n limit)) [
    | inr full ↦ rw (full, cancel_each) (Trace-refl st)
    | inl room ↦
        let f : AdminJobFilter = record {
          user_id = user_id;
          status = status_text s;
          region_hint = codes "";
          claimed_by_runner_id = codes "";
          limit = limit - n;
          cursor_created = 0;
          cursor_id = codes "";
        } in
        let done = cancel_rows sv now limit (list_jobs_admin f st) st n in
        let first =
          cancel_rows-Trace limit (list_jobs_admin f st) st n (listing-Unique f st u)
            (listing-Current f st u) in
        rw (room, cancel_each)
          (Trace-append first
            (cancel_each-Trace user_id limit ss done.0 done.1 (Trace-Unique first u)))
  ]

  pub admin_cancel_all-Trace :
      (user_id status : Text) (limit : ℕ) (st : Store)
      → Unique job_key st.jobs
      → Trace Anyone st (admin_cancel_all sv now user_id status limit st).0
  unfolding admin_cancel_all
  admin_cancel_all-Trace user_id status limit st u =
      elim (Result-cases (cancel_statuses (trim_space status))) [
        | inr (e, bad) ↦ rw (bad, admin_cancel_all) (Trace-refl st)
        | inl (ss, good) ↦
            rw (good, admin_cancel_all)
              (cancel_each-Trace (trim_space user_id) (cancel_limit limit) ss st 0 u)
      ]

  pub admin_complete-Trace :
      (id : Text) (result : CompleteInput) (st : Store)
      → Trace Anyone st (admin_complete sv now id result st).0
  unfolding admin_complete
  admin_complete-Trace id result st = elim (Result-cases (get_job_by_id (trim_space id) st)) [
    | inr (e, missing) ↦ rw (missing, admin_complete) (Trace-refl st)
    | inl (j, found) ↦
        rw (found, admin_complete)
          (Trace-mono (λ u e. tt) (complete-Trace now j.user_id j.id st sv _))
  ]

  pub admin_cancel-Trace :
      (id note : Text) (st : Store) → Trace Anyone st (admin_cancel sv now id note st).0
  unfolding admin_cancel
  admin_cancel-Trace id note st = elim (Result-cases (get_job_by_id (trim_space id) st)) [
    | inr (e, missing) ↦ rw (missing, admin_cancel) (Trace-refl st)
    | inl (j, found) ↦
        let (row, here) = get_job_by_id-ok (trim_space id) st found in
        rw (found, admin_cancel)
          (Trace-mono (λ u e. tt)
            (cancel_store_job-Trace sv now (trim_space note) st j
              (subst (λ x. find job_key x st.jobs ≡ some j) (sym here) row)))
  ]

  pub admin_release-Trace :
      (id reason : Text) (st : Store) → Trace Anyone st (admin_release now id reason st).0
  unfolding admin_release
  admin_release-Trace id reason st = elim (Result-cases (get_job_by_id (trim_space id) st)) [
    | inr (e, missing) ↦ rw (missing, admin_release) (Trace-refl st)
    | inl (j, found) ↦
        rw (found, admin_release) (Trace-mono (λ u e. tt) (release-Trace now j.user_id j.id st _))
  ]
