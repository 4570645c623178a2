-- ===== src/Store/Purge.antt =====
-- About PurgeTerminalJobs of internal/store/memory.go.
use ai_cloudhub.Common.{
  ℕ, zero, suc, ◌≤◌, ◌<◌, ◌≡◌, refl, subst, ◌∙◌, ◌⊎◌, inl, inr, ◌↔◌, Bool, true, false, ◌||◌, List,
  [], ◌∷◌, some, none, arith, if◌then◌else◌, Has, mem-keep, keep-mem, length-take-le, Bool-cases,
  &&-eq-true, ltb→lt, take-Has,
}
use ai_cloudhub.Text.{Text, ◌==◌}
use ai_cloudhub.Text.Laws.{==_iff}
use ai_cloudhub.Table.{find, remove, Unique}
use ai_cloudhub.Table.Laws.{find-remove, Has-find, keep-Unique}
use ai_cloudhub.Sort.Laws.{exchange_sort-Has}
use ai_cloudhub.Outbox.{Outbox}
use ai_cloudhub.Job.{Job, is_terminal}
use ai_cloudhub.Store.{
  Store, job_key, is_purgeable, purge_candidates, delete_job, delete_jobs, purge_terminal_jobs,
  updated_before, purge_limit,
}
pub mod Counts

abbrev pub listed : Text → List Job → Bool
listed id [] = false
listed id (j ∷ js) = j.id == id || listed id js

listed-Has : (id : Text) (js : List Job) → listed id js ≡ true → (j : Job) × Has j js × (j.id ≡ id)
listed-Has id [] h = absurd (ground arith)
listed-Has id (j ∷ js) h = elim (Bool-cases (j.id == id)) [
  | inl e ↦ (j, inl refl, (==_iff j.id id).0 e)
  | inr e ↦ let (k, m, i) = listed-Has id js (ground arith) in (k, inr m, i)
]

pub find-delete_jobs :
    (id : Text) (js : List Job) (st : Store)
    → find job_key id (delete_jobs js st).jobs
      ≡ (if listed id js then none else find job_key id st.jobs)
unfolding delete_jobs delete_job
find-delete_jobs id [] st = refl
find-delete_jobs id (j ∷ js) st =
    ground (arith, find-delete_jobs id js (delete_job j.id st), find-remove job_key id j.id st.jobs)

pub delete_jobs-drawn : (js : List Job) (st : Store) → (delete_jobs js st).drawn ≡ st.drawn
unfolding delete_jobs delete_job
delete_jobs-drawn [] st = refl
delete_jobs-drawn (j ∷ js) st = delete_jobs-drawn js (delete_job j.id st)

pub delete_jobs-Unique :
    (js : List Job) (st : Store) → Unique job_key st.jobs → Unique job_key (delete_jobs js st).jobs
unfolding delete_jobs delete_job remove
delete_jobs-Unique [] st u = u
delete_jobs-Unique (j ∷ js) st u =
    delete_jobs-Unique js (delete_job j.id st) (keep-Unique job_key _ st.jobs u)

-- An outbox row stays exactly when its job was not deleted.
delete_jobs-webhooks :
    (js : List Job) (st : Store) (e : Outbox)
    → Has e (delete_jobs js st).webhooks ↔ (Has e st.webhooks × (listed e.job_id js ≡ false))
unfolding delete_jobs delete_job
delete_jobs-webhooks [] st e = ((λ m. (m, refl)), (λ m. m.0))
delete_jobs-webhooks (j ∷ js) st e = (
  (λ m.
      let (kept, out) = (delete_jobs-webhooks js (delete_job j.id st) e).0 m in
      let (had, other) = mem-keep _ st.webhooks e kept in
      (had, ground (arith, ==_iff e.job_id j.id, ==_iff j.id e.job_id))),
  (λ m. (delete_jobs-webhooks js (delete_job j.id st) e).1 (
    keep-mem _ st.webhooks e m.0 (ground (arith, ==_iff e.job_id j.id, ==_iff j.id e.job_id)),
    ground arith,
  )),
)

candidate :
    (older_than limit : ℕ) (st : Store) (j : Job)
    → Has j (purge_candidates older_than limit st)
    → Has j st.jobs × (is_terminal j.status ≡ true) × (j.updated_at < older_than)
unfolding purge_candidates is_purgeable
candidate older_than limit st j m =
    let sorted = take-Has (purge_limit limit) _ j m in
    let (had, old) = mem-keep _ st.jobs j ((exchange_sort-Has updated_before j _).0 sorted) in
    let (finished, before) = &&-eq-true (is_terminal j.status) _ old in
    (had, finished, ltb→lt _ _ before)

module _ (older_than limit : ℕ) (st : Store) where
  -- A purge leaves the row under an id as it was, or deletes it, and deletes only a job that has ended and
  -- was last written before the cut-off.
  pub purge-find :
      (id : Text)
      → Unique job_key st.jobs
      → (find job_key id (purge_terminal_jobs older_than limit st).0.jobs ≡ find job_key id st.jobs)
        ⊎ ((j : Job) × (find job_key id st.jobs ≡ some j)
            × (is_terminal j.status ≡ true)
            × (j.updated_at < older_than)
            × (find job_key id (purge_terminal_jobs older_than limit st).0.jobs ≡ none))
  unfolding purge_terminal_jobs
  purge-find id u =
      let gone = purge_candidates older_than limit st in
      elim (Bool-cases (listed id gone)) [
        | inr out ↦ inl (find-delete_jobs id gone st ∙ (rw out))
        | inl on ↦
            let (j, m, i) = listed-Has id gone on in
            let (had, finished, before) = candidate older_than limit st j m in
            inr (
              j,
              subst (λ x. find job_key x st.jobs ≡ some j) i (Has-find job_key st.jobs j u had),
              finished,
              before,
              find-delete_jobs id gone st ∙ (rw on),
            )
      ]

  pub purge-drawn : (purge_terminal_jobs older_than limit st).0.drawn ≡ st.drawn
  unfolding purge_terminal_jobs
  purge-drawn = delete_jobs-drawn (purge_candidates older_than limit st) st

  pub purge-Unique :
      Unique job_key st.jobs → Unique job_key (purge_terminal_jobs older_than limit st).0.jobs
  unfolding purge_terminal_jobs
  purge-Unique u = delete_jobs-Unique (purge_candidates older_than limit st) st u

  -- No outbox row is left of a job that the purge deleted, and no other row is lost.
  pub purge-webhooks :
      (e : Outbox)
      → Has e (purge_terminal_jobs older_than limit st).0.webhooks
        ↔ (Has e st.webhooks × (listed e.job_id (purge_candidates older_than limit st) ≡ false))
  unfolding purge_terminal_jobs
  purge-webhooks e = delete_jobs-webhooks (purge_candidates older_than limit st) st e
