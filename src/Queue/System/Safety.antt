-- ===== src/Queue/System/Safety.antt =====
-- About lists of calls of internal/job/service.go: the table and its rows.
use ai_cloudhub.Common.{
  ℕ, ◌≤◌, ◌≡◌, refl, sym, ap, subst, ◌∙◌, ◌≢◌, List, [], ◌∷◌, some, none, ◌⊎◌, inl, inr, Bool, true,
  arith, if◌then◌else◌,
}
use ai_cloudhub.Text.{Text, ◌==◌}
use ai_cloudhub.Text.Laws.{==_iff}
use ai_cloudhub.Table.{find, Unique}
use ai_cloudhub.Table.Laws.{find-put, put-Unique}
use ai_cloudhub.Outbox.{Outbox}
use ai_cloudhub.Job.{Job, is_terminal}
use ai_cloudhub.Store.{Store, job_key}
use ai_cloudhub.Queue.{Service}
use ai_cloudhub.Queue.Lifecycle.Traces.{
  History, untouched, History-append, History-terminal, Trace-Unique, Trace-drawn, Trace-none,
  Trace-row,
}
use ai_cloudhub.Queue.System.{Call, answer, answer_all}
use ai_cloudhub.Queue.System.Acts.{Act, writes, adds, deletes, answer-Act}

-- uuid.NewString gives no identifier twice.
abbrev pub Distinct : Service → Type 0
Distinct sv = (m n : ℕ) → sv.uuid m ≡ sv.uuid n → m ≡ n

-- No id stands twice in the table, and none of those still to be drawn stands in it.
pub record Inv (sv : Service) (st : Store) : Type 0 where
  pub unique : Unique job_key st.jobs
  pub fresh : (n : ℕ) → st.drawn ≤ n → find job_key (sv.uuid n) st.jobs ≡ none

-- The id of a row is not drawn again.
pub undrawn :
    (sv : Service) (st : Store) (id : Text) (j : Job)
    → Inv sv st
    → find job_key id st.jobs ≡ some j
    → (n : ℕ) → st.drawn ≤ n
    → sv.uuid n ≢ id
undrawn sv st id j v found n h e = ground (arith, v.fresh n, ap (λ x. find job_key x st.jobs) e)

pub Act-Inv : (sv : Service) (st end : Store) → Distinct sv → Act sv st end → Inv sv st → Inv sv end
Act-Inv sv st end d (writes t) v = record {
  unique = Trace-Unique t v.unique;
  fresh = λ n h. Trace-none (sv.uuid n) t (v.fresh n (omega (arith, Trace-drawn t)));
}
Act-Inv sv st end d (adds j i e g) v = record {
  unique = subst (Unique job_key) (sym e) (put-Unique job_key j st.jobs v.unique);
  fresh =
      λ n h. ap (find job_key (sv.uuid n)) e ∙ (find-put job_key (sv.uuid n) j st.jobs ∙ other n h);
}
  where
    other :
        (n : ℕ)
        → end.drawn ≤ n
        → (if j.id == sv.uuid n then some j else find job_key (sv.uuid n) st.jobs) ≡ none
    other n h = ground (arith, v.fresh n, ==_iff j.id (sv.uuid n), d st.drawn n)
Act-Inv sv st end d (deletes g u f) v = record { unique = u; fresh = still_fresh }
  where
    still_fresh : (n : ℕ) → end.drawn ≤ n → find job_key (sv.uuid n) end.jobs ≡ none
    still_fresh n h = ground (arith, f (sv.uuid n), v.fresh n)

-- What has become of the job `j` with this id: its row stands in the table with its writes behind it,
-- or the row was deleted, and that once the job had ended.
abbrev pub Fate : Text → Job → Store → Type 0
Fate id j st =
    ((k : Job) × (find job_key id st.jobs ≡ some k) × History j k)
    ⊎ ((k : Job) × History j k × (is_terminal k.status ≡ true) × (find job_key id st.jobs ≡ none))

Act-Fate :
    (sv : Service) (st end : Store) (id : Text) (j : Job)
    → Act sv st end
    → ((n : ℕ) → st.drawn ≤ n → sv.uuid n ≢ id)
    → Fate id j st
    → Fate id j end
Act-Fate sv st end id j (writes t) n (inl (k, found, h)) =
    let (l, found', h') = Trace-row id k t found in inl (l, found', History-append h h')
Act-Fate sv st end id j (writes t) n (inr (k, h, over, gone)) =
    inr (k, h, over, Trace-none id t gone)
Act-Fate sv st end id j (adds new i e g) n fate = elim fate [
  | inl (k, found, h) ↦ inl (k, kept ∙ found, h)
  | inr (k, h, over, gone) ↦ inr (k, h, over, kept ∙ gone)
]
  where
    kept : find job_key id end.jobs ≡ find job_key id st.jobs
    kept = ground (
      arith,
      ap (find job_key id) e,
      find-put job_key id new st.jobs,
      ==_iff new.id id,
      n st.drawn,
    )
Act-Fate sv st end id j (deletes g u f) n (inl (k, found, h)) = elim (f id) [
  | inl same ↦ inl (k, same ∙ found, h)
  | inr (l, was, over, gone) ↦
      let one : l ≡ k = ground arith in
      inr (k, h, subst (λ (x : Job). is_terminal x.status ≡ true) one over, gone)
]
Act-Fate sv st end id j (deletes g u f) n (inr (k, h, over, gone)) = elim (f id) [
  | inl same ↦ inr (k, h, over, same ∙ gone)
  | inr (l, was, _, _) ↦ absurd (ground arith)
]

pub Act-drawn : (sv : Service) (st end : Store) → Act sv st end → st.drawn ≤ end.drawn
Act-drawn sv st end (writes t) = Trace-drawn t
Act-drawn sv st end (adds j i e g) = omega arith
Act-drawn sv st end (deletes g u f) = omega arith

module _ (sv : Service) (sort_slice : (Job → Job → Bool) → List Job → List Job)
    (deliver : ℕ → Outbox → Bool × Text) (distinct : Distinct sv) where
  answer_all-Fate_undrawn :
      (id : Text) (j : Job) (cs : List Call) (st : Store)
      → Inv sv st
      → ((n : ℕ) → st.drawn ≤ n → sv.uuid n ≢ id)
      → Fate id j st
      → Fate id j (answer_all sv sort_slice deliver cs st)
  unfolding answer_all
  answer_all-Fate_undrawn id j [] st v n fate = fate
  answer_all-Fate_undrawn id j (c ∷ cs) st v n fate =
      let next = answer sv sort_slice deliver c st in
      let act = answer-Act sv sort_slice deliver st c v.unique in
      answer_all-Fate_undrawn id j cs next (Act-Inv sv st next distinct act v)
        (λ m h. n m (omega (arith, Act-drawn sv st next act))) (Act-Fate sv st next id j act n fate)

  -- From a table with the invariant, after any list of calls, a job that stands in it has a history of legal
  -- writes, and its row is deleted only once the job has ended.
  pub answer_all-Fate :
      (id : Text) (j : Job) (cs : List Call) (st : Store)
      → Inv sv st
      → find job_key id st.jobs ≡ some j
      → Fate id j (answer_all sv sort_slice deliver cs st)
  answer_all-Fate id j cs st v found =
      answer_all-Fate_undrawn id j cs st v (undrawn sv st id j v found)
        (inl (j, found, untouched refl))

  -- An ended job is final: from a table with the invariant, whatever is called afterwards, its row is either
  -- what it was or deleted.
  pub answer_all-terminal :
      (id : Text) (j : Job) (cs : List Call) (st : Store)
      → Inv sv st
      → find job_key id st.jobs ≡ some j
      → is_terminal j.status ≡ true
      → let end = answer_all sv sort_slice deliver cs st in
        (find job_key id end.jobs ≡ some j) ⊎ (find job_key id end.jobs ≡ none)
  answer_all-terminal id j cs st v found over = elim (answer_all-Fate id j cs st v found) [
    | inl (k, stands, h) ↦ inl (stands ∙ ap some (History-terminal h over))
    | inr (k, h, _, gone) ↦ inr gone
  ]
