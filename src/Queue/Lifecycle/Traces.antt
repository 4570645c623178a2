-- ===== src/Queue/Lifecycle/Traces.antt =====
-- About sequences of writes: the rows that they reach, and the keys.
use ai_cloudhub.Common.{
  ◌≤◌, ◌⊎◌, List, ◌≡◌, refl, sym, subst, ap, ◌∙◌, some, none, inl, inr, arith, true, false, ◌⊎◌,
}
use ai_cloudhub.Text.{Text}
use ai_cloudhub.Text.Laws.{==_iff}
use ai_cloudhub.Table.{find, put, Unique}
use ai_cloudhub.Table.Laws.{find-put, put-Unique}
use ai_cloudhub.Job.{Job, is_terminal}
use ai_cloudhub.Store.{Store, job_key}
use ai_cloudhub.Queue.Lifecycle.{Change, Trace, start, step}
use ai_cloudhub.Queue.Lifecycle.Edges.{Change-live, Change-SameWork, SameWork}

-- The writes of one row, in order.
pub data History (j : Job) : Job → Type 0 where
  untouched : {k : Job} → k ≡ j → History j k
  written : {k l : Job} → History j k → Change k l → History j l

pub History-append : {j k l : Job} → History j k → History k l → History j l
History-append {j} h (untouched e) = subst (History j) (sym e) h
History-append h (written g c) = written (History-append h g) c

pub History-terminal : {j k : Job} → History j k → is_terminal j.status ≡ true → k ≡ j
History-terminal (untouched e) t = e
History-terminal {j} (written {k = k} h c) t =
    let same : k ≡ j = History-terminal h t in
    let live : is_terminal k.status ≡ false = Change-live c in
    absurd (cc (ap (λ (x : Job). is_terminal x.status) same))

SameWork-trans : {j k l : Job} → SameWork j k → SameWork k l → SameWork j l
SameWork-trans a b = ground arith

-- Whatever is written to a job, it stays the same work: its id, owner, drive, command, creation time,
-- priority, idempotency key, attempt limit and timeout never change.
pub History-SameWork : {j k : Job} → History j k → SameWork j k
History-SameWork {j} {k} (untouched e) = ground arith
History-SameWork (written h c) = SameWork-trans (History-SameWork h) (Change-SameWork c)

pub Trace-refl : {P : Text → Type 0} (st : Store) → Trace P st st
Trace-refl st = start refl (omega arith)

pub Trace-append : {P : Text → Type 0} {a b c : Store} → Trace P a b → Trace P b c → Trace P a c
Trace-append (start e d) (start e' d') = start (e' ∙ e) (omega arith)
Trace-append (step j k t f p c e d) (start e' d') = step j k t f p c (e' ∙ e) (omega arith)
Trace-append t (step j k u f p c e d) = step j k (Trace-append t u) f p c e d

pub Trace-mono :
    {P Q : Text → Type 0} {a b : Store} → ((u : Text) → P u → Q u) → Trace P a b → Trace Q a b
Trace-mono h (start e d) = start e d
Trace-mono h (step j k t f p c e d) = step j k (Trace-mono h t) f (h j.user_id p) c e d

pub Trace-drawn : {P : Text → Type 0} {a b : Store} → Trace P a b → a.drawn ≤ b.drawn
Trace-drawn (start e d) = d
Trace-drawn (step j k t f p c e d) = omega (arith, Trace-drawn t)

pub Trace-Unique :
    {P : Text → Type 0} {a b : Store} → Trace P a b → Unique job_key a.jobs → Unique job_key b.jobs
Trace-Unique (start e d) u = subst (Unique job_key) (sym e) u
Trace-Unique (step {mid = mid} j k t f p c e d) u =
    subst (Unique job_key) (sym e) (put-Unique job_key k mid.jobs (Trace-Unique t u))

-- The look-up of any id after one write.
find-step :
    (id : Text) (ks : List Job) (j k : Job)
    → find job_key j.id ks ≡ some j
    → Change j k
    → (find job_key id (put job_key k ks) ≡ find job_key id ks)
      ⊎ ((find job_key id ks ≡ some j) × (find job_key id (put job_key k ks) ≡ some k))
find-step id ks j k f c =
    let same = (Change-SameWork c).id in
    ground (arith, find-put job_key id k ks, ==_iff k.id id, same, ap (λ x. find job_key x ks) same)

-- A row that stands in the table stands there afterwards, with its writes behind it.
pub Trace-row :
    {P : Text → Type 0} {a b : Store} (id : Text) (j : Job)
    → Trace P a b
    → find job_key id a.jobs ≡ some j
    → (k : Job) × (find job_key id b.jobs ≡ some k) × History j k
Trace-row id j (start e d) f = (j, rw e f, untouched refl)
Trace-row id j (step {mid = mid} x y t g p c e d) f =
    let (k, found, history) = Trace-row id j t f in
    elim (find-step id mid.jobs x y g c) [
      | inl same ↦ (k, rw e (same ∙ found), history)
      | inr (old, new) ↦
          let here : k ≡ x = ground arith in
          (y, rw e new, written history (subst (λ z. Change z y) (sym here) c))
    ]

-- An id that is not in the table does not come in.
pub Trace-none :
    {P : Text → Type 0} {a b : Store} (id : Text)
    → Trace P a b
    → find job_key id a.jobs ≡ none
    → find job_key id b.jobs ≡ none
Trace-none id (start e d) f = rw e f
Trace-none id (step {mid = mid} x y t g p c e d) f =
    let missing = Trace-none id t f in
    elim (find-step id mid.jobs x y g c) [
      | inl same ↦ rw e (same ∙ missing)
      | inr (old, new) ↦ absurd (ground arith)
    ]

-- A row of a user that the writes may not touch stays what it was.
pub Trace-others :
    {P : Text → Type 0} {a b : Store} (id : Text) (j : Job)
    → Trace P a b
    → find job_key id a.jobs ≡ some j
    → ¬ P j.user_id
    → find job_key id b.jobs ≡ some j
Trace-others id j (start e d) f n = rw e f
Trace-others {P} id j (step {mid = mid} x y t g p c e d) f n =
    let kept = Trace-others id j t f n in
    elim (find-step id mid.jobs x y g c) [
      | inl same ↦ rw e (same ∙ kept)
      | inr (old, new) ↦
          let here : x ≡ j = ground arith in absurd (n (subst (λ (z : Job). P z.user_id) here p))
    ]
