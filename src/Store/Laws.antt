-- ===== src/Store/Laws.antt =====
-- About the methods on jobs of internal/store/memory.go: look-ups, writes and claims.
use ai_cloudhub.Common.{ℕ, ◌⊎◌, inl, inr, refl, ◌≡◌, ap, Option, none, some, arith, false}
use ai_cloudhub.Text.{Text, ◌==◌}
use ai_cloudhub.Text.Laws.{==_iff}
use ai_cloudhub.Table.{find, put}
use ai_cloudhub.Table.Laws.{find-key}
use ai_cloudhub.Job.{Job, Result, Err, ok, err, job_not_found}
use ai_cloudhub.Job.Rows.{Outcome, refused, kept, changed, claim_row}
use ai_cloudhub.Store.{
  Store, job_key, owned, get_job, get_job_by_id, update_job, claim_pending_job, claim_found,
  write_claim,
}

owned-ok : (u : Text) (o : Option Job) {j : Job} → owned u o ≡ ok j → (o ≡ some j) × (j.user_id ≡ u)
unfolding owned
owned-ok u none h = ground arith
owned-ok u (some k) {j} h = ground (arith, ==_iff k.user_id u)

pub get_job-ok :
    (u id : Text) (st : Store) {j : Job}
    → get_job u id st ≡ ok j
    → (find job_key id st.jobs ≡ some j) × (j.user_id ≡ u) × (j.id ≡ id)
unfolding get_job
get_job-ok u id st {j} h =
    let (found, mine) = owned-ok u (find job_key id st.jobs) {j = j} h in
    (found, mine, find-key job_key id st.jobs {r = j} found)

pub get_job-some :
    (u id : Text) (st : Store) (j : Job)
    → find job_key id st.jobs ≡ some j
    → j.user_id ≡ u
    → get_job u id st ≡ ok j
unfolding get_job owned
get_job-some u id st j h mine = rw h (ground (arith, ==_iff j.user_id u))

pub get_job-other :
    (u id : Text) (st : Store) (j : Job)
    → find job_key id st.jobs ≡ some j
    → (j.user_id == u) ≡ false
    → get_job u id st ≡ err job_not_found
unfolding get_job owned
get_job-other u id st j h other = rw (h, other) refl

pub get_job_by_id-ok :
    (id : Text) (st : Store) {j : Job}
    → get_job_by_id id st ≡ ok j
    → (find job_key id st.jobs ≡ some j) × (j.id ≡ id)
unfolding get_job_by_id
get_job_by_id-ok id st {j} h =
    let found : find job_key id st.jobs ≡ some j = ground arith in
    (found, find-key job_key id st.jobs {r = j} found)

pub update_job-some :
    (j : Job) (st : Store) {st' : Store}
    → update_job j st ≡ some st'
    → (st'.jobs ≡ put job_key j st.jobs) × (st'.webhooks ≡ st.webhooks) × (st'.drawn ≡ st.drawn)
unfolding update_job
update_job-some j st h = ground arith

-- A row that keeps its id and its owner can be written back.
pub update_job_total :
    (j j' : Job) (st : Store)
    → find job_key j.id st.jobs ≡ some j
    → j'.id ≡ j.id
    → j'.user_id ≡ j.user_id
    → update_job j' st ≡ some (record st { jobs = put job_key j' st.jobs })
unfolding update_job
update_job_total j j' st h i u =
    ground (arith, ==_iff j.user_id j'.user_id, ap (λ x. find job_key x st.jobs) i)

-- A claim either fails and leaves the store alone, or writes the claimed row.
pub claim_pending_job_cases :
    (now : ℕ) (u id agent runner : Text) (st : Store)
    → ((e : Err) × (claim_pending_job now u id agent runner st ≡ (st, err e)))
      ⊎ ((j : Job) × (k : Job) × (find job_key id st.jobs ≡ some j)
          × (j.user_id ≡ u)
          × (j.id ≡ id)
          × (claim_row now agent runner j ≡ changed k)
          × (claim_pending_job now u id agent runner st
              ≡ (record st { jobs = put job_key k st.jobs }, ok k)))
unfolding claim_pending_job claim_row
claim_pending_job_cases now u id agent runner st = look_up (get_job u id st) refl
  where
    Claims : Store × Result Job → Type 0
    Claims out =
        ((e : Err) × (out ≡ (st, err e)))
        ⊎ ((j : Job) × (k : Job) × (find job_key id st.jobs ≡ some j)
            × (j.user_id ≡ u)
            × (j.id ≡ id)
            × (claim_row now agent runner j ≡ changed k)
            × (out ≡ (record st { jobs = put job_key k st.jobs }, ok k)))

    write :
        (j : Job) (o : Outcome)
        → get_job u id st ≡ ok j
        → claim_row now agent runner j ≡ o
        → Claims (write_claim st o)
    write j (refused e) found h = inl (e, refl)
    write j (kept k) found h = absurd (ground arith)
    write j (changed k) found h =
        let (row, mine, here) = get_job-ok u id st found in inr (j, k, row, mine, here, h, refl)

    look_up : (r : Result Job) → get_job u id st ≡ r → Claims (claim_found now agent runner st r)
    look_up (err e) h = inl (e, refl)
    look_up (ok j) h = write j (claim_row now agent runner j) h refl
