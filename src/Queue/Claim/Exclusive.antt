-- ===== src/Queue/Claim/Exclusive.antt =====
-- About ClaimPendingJob of internal/store/memory.go: claims and releases of one job.
use ai_cloudhub.Common.{
  ℕ, ◌+◌, ◌≤◌, ◌≡◌, refl, sym, ap, subst, ◌∙◌, some, inl, inr, true, false, Bool-cases, arith,
  if◌then◌else◌,
}
use ai_cloudhub.Text.{Text, ◌==◌}
use ai_cloudhub.Text.Laws.{==_iff}
use ai_cloudhub.Table.{find, put}
use ai_cloudhub.Table.Laws.{find-put}
use ai_cloudhub.Job.{
  Status, running, Job, ok, err, job_not_claimable, job_not_found, is_running, is_claimable,
}
use ai_cloudhub.Job.Rows.{
  refused, changed, claim_row, heartbeat_row, fail_timeout_row, fail_max_attempts_row, release_row,
  complete_row, cancel_row,
}
use ai_cloudhub.Store.{Store, job_key, claim_pending_job}
use ai_cloudhub.Store.Laws.{claim_pending_job_cases, get_job-some, get_job-other}
use ai_cloudhub.Queue.Lifecycle.{
  Change, claimed, beaten, timed_out, given_up, released, completed, stopped,
}
use ai_cloudhub.Queue.Lifecycle.Traces.{History, untouched, written}

claimed_running :
    (now : ℕ) (agent runner : Text) (j k : Job)
    → claim_row now agent runner j ≡ changed k
    → (k.status ≡ running) × (k.id ≡ j.id) × (k.user_id ≡ j.user_id)
unfolding claim_row
claimed_running now agent runner j k h = ground arith

claim_row_running :
    (now : ℕ) (agent runner : Text) (j : Job)
    → j.status ≡ running
    → claim_row now agent runner j ≡ refused (job_not_claimable running)
unfolding claim_row
claim_row_running now agent runner j h = ground arith

-- Once ClaimPendingJob has succeeded for a job, the next ClaimPendingJob of that job fails and changes
-- nothing: for its user, under whatever agent and runner, it says that the job is running; for any
-- other user, that there is no such job.
pub claim_once :
    (u u' id agent runner agent' runner' : Text) (now now' : ℕ) (st st' : Store) (k : Job)
    → claim_pending_job now u id agent runner st ≡ (st', ok k)
    → claim_pending_job now' u' id agent' runner' st'
      ≡ (st', err (if u == u' then job_not_claimable running else job_not_found))
unfolding claim_pending_job
claim_once u u' id agent runner agent' runner' now now' st st' k won =
    elim (claim_pending_job_cases now u id agent runner st) [
      | inl (e, lost) ↦ absurd (cc (sym won ∙ lost))
      | inr (j, l, found, mine, here, row, wrote) ↦ second j l row mine here (cc (sym won ∙ wrote))
    ]
  where
    second :
        (j l : Job)
        → claim_row now agent runner j ≡ changed l
        → j.user_id ≡ u
        → j.id ≡ id
        → st' ≡ record st { jobs = put job_key l st.jobs }
        → claim_pending_job now' u' id agent' runner' st'
          ≡ (st', err (if u == u' then job_not_claimable running else job_not_found))
    second j l row mine here wrote =
        let (runs, same_id, same_user) = claimed_running now agent runner j l row in
        let its : l.user_id ≡ u = same_user ∙ mine in
        let stands : find job_key id st'.jobs ≡ some l = ground (
          arith,
          ap (λ (x : Store). find job_key id x.jobs) wrote,
          find-put job_key id l st.jobs,
          ==_iff l.id id,
        ) in
        elim (Bool-cases (u == u')) [
          | inl same ↦
              rw
                (
                  same,
                  get_job-some u' id st' l stands (its ∙ (==_iff u u').0 same),
                  claim_row_running now' agent' runner' l runs,
                )
                refl
          | inr other ↦
              let foreign : (l.user_id == u') ≡ false = ap (λ x. x == u') its ∙ other in
              rw (other, get_job-other u' id st' l stands foreign) refl
        ]

-- How often a history claims, and how often it gives back.
claim_count : {j k : Job} → Change j k → ℕ
claim_count (claimed now agent runner h) = 1
claim_count _ = 0

release_count : {j k : Job} → Change j k → ℕ
release_count (released now reason h) = 1
release_count _ = 0

pub claims_in : {j k : Job} → History j k → ℕ
unfolding claim_count
claims_in (untouched e) = 0
claims_in (written h c) = claims_in h + claim_count c

pub releases_in : {j k : Job} → History j k → ℕ
unfolding release_count
releases_in (untouched e) = 0
releases_in (written h c) = releases_in h + release_count c

abbrev held : Status → ℕ
held s = if is_running s then 1 else 0

abbrev not_waiting : Status → ℕ
not_waiting s = if is_claimable s then 0 else 1

Change-balance :
    {j k : Job} (c : Change j k)
    → claim_count c + not_waiting j.status ≤ release_count c + not_waiting k.status
unfolding claim_count release_count claim_row heartbeat_row fail_timeout_row fail_max_attempts_row
    release_row complete_row cancel_row
Change-balance (claimed now a r h) = ground arith
Change-balance (beaten now h) = ground arith
Change-balance (timed_out now sec h) = ground arith
Change-balance (given_up now a m h) = ground arith
Change-balance (released now r h) = ground arith
Change-balance (completed now m r h) = ground arith
Change-balance (stopped now n h) = ground arith

start_balance : (s t : Status) → t ≡ s → held s + 0 ≤ 0 + not_waiting t
start_balance s t e = subst (λ x. held s + 0 ≤ 0 + not_waiting x) (sym e) (grind arith)

not_waiting_le : (s : Status) → not_waiting s ≤ 1
not_waiting_le s = ground arith

held_running : (s : Status) → is_running s ≡ true → held s ≡ 1
held_running s h = rw h

balance :
    {j k : Job} (h : History j k)
    → held j.status + claims_in h ≤ releases_in h + not_waiting k.status
unfolding claims_in releases_in
balance {j} {k} (untouched e) = start_balance j.status k.status (ap (λ (x : Job). x.status) e)
balance (written h c) = omega (arith, balance h, Change-balance c)

-- Between two claims of a job lies a release: from a job that is running, a history claims it at most as
-- often as it gives it back.
pub claims-le-releases :
    {j k : Job} (h : History j k) → is_running j.status ≡ true → claims_in h ≤ releases_in h
claims-le-releases {j} {k} h r =
    omega (arith, balance h, held_running j.status r, not_waiting_le k.status)

Change-attempts : {j k : Job} (c : Change j k) → k.attempt_count ≡ j.attempt_count + claim_count c
unfolding claim_count claim_row heartbeat_row fail_timeout_row fail_max_attempts_row release_row
    complete_row cancel_row
Change-attempts (claimed now a r h) = ground arith
Change-attempts (beaten now h) = ground arith
Change-attempts (timed_out now sec h) = ground arith
Change-attempts (given_up now a m h) = ground arith
Change-attempts (released now r h) = ground arith
Change-attempts (completed now m r h) = ground arith
Change-attempts (stopped now n h) = ground arith

-- Over any history of a job, attempt_count grows by exactly the number of its claims.
pub attempts_in : {j k : Job} (h : History j k) → k.attempt_count ≡ j.attempt_count + claims_in h
unfolding claims_in
attempts_in {j} {k} (untouched e) = omega (arith, ap (λ (x : Job). x.attempt_count) e)
attempts_in (written h c) = omega (arith, attempts_in h, Change-attempts c)
