-- ===== src/Store/Listing/Counts.antt =====
-- About CountJobsByStatus of internal/store/memory.go.
use ai_cloudhub.Common.{ℕ, suc, ◌+◌, ◌≡◌, List, [], ◌∷◌, arith, Bool-cases, length, keep, inl, inr}
use ai_cloudhub.Text.{Text}
use ai_cloudhub.Job.{Status, Job}
use ai_cloudhub.Store.{Store}
use ai_cloudhub.Store.Listing.{
  JobStatusCounts, add_status, no_counts, count_from, count_jobs_by_status, matches,
}

-- The sum of the six counts.
abbrev pub by_status : JobStatusCounts → ℕ
by_status c = c.pending + c.dispatched + c.running + c.succeeded + c.failed + c.cancelled

add_status-counts :
    (s : Status) (c : JobStatusCounts)
    → ((add_status s c).total ≡ suc c.total) × (by_status (add_status s c) ≡ suc (by_status c))
unfolding add_status
add_status-counts s c = ground arith

count_from-counts :
    (u : Text) (c : JobStatusCounts) (js : List Job)
    → let d = count_from u c js in
      let n = length (keep (λ j. matches u j.user_id) js) in
      (d.total ≡ c.total + n) × (by_status d ≡ by_status c + n)
unfolding count_from
count_from-counts u c [] = (omega arith, omega arith)
count_from-counts u c (j ∷ js) = elim (Bool-cases (matches u j.user_id)) [
  | inl counted ↦
      let (t, b) = add_status-counts j.status c in
      let (t', b') = count_from-counts u (add_status j.status c) js in
      rw (counted, count_from) (omega (arith, t, b, t', b'), omega (arith, t, b, t', b'))
  | inr left_out ↦ rw (left_out, count_from) (count_from-counts u c js)
]

-- The counts by status add up: the total is the number of the user's jobs, of all jobs for an empty user,
-- and the six counts sum to it.
pub count_jobs_by_status_total :
    (u : Text) (st : Store)
    → let d = count_jobs_by_status u st in
      (d.total ≡ length (keep (λ j. matches u j.user_id) st.jobs)) × (by_status d ≡ d.total)
unfolding count_jobs_by_status
count_jobs_by_status_total u st =
    let (t, b) = count_from-counts u no_counts st.jobs in (omega (arith, t), omega (arith, t, b))
