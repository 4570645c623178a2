-- ===== src/Queue/Claim.antt =====
-- internal/job/service.go: Claim, ClaimNext and ClaimNextFiltered. sort.Slice is a parameter, since
-- Go does not say where it leaves elements that compare equal.
use ai_cloudhub.Common.{
  ℕ, suc, Bool, true, false, ◌&&◌, ◌||◌, List, [], ◌∷◌, Option, none, some, ltb, if◌then◌else◌,
}
use ai_cloudhub.Text.{Text, codes, trim_space, is_empty, ◌==◌}
use ai_cloudhub.Int.{ltb_ℤ, eqb_ℤ}
use ai_cloudhub.Job.{
  Job, Err, Result, ok, err, no_pending_jobs, no_pending_jobs_in_region, no_claimable_jobs,
  release_failed, is_claimable,
}
use ai_cloudhub.Store.{Store, claim_pending_job, list_pending_jobs}
use ai_cloudhub.Queue.{Service, release_to_pending}
use ai_cloudhub.Queue.Reclaim.{reclaim_stale}
pub mod Order
pub mod Best
pub mod Exclusive

-- Priority descending, then oldest first.
unfoldable pub claim_order : Job → Job → Bool
claim_order a b =
    if eqb_ℤ a.priority b.priority
    then ltb a.created_at b.created_at
    else ltb_ℤ b.priority a.priority

-- `region` is trimmed; an empty one lets every job through.
unfoldable pub in_region : Text → Job → Bool
in_region region j = is_empty region || trim_space j.region_hint == region

unfoldable pub eligible : Text → Job → Bool
unfolding in_region
eligible region j = is_claimable j.status && in_region region j

unfoldable pub none_pending : Text → Err
none_pending region = if is_empty region then no_pending_jobs else no_pending_jobs_in_region region

-- Who claims, and when.
pub record Claimer : Type 0 where
  pub now : ℕ
  pub user_id : Text
  pub agent : Text
  pub runner : Text

abbrev pub claim_by : Claimer → Text → Store → Store × Result Job
claim_by c id st = claim_pending_job c.now c.user_id id c.agent c.runner st

unfoldable pub claim_scan : Claimer → Text → List Job → Store → Store × Result Job
claim_scan c region [] st = (st, err (none_pending region))
claim_scan c region (j ∷ js) st = elim (eligible region j) [
  | false ↦ claim_scan c region js st
  | true ↦ elim (claim_by c j.id st).1 [
    | ok claimed ↦ ((claim_by c j.id st).0, ok claimed)
    | err e ↦ claim_scan c region js (claim_by c j.id st).0
  ]
]

unfoldable pub none_allowed : Text → ℕ → Err
none_allowed last_deny skipped =
    if is_empty last_deny then no_pending_jobs else no_claimable_jobs skipped last_deny

-- `allow` gives the empty text for a drive that is allowed, else the reason of the refusal.
unfoldable pub claim_scan_filtered :
    Claimer → Text → (Text → Text) → Text → ℕ → List Job → Store → Store × Result Job
claim_scan_filtered c region allow last_deny skipped [] st =
    (st, err (none_allowed last_deny skipped))
claim_scan_filtered c region allow last_deny skipped (j ∷ js) st = elim (eligible region j) [
  | false ↦ claim_scan_filtered c region allow last_deny skipped js st
  | true ↦ elim (is_empty (allow j.drive_id)) [
    | false ↦ claim_scan_filtered c region allow (allow j.drive_id) (suc skipped) js st
    | true ↦ elim (claim_by c j.id st).1 [
      | err e ↦ claim_scan_filtered c region allow last_deny skipped js (claim_by c j.id st).0
      | ok claimed ↦ elim (is_empty (allow claimed.drive_id)) [
        | true ↦ ((claim_by c j.id st).0, ok claimed)
        | false ↦
            let given_back =
              release_to_pending c.now c.user_id claimed.id (allow claimed.drive_id)
                (claim_by c j.id st).0 in
            elim given_back.1 [
              | err e ↦ (given_back.0, err (release_failed (allow claimed.drive_id) claimed.id))
              | ok freed ↦
                  claim_scan_filtered c region allow (allow claimed.drive_id) skipped js
                    given_back.0
            ]
      ]
    ]
  ]
]

module _ (sv : Service) (sort_slice : (Job → Job → Bool) → List Job → List Job) where
  unfoldable pub claim : Claimer → Text → Store → Store × Result Job
  claim c id st = claim_by c id (reclaim_stale sv c.now c.user_id st).0

  -- What ClaimNext looks at once stale jobs are reclaimed.
  abbrev pub candidates : Claimer → Store → List Job
  candidates c st = sort_slice claim_order (list_pending_jobs c.user_id st)

  unfoldable pub claim_next : Claimer → Text → Store → Store × Result Job
  unfolding claim_scan
  claim_next c region st =
      let st' = (reclaim_stale sv c.now c.user_id st).0 in
      elim (list_pending_jobs c.user_id st') [
        | [] ↦ (st', err no_pending_jobs)
        | j ∷ js ↦ claim_scan c (trim_space region) (candidates c st') st'
      ]

  -- A nil `allow` is `none`.
  unfoldable pub claim_next_filtered :
      Claimer → Text → Option (Text → Text) → Store → Store × Result Job
  unfolding claim_next claim_scan_filtered
  claim_next_filtered c region none st = claim_next c region st
  claim_next_filtered c region (some allow) st =
      let st' = (reclaim_stale sv c.now c.user_id st).0 in
      elim (list_pending_jobs c.user_id st') [
        | [] ↦ (st', err no_pending_jobs)
        | j ∷ js ↦
            claim_scan_filtered c (trim_space region) allow (codes "") 0 (candidates c st') st'
      ]
