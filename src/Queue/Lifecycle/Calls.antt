-- ===== src/Queue/Lifecycle/Calls.antt =====
-- About the loops of internal/job/service.go, reclaim and claim, as writes of the specification.
use native.Mathlib.Omega.{arith}
use ai_cloudhub.Common.{
  ℕ, suc, List, [], ◌∷◌, ◌≡◌, refl, some, none, Option, List-cases, Bool-cases, inl, inr, Bool,
}
use ai_cloudhub.Text.{Text, codes, is_empty, trim_space}
use ai_cloudhub.Job.{Result-cases, Job, Result, ok, err}
use ai_cloudhub.Store.{Store, list_running_jobs, list_pending_jobs}
use ai_cloudhub.Queue.{Service, release_to_pending, fail_timeout, fail_max_attempts}
use ai_cloudhub.Queue.Reclaim.{
  Verdict, wait, time_out, give_up, release, judge, last_sign, last_sign_all, tally, carry_out,
  reclaim_loop, reclaim_stale, reclaim_all_loop, reclaim_stale_all,
}
use ai_cloudhub.Queue.Claim.{
  Claimer, claim_by, claim, claim_scan, claim_scan_filtered, claim_next, claim_next_filtered,
  eligible,
}
use ai_cloudhub.Queue.Lifecycle.{Trace, start}
use ai_cloudhub.Queue.Lifecycle.Traces.{Trace-append, Trace-mono}
use ai_cloudhub.Queue.Lifecycle.Operations.{
  Only, release-Trace, fail_timeout-Trace, fail_max_attempts-Trace, claim_pending_job-Trace,
}

-- No restriction on users.
abbrev pub Anyone : Text → Type 0
Anyone u = Unit {0}

tally-store : (out : Store × Result Job) (n : ℕ) → (tally out n).0 ≡ out.0
tally-store (st, ok j) n = refl
tally-store (st, err e) n = refl

module _ (sv : Service) (now : ℕ) where
  carry_out-Trace :
      (u id : Text) (v : Verdict) (st : Store) (n : ℕ)
      → Trace (Only u) st (carry_out sv now u id v st n).0
  unfolding carry_out
  carry_out-Trace u id wait st n = start refl (omega arith)
  carry_out-Trace u id (time_out sec) st n =
      rw (tally-store (fail_timeout sv now u id sec st) n) (fail_timeout-Trace now u id st sv sec)
  carry_out-Trace u id (give_up attempt max) st n =
      rw (tally-store (fail_max_attempts sv now u id attempt max st) n)
        (fail_max_attempts-Trace now u id st sv attempt max)
  carry_out-Trace u id release st n =
      rw (tally-store (release_to_pending now u id (codes "lease expired") st) n)
        (release-Trace now u id st (codes "lease expired"))

  reclaim_loop-Trace :
      (u : Text) (js : List Job) (st : Store) (n : ℕ)
      → Trace (Only u) st (reclaim_loop sv now u js st n).0
  unfolding reclaim_loop
  reclaim_loop-Trace u [] st n = start refl (omega arith)
  reclaim_loop-Trace u (j ∷ js) st n =
      let (st', n') = carry_out sv now u j.id (judge sv now (last_sign j) j) st n in
      Trace-append (carry_out-Trace u j.id (judge sv now (last_sign j) j) st n)
        (reclaim_loop-Trace u js st' n')

  pub reclaim_stale-Trace :
      (u : Text) (st : Store) → Trace (Only u) st (reclaim_stale sv now u st).0
  unfolding reclaim_stale
  reclaim_stale-Trace u st = reclaim_loop-Trace u (list_running_jobs u st) st 0

  reclaim_all_loop-Trace :
      (js : List Job) (st : Store) (n : ℕ) → Trace Anyone st (reclaim_all_loop sv now js st n).0
  unfolding reclaim_all_loop
  reclaim_all_loop-Trace [] st n = start refl (omega arith)
  reclaim_all_loop-Trace (j ∷ js) st n =
      let (st', n') = carry_out sv now j.user_id j.id (judge sv now (last_sign_all j) j) st n in
      Trace-append
        (Trace-mono (λ u e. tt)
          (carry_out-Trace j.user_id j.id (judge sv now (last_sign_all j) j) st n))
        (reclaim_all_loop-Trace js st' n')

  pub reclaim_stale_all-Trace : (st : Store) → Trace Anyone st (reclaim_stale_all sv now st).0
  unfolding reclaim_stale_all
  reclaim_stale_all-Trace st = reclaim_all_loop-Trace (list_running_jobs (codes "") st) st 0

module _ (c : Claimer) (region : Text) where
  claim_by-Trace : (id : Text) (st : Store) → Trace (Only c.user_id) st (claim_by c id st).0
  claim_by-Trace id st = claim_pending_job-Trace c.now c.user_id id c.agent c.runner st

  claim_scan-Trace :
      (js : List Job) (st : Store) → Trace (Only c.user_id) st (claim_scan c region js st).0
  unfolding claim_scan
  claim_scan-Trace [] st = start refl (omega arith)
  claim_scan-Trace (j ∷ js) st = elim (Bool-cases (eligible region j)) [
    | inr out ↦ rw (out, claim_scan) (claim_scan-Trace js st)
    | inl in_reach ↦ elim (Result-cases (claim_by c j.id st).1) [
      | inl (k, won) ↦ rw (in_reach, won, claim_scan) (claim_by-Trace j.id st)
      | inr (e, lost) ↦
          rw (in_reach, lost, claim_scan)
            (Trace-append (claim_by-Trace j.id st) (claim_scan-Trace js _))
    ]
  ]

  module _ (allow : Text → Text) where
    filtered-Trace :
        (deny : Text) (n : ℕ) (js : List Job) (st : Store)
        → Trace (Only c.user_id) st (claim_scan_filtered c region allow deny n js st).0
    unfolding claim_scan_filtered
    filtered-Trace deny n [] st = start refl (omega arith)
    filtered-Trace deny n (j ∷ js) st =
        let tried = claim_by-Trace j.id st in
        elim (Bool-cases (eligible region j)) [
          | inr out ↦ rw (out, claim_scan_filtered) (filtered-Trace deny n js st)
          | inl in_reach ↦ elim (Bool-cases (is_empty (allow j.drive_id))) [
            | inr denied ↦
                rw (in_reach, denied, claim_scan_filtered)
                  (filtered-Trace (allow j.drive_id) (suc n) js st)
            | inl allowed ↦ elim (Result-cases (claim_by c j.id st).1) [
              | inr (e, lost) ↦
                  rw (in_reach, allowed, lost, claim_scan_filtered)
                    (Trace-append tried (filtered-Trace deny n js _))
              | inl (k, won) ↦ elim (Bool-cases (is_empty (allow k.drive_id))) [
                | inl still ↦ rw (in_reach, allowed, won, still, claim_scan_filtered) tried
                | inr late ↦
                    let st' = (claim_by c j.id st).0 in
                    let freed = release_to_pending c.now c.user_id k.id (allow k.drive_id) st' in
                    let back =
                      Trace-append tried
                        (release-Trace c.now c.user_id k.id st' (allow k.drive_id)) in
                    elim (Result-cases freed.1) [
                      | inr (e, stuck) ↦
                          rw (in_reach, allowed, won, late, stuck, claim_scan_filtered) back
                      | inl (_, gone) ↦
                          rw (in_reach, allowed, won, late, gone, claim_scan_filtered)
                            (Trace-append back (filtered-Trace (allow k.drive_id) n js freed.0))
                    ]
              ]
            ]
          ]
        ]

module _ (sv : Service) (sort_slice : (Job → Job → Bool) → List Job → List Job) (c : Claimer) where
  pub claim-Trace :
      (id : Text) (st : Store) → Trace (Only c.user_id) st (claim sv sort_slice c id st).0
  unfolding claim
  claim-Trace id st =
      Trace-append (reclaim_stale-Trace sv c.now c.user_id st)
        (claim_pending_job-Trace c.now c.user_id id c.agent c.runner _)

  pub claim_next-Trace :
      (region : Text) (st : Store)
      → Trace (Only c.user_id) st (claim_next sv sort_slice c region st).0
  unfolding claim_next
  claim_next-Trace region st =
      let st' = (reclaim_stale sv c.now c.user_id st).0 in
      let first = reclaim_stale-Trace sv c.now c.user_id st in
      elim (List-cases (list_pending_jobs c.user_id st')) [
        | inl e ↦ rw (e, claim_next) first
        | inr (j, js, e) ↦
            rw (e, claim_next) (Trace-append first (claim_scan-Trace c (trim_space region) _ st'))
      ]

  pub claim_next_filtered-Trace :
      (region : Text) (allow : Option (Text → Text)) (st : Store)
      → Trace (Only c.user_id) st (claim_next_filtered sv sort_slice c region allow st).0
  unfolding claim_next_filtered
  claim_next_filtered-Trace region none st = claim_next-Trace region st
  claim_next_filtered-Trace region (some allow) st =
      let st' = (reclaim_stale sv c.now c.user_id st).0 in
      let first = reclaim_stale-Trace sv c.now c.user_id st in
      elim (List-cases (list_pending_jobs c.user_id st')) [
        | inl e ↦ rw (e, claim_next_filtered) first
        | inr (j, js, e) ↦
            rw (e, claim_next_filtered)
              (Trace-append first (filtered-Trace c (trim_space region) allow (codes "") 0 _ st'))
      ]
