-- ===== src/Queue/Claim/Best.antt =====
-- About ClaimNext of internal/job/service.go: which job it takes.
use ai_cloudhub.Common.{
  ◌+◌, ◌≡◌, refl, subst, ap, ◌∙◌, List, [], ◌∷◌, some, ◌⊎◌, inl, inr, Bool, true, false, Bool-cases,
  All, All-intro, All-lookup, Has, keep-mem, mem-keep, List-cases, &&-eq-true,
}
use ai_cloudhub.Text.{Text, ◌==◌, trim_space}
use ai_cloudhub.Text.Laws.{==_iff}
use ai_cloudhub.Table.{find, put, Unique}
use ai_cloudhub.Table.Laws.{Has-find}
use ai_cloudhub.Sort.{IsSorted}
use ai_cloudhub.Sort.Laws.{StrictWeak-irrefl}
use ai_cloudhub.Job.{Status, Job, Result, Err, ok, err, no_pending_jobs, is_claimable}
use ai_cloudhub.Job.Rows.{claim_row}
use ai_cloudhub.Store.{Store, job_key, claim_pending_job, list_pending_jobs}
use ai_cloudhub.Store.Laws.{get_job-some}
use ai_cloudhub.Queue.{Service}
use ai_cloudhub.Queue.Reclaim.{reclaim_stale}
use ai_cloudhub.Queue.Claim.{
  Claimer, claim_by, claim_scan, claim_next, claim_order, eligible, in_region, none_pending,
}
use ai_cloudhub.Queue.Claim.Order.{SortsSlices, claim_order-StrictWeak}
use ai_cloudhub.Queue.Lifecycle.Traces.{Trace-Unique}
use ai_cloudhub.Queue.Lifecycle.Calls.{reclaim_stale-Trace}

-- The row that a claim writes.
unfoldable pub claimed_row : Claimer → Job → Job
claimed_row c j = record j {
  status = Status.running;
  claimed_by_agent_id = c.agent;
  claimed_by_runner_id = c.runner;
  heartbeat_at = c.now;
  claimed_at = c.now;
  attempt_count = j.attempt_count + 1;
  updated_at = c.now;
}

-- A job of the claimer's that waits in the table.
pub record Waits (c : Claimer) (st : Store) (j : Job) : Type 0 where
  pub stands : find job_key j.id st.jobs ≡ some j
  pub mine : j.user_id ≡ c.user_id
  pub claimable : is_claimable j.status ≡ true

pub claim_wins :
    (c : Claimer) (st : Store) (j : Job)
    → Waits c st j
    → claim_by c j.id st
      ≡ (record st { jobs = put job_key (claimed_row c j) st.jobs }, ok (claimed_row c j))
unfolding claim_pending_job claim_row claimed_row
claim_wins c st j w =
    rw (get_job-some c.user_id j.id st j w.stands w.mine, claim_pending_job) (rw (w.claimable))

module _ (c : Claimer) (region : Text) (st : Store) where
  -- No waiting job of the list should come before `j`.
  abbrev IsBest : List Job → Job → Type 0
  IsBest js j = (o : Job) → Has o js → eligible region o ≡ true → claim_order o j ≡ false

  -- The store and the answer once `j` is claimed.
  abbrev Won : Job → Store × Result Job
  Won j = (record st { jobs = put job_key (claimed_row c j) st.jobs }, ok (claimed_row c j))

  scan_lem :
      (js : List Job)
      → All (Waits c st) js
      → IsSorted claim_order js
      → ((claim_scan c region js st ≡ (st, err (none_pending region)))
          × All (λ j. eligible region j ≡ false) js)
        ⊎ ((j : Job) × Has j js
            × (eligible region j ≡ true)
            × IsBest js j
            × (claim_scan c region js st ≡ Won j))
  unfolding claim_scan
  scan_lem [] w s = inl (refl, tt)
  scan_lem (j ∷ js) w s = elim (Bool-cases (eligible region j)) [
    | inl in_reach ↦
        let won = claim_wins c st j w.0 in
        let result : claim_scan c region (j ∷ js) st ≡ Won j =
          rw (in_reach, claim_scan, won)
            (ap (λ (out : Store × Result Job). (out.0, (Won j).1)) won) in
        inr (j, inl refl, in_reach, best, result)
    | inr out ↦ elim (scan_lem js w.1 s.1) [
      | inl (e, none_fits) ↦ inl (rw (out, claim_scan) e, (out, none_fits))
      | inr (k, m, fits, best_of, e) ↦
          inr (k, inr m, fits, extend k out best_of, rw (out, claim_scan) e)
    ]
  ]
    where
      best : IsBest (j ∷ js) j
      best o (inl e) _ = rw e (StrictWeak-irrefl claim_order claim_order-StrictWeak j)
      best o (inr m) _ = All-lookup _ js o s.0 m

      extend : (k : Job) → eligible region j ≡ false → IsBest js k → IsBest (j ∷ js) k
      extend k out best_of o (inl e) fits = absurd (cc (ap (eligible region) e))
      extend k out best_of o (inr m) fits = best_of o m fits

module _ (sv : Service) (sort_slice : (Job → Job → Bool) → List Job → List Job)
    (sorts : SortsSlices sort_slice) (c : Claimer) (region : Text) (st : Store)
    (unique : Unique job_key st.jobs) where
  -- The store once the stale jobs are reclaimed.
  abbrev pub reclaimed : Store
  reclaimed = (reclaim_stale sv c.now c.user_id st).0

  -- A job of the claimer's in the region that waits for a runner.
  pub record CanTake (j : Job) : Type 0 where
    pub stands : Has j reclaimed.jobs
    pub mine : j.user_id ≡ c.user_id
    pub fits : eligible (trim_space region) j ≡ true

  listed-Waits : (j : Job) → Has j (list_pending_jobs c.user_id reclaimed) → Waits c reclaimed j
  unfolding list_pending_jobs
  listed-Waits j m =
      let (had, test) = mem-keep _ reclaimed.jobs j m in
      let (mine, waiting) = &&-eq-true (j.user_id == c.user_id) _ test in
      record {
        stands =
            Has-find job_key reclaimed.jobs j
              (Trace-Unique (reclaim_stale-Trace sv c.now c.user_id st) unique) had;
        mine = (==_iff j.user_id c.user_id).0 mine;
        claimable = waiting;
      }

  CanTake-listed : (j : Job) → CanTake j → Has j (list_pending_jobs c.user_id reclaimed)
  unfolding list_pending_jobs eligible
  CanTake-listed j t = keep-mem _ reclaimed.jobs j t.stands (
      rw ((==_iff j.user_id c.user_id).1 t.mine)
        (&&-eq-true (is_claimable j.status) (in_region (trim_space region) j) t.fits).0)

  listed-CanTake :
      (j : Job)
      → Has j (list_pending_jobs c.user_id reclaimed)
      → eligible (trim_space region) j ≡ true
      → CanTake j
  unfolding list_pending_jobs
  listed-CanTake j m fits =
      let (had, test) = mem-keep _ reclaimed.jobs j m in
      record {
        stands = had;
        mine = (==_iff j.user_id c.user_id).0 (&&-eq-true (j.user_id == c.user_id) _ test).0;
        fits = fits;
      }

  abbrev queue_order : List Job
  queue_order = sort_slice claim_order (list_pending_jobs c.user_id reclaimed)

  -- What ClaimNext answers, as a function of the listing that it tests for emptiness.
  abbrev answer_to : List Job → Store × Result Job
  answer_to l = elim l [
    | [] ↦ (reclaimed, err no_pending_jobs)
    | j ∷ js ↦ claim_scan c (trim_space region) queue_order reclaimed
  ]

  claim_next-answer_to :
      {l : List Job}
      → list_pending_jobs c.user_id reclaimed ≡ l
      → claim_next sv sort_slice c region st ≡ answer_to l
  unfolding claim_next
  claim_next-answer_to e = ap answer_to e

  -- ClaimNext, with a sort that permutes and sorts and a table with distinct ids: either no job can be taken
  -- once the stale ones are reclaimed, and the answer is an error; or the job that is claimed can be taken,
  -- no other that can should come before it, and its row is written as claimed.
  pub claim_next-best :
      ((e : Err) × (claim_next sv sort_slice c region st ≡ (reclaimed, err e))
        × ((j : Job) → ¬ CanTake j))
      ⊎ ((j : Job) × CanTake j
          × ((o : Job) → CanTake o → claim_order o j ≡ false)
          × (claim_next sv sort_slice c region st ≡ (
            record reclaimed { jobs = put job_key (claimed_row c j) reclaimed.jobs },
            ok (claimed_row c j),
          )))
  claim_next-best = elim (List-cases (list_pending_jobs c.user_id reclaimed)) [
    | inl e ↦
        inl (no_pending_jobs, claim_next-answer_to e, λ j t. subst (Has j) e (CanTake-listed j t))
    | inr (x, xs, e) ↦
        let (same, sorted) =
          sorts claim_order (list_pending_jobs c.user_id reclaimed) claim_order-StrictWeak in
        let waits =
          All-intro (Waits c reclaimed) queue_order (λ j m. listed-Waits j ((same j).0 m)) in
        let queued : (j : Job) → CanTake j → Has j queue_order =
          λ j t. (same j).1 (CanTake-listed j t) in
        elim (scan_lem c (trim_space region) reclaimed queue_order waits sorted) [
          | inl (h, none_fits) ↦ inl (
            none_pending (trim_space region),
            claim_next-answer_to e ∙ h,
            λ j t.
                let out = All-lookup _ queue_order j none_fits (queued j t) in absurd (cc (t.fits)),
          )
          | inr (j, m, fits, best, h) ↦ inr (
            j,
            listed-CanTake j ((same j).0 m) fits,
            (λ o t. best o (queued o t) t.fits),
            claim_next-answer_to e ∙ h,
          )
        ]
  ]
