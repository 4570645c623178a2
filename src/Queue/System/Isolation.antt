-- ===== src/Queue/System/Isolation.antt =====
-- About lists of calls of internal/job/service.go that run for one user, and the jobs of another.
use ai_cloudhub.Common.{
  ℕ, ◌≤◌, ◌≡◌, ◌≢◌, sym, ap, ◌∙◌, List, [], ◌∷◌, Option, none, some, inl, inr, Bool, arith, All,
}
use ai_cloudhub.Text.{Text}
use ai_cloudhub.Text.Laws.{==_iff}
use ai_cloudhub.Table.{find}
use ai_cloudhub.Table.Laws.{find-put}
use ai_cloudhub.Outbox.{Outbox}
use ai_cloudhub.Job.{Job, CreateInput}
use ai_cloudhub.Store.{Store, job_key, create_job}
use ai_cloudhub.Queue.{Service}
use ai_cloudhub.Queue.Create.{create, insert_job, new_job}
use ai_cloudhub.Queue.Create.Cases.{create_cases}
use ai_cloudhub.Queue.Lifecycle.{Trace}
use ai_cloudhub.Queue.Lifecycle.Traces.{Trace-others}
use ai_cloudhub.Queue.Lifecycle.Operations.{
  heartbeat-Trace, release-Trace, complete-Trace, cancel-Trace,
}
use ai_cloudhub.Queue.Lifecycle.Calls.{
  reclaim_stale-Trace, claim-Trace, claim_next-Trace, claim_next_filtered-Trace,
}
use ai_cloudhub.Queue.System.{
  Call, creates, claims, claims_next, claims_next_filtered, heartbeats, releases, completes,
  cancels, reclaims, answer, answer_all,
}
use ai_cloudhub.Queue.System.Acts.{answer-Act}
use ai_cloudhub.Queue.System.Safety.{Distinct, Inv, Act-Inv, Act-drawn, undrawn}

-- The user on whose behalf a call runs; none for those of the administrator and of the workers.
abbrev pub caller : Call → Option Text
caller (creates now u input) = some u
caller (claims c id) = some c.user_id
caller (claims_next c region) = some c.user_id
caller (claims_next_filtered c region allow) = some c.user_id
caller (heartbeats now u id) = some u
caller (releases now u id reason) = some u
caller (completes now u id result) = some u
caller (cancels now u id) = some u
caller (reclaims now u) = some u
caller _ = none

-- A call of somebody else than the owner.
abbrev pub Foreign : Text → Call → Type 0
Foreign owner c = (v : Text) × (caller c ≡ some v) × (v ≢ owner)

module _ (sv : Service) (id : Text) (j : Job) (st : Store)
    (found : find job_key id st.jobs ≡ some j) where
  not_owner : {u v : Text} → some u ≡ some v → v ≢ j.user_id → u ≢ j.user_id
  not_owner mine other e = other (ground arith)

  create_other :
      (now : ℕ) (u : Text) (input : CreateInput)
      → sv.uuid st.drawn ≢ id
      → find job_key id (create sv now u input st).0.jobs ≡ some j
  unfolding insert_job create_job new_job
  create_other now u input n = elim (create_cases sv now u input st) [
    | inl same ↦ ap (λ (x : Store). find job_key id x.jobs) same ∙ found
    | inr (p, new) ↦
        ap (λ x. find job_key id x.0.jobs) new
        ∙ ground (
          arith,
          found,
          find-put job_key id (new_job now (sv.uuid st.drawn) u input p) st.jobs,
          ==_iff (sv.uuid st.drawn) id,
        )
  ]

  owned_by :
      (u : Text) (end : Store)
      → u ≢ j.user_id
      → Trace (λ v. v ≡ u) st end
      → find job_key id end.jobs ≡ some j
  owned_by u end n t = Trace-others id j t found (λ e. n (sym e))

  -- The call runs for `v`, which is not the owner.
  other_call :
      (sort_slice : (Job → Job → Bool) → List Job → List Job) (deliver : ℕ → Outbox → Bool × Text)
      → (c : Call) (v : Text) → sv.uuid st.drawn ≢ id
      → caller c ≡ some v
      → v ≢ j.user_id
      → find job_key id (answer sv sort_slice deliver c st).jobs ≡ some j
  unfolding answer
  other_call s d (creates now u input) v n mine other = create_other now u input n
  other_call s d (claims c id') v n mine other =
      owned_by c.user_id _ (not_owner mine other) (claim-Trace sv s c id' st)
  other_call s d (claims_next c region) v n mine other =
      owned_by c.user_id _ (not_owner mine other) (claim_next-Trace sv s c region st)
  other_call s d (claims_next_filtered c region allow) v n mine other =
      owned_by c.user_id _ (not_owner mine other) (claim_next_filtered-Trace sv s c region allow st)
  other_call s d (heartbeats now u id') v n mine other =
      owned_by u _ (not_owner mine other) (heartbeat-Trace now u id' st)
  other_call s d (releases now u id' reason) v n mine other =
      owned_by u _ (not_owner mine other) (release-Trace now u id' st reason)
  other_call s d (completes now u id' result) v n mine other =
      owned_by u _ (not_owner mine other) (complete-Trace now u id' st sv result)
  other_call s d (cancels now u id') v n mine other =
      owned_by u _ (not_owner mine other) (cancel-Trace now u id' st sv)
  other_call s d (reclaims now u) v n mine other =
      owned_by u _ (not_owner mine other) (reclaim_stale-Trace sv now u st)
  other_call s d _ v n mine other = absurd (ground arith)

module _ (sv : Service) (sort_slice : (Job → Job → Bool) → List Job → List Job)
    (deliver : ℕ → Outbox → Bool × Text) (distinct : Distinct sv) where
  answer_all-others_undrawn :
      (id : Text) (j : Job) (cs : List Call) (st : Store)
      → Inv sv st
      → ((n : ℕ) → st.drawn ≤ n → sv.uuid n ≢ id)
      → find job_key id st.jobs ≡ some j
      → All (Foreign j.user_id) cs
      → find job_key id (answer_all sv sort_slice deliver cs st).jobs ≡ some j
  unfolding answer_all
  answer_all-others_undrawn id j [] st v n found foreign = found
  answer_all-others_undrawn id j (c ∷ cs) st v n found ((u, mine, other), rest) =
      let next = answer sv sort_slice deliver c st in
      let act = answer-Act sv sort_slice deliver st c v.unique in
      answer_all-others_undrawn id j cs next (Act-Inv sv st next distinct act v)
        (λ m h. n m (omega (arith, Act-drawn sv st next act)))
        (other_call sv id j st found sort_slice deliver c u (n st.drawn (omega arith)) mine other)
        rest

  -- A job is out of the reach of the other users: from a table with the invariant, whatever list of their
  -- calls is answered, its row stays what it was.
  pub answer_all-others :
      (id : Text) (j : Job) (cs : List Call) (st : Store)
      → Inv sv st
      → find job_key id st.jobs ≡ some j
      → All (Foreign j.user_id) cs
      → find job_key id (answer_all sv sort_slice deliver cs st).jobs ≡ some j
  answer_all-others id j cs st v found foreign =
      answer_all-others_undrawn id j cs st v (undrawn sv st id j v found) found foreign
