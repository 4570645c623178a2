-- ===== src/Examples/Calls.antt =====
-- The theorems on lists of calls, at a store that holds one job.
use ai_cloudhub.Common.{◌≡◌, refl, ◌⊎◌, List, [], ◌∷◌, none, some, arith}
use ai_cloudhub.Text.{◌==◌}
use ai_cloudhub.Table.{find}
use ai_cloudhub.Sort.{exchange_sort}
use ai_cloudhub.Job.{pending, succeeded}
use ai_cloudhub.Store.{job_key}
use ai_cloudhub.Queue.System.{Call, heartbeats, cancels, answer_all}
use ai_cloudhub.Queue.System.Safety.{Fate, answer_all-terminal, answer_all-Fate}
use ai_cloudhub.Queue.System.Isolation.{answer_all-others}
use ai_cloudhub.Examples.{
  service, distinct, bob, waiting, done, holding, holding-Inv, deliver_ok, session,
}

answer_all-terminal_example :
    let end = answer_all service exchange_sort deliver_ok session (holding done) in
    (find job_key (0 ∷ []) end.jobs ≡ some done) ⊎ (find job_key (0 ∷ []) end.jobs ≡ none)
unfolding find ◌==◌
answer_all-terminal_example =
    answer_all-terminal service exchange_sort deliver_ok distinct (0 ∷ []) done session
      (holding done) (holding-Inv succeeded) refl refl

answer_all-Fate_example :
    Fate (0 ∷ []) waiting (answer_all service exchange_sort deliver_ok session (holding waiting))
unfolding find ◌==◌
answer_all-Fate_example =
    answer_all-Fate service exchange_sort deliver_ok distinct (0 ∷ []) waiting session
      (holding waiting) (holding-Inv pending) refl

abbrev raid : List Call
raid = cancels 9 bob (0 ∷ []) ∷ heartbeats 10 bob (0 ∷ []) ∷ []

answer_all-others_example :
    find job_key (0 ∷ []) (answer_all service exchange_sort deliver_ok raid (holding waiting)).jobs
    ≡ some waiting
unfolding find ◌==◌
answer_all-others_example =
    answer_all-others service exchange_sort deliver_ok distinct (0 ∷ []) waiting raid
      (holding waiting) (holding-Inv pending) refl
      ((bob, refl, λ e. absurd (ground arith)), ((bob, refl, λ e. absurd (ground arith)), tt))
