-- ===== src/Queue/Output.antt =====
-- About the output that Complete of internal/job/service.go stores.
use ai_cloudhub.Common.{
  arith, ℕ, zero, suc, length-drop, ltb→lt, ◌-◌, ◌≤◌, ◌≡◌, refl, sym, ap, some, true, false, ◌||◌,
  [], ◌∷◌, ◌++◌, length, drop, take, ltb, leb, if◌then◌else◌, Bool, Bool-cases, inl, inr,
}
use ai_cloudhub.Text.{Text, is_empty, tail_bytes}
use ai_cloudhub.Table.{find}
use ai_cloudhub.Job.{Job, CompleteInput, ok, is_terminal}
use ai_cloudhub.Job.Settings.{job_output_max, hard_max_job_output}
use ai_cloudhub.Job.Settings.Bounds.{settings-range}
use ai_cloudhub.Job.Rows.{changed, complete_row, cap_tail_flag, report_output}
use ai_cloudhub.Store.{Store, job_key, get_job}
use ai_cloudhub.Queue.{Service, complete}
use ai_cloudhub.Queue.Finish.{complete_writes}

-- What is kept of a text: its end, all of it or `max` bytes, with a flag where something was cut.
abbrev pub Tail : ℕ → Text → Bool → Text → Bool → Type 0
Tail max reported flag stored stored_flag =
    ((front : Text) × (reported ≡ front ++ stored))
    × (length stored ≡ (if ltb max (length reported) then max else length reported))
    × (stored_flag ≡ (flag || ltb max (length reported)))

take-drop : (n : ℕ) (s : Text) → take n s ++ drop n s ≡ s
take-drop zero s = refl
take-drop (suc n) [] = refl
take-drop (suc n) (x ∷ xs) = ap (λ l. x ∷ l) (take-drop n xs)

report_output-Tail :
    (max : ℕ) (reported : Text) (flag : Bool) (old : Text) (old_flag : Bool)
    → is_empty reported ≡ false
    → let out = report_output max reported flag old old_flag in Tail max reported flag out.0 out.1
unfolding report_output cap_tail_flag tail_bytes
report_output-Tail max reported flag old old_flag given =
    elim (Bool-cases (leb (length reported) max)) [
      | inl fits ↦
          let short : ltb max (length reported) ≡ false = ground arith in
          rw (given, fits, short) (([], refl), refl, refl)
      | inr over ↦
          let long : ltb max (length reported) ≡ true = ground arith in
          let cut = length reported - max in
          rw (given, over, long)
            (
              (take cut reported, sym (take-drop cut reported)),
              omega (arith, length-drop {0} cut reported, ltb→lt max (length reported) long),
              refl,
            )
    ]

complete_row_output :
    (now max : ℕ) (result : CompleteInput) (j k : Job)
    → is_terminal j.status ≡ false
    → complete_row now max result j ≡ changed k
    → let out =
        report_output max result.stdout result.stdout_truncated j.stdout j.stdout_truncated in
      let log =
        report_output max result.stderr result.stderr_truncated j.stderr j.stderr_truncated in
      (k.stdout ≡ out.0)
      × (k.stdout_truncated ≡ out.1)
      × (k.stderr ≡ log.0)
      × (k.stderr_truncated ≡ log.1)
unfolding complete_row
complete_row_output now max result j k live row =
    (ground arith, ground arith, ground arith, ground arith)

-- A user's Complete of a job that is the user's and has not ended, with output on both streams, stores of
-- each stream its end: all of it, or as many bytes as jobOutputMax answers, which is at most 262144,
-- with the flag set where something was cut or the runner had set it.
pub complete_output :
    (sv : Service) (now : ℕ) (u id : Text) (result : CompleteInput) (st : Store) (j : Job)
    → get_job u id st ≡ ok j
    → is_terminal j.status ≡ false
    → is_empty result.stdout ≡ false
    → is_empty result.stderr ≡ false
    → let max = job_output_max sv.getenv in
      (max ≤ hard_max_job_output)
      × ((k : Job) × (find job_key id (complete sv now u id result st).0.jobs ≡ some k)
          × Tail max result.stdout result.stdout_truncated k.stdout k.stdout_truncated
          × Tail max result.stderr result.stderr_truncated k.stderr k.stderr_truncated)
complete_output sv now u id result st j there live out log =
    let max = job_output_max sv.getenv in
    let (k, row, answer, status, stands) = complete_writes sv now u id result st j there live in
    let (o, o', e, e') = complete_row_output now max result j k live row in
    let outs =
      report_output-Tail max result.stdout result.stdout_truncated j.stdout j.stdout_truncated
        out in
    let logs =
      report_output-Tail max result.stderr result.stderr_truncated j.stderr j.stderr_truncated
        log in
    ((settings-range sv.getenv).0.1, (k, stands, rw (o, o') outs, rw (e, e') logs))
