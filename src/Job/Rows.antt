-- ===== src/Job/Rows.antt =====
-- What each operation of internal/job/service.go does to one row, between reading it from the store
-- and writing it back. `now` is the operation's clock reading.
use ai_cloudhub.Common.{
  ℕ, ◌+◌, Bool, true, false, not, ◌||◌, none, some, ◌++◌, ltb, leb, if◌then◌else◌, length,
}
use ai_cloudhub.Text.{Text, codes, trim_space, is_empty, tail_bytes, itoa}
use ai_cloudhub.Int.{ℤ, pos, is_positive}
use ai_cloudhub.Job.{
  pending, dispatched, running, succeeded, failed, cancelled, Job, CompleteInput, Err,
  job_cancelled, job_not_running, job_not_releaseable, job_already_finished, job_not_claimable,
  is_terminal, is_claimable, is_running,
}

-- How an operation leaves a row: refused with an error, returned with no write, or to be written.
pub data Outcome : Type 0 where
  refused : Err → Outcome
  kept : Job → Outcome
  changed : Job → Outcome

abbrev pub note_max : ℕ
note_max = 2000

separator : Text
separator = codes " | "

-- `if len(note) > 2000 { note = note[len(note)-2000:] }`
cap_note : Text → Text
cap_note note = if ltb note_max (length note) then tail_bytes note_max note else note

-- `note := TrimSpace(existing); if note != "" { note += " | " }; note += extra`
unfoldable pub join_note : Text → Text → Text
unfolding separator
join_note existing extra =
    let note = trim_space existing in if is_empty note then extra else note ++ (separator ++ extra)

unfoldable pub append_job_note : Text → Text → Text
unfolding cap_note join_note
append_job_note existing extra =
    let extra' = trim_space extra in
    if is_empty extra' then existing else cap_note (join_note existing extra')

-- The result and whether it was cut; `max` is positive in every call.
unfoldable pub cap_tail_flag : Text → ℕ → Text × Bool
cap_tail_flag s max = if leb (length s) max then (s, false) else (tail_bytes max s, true)

-- The body of store.ClaimPendingJob behind its look-up.
unfoldable pub claim_row : ℕ → Text → Text → Job → Outcome
claim_row now agent runner j =
    if is_claimable j.status
    then changed (record j {
      status = running;
      claimed_by_agent_id = agent;
      claimed_by_runner_id = runner;
      heartbeat_at = now;
      claimed_at = now;
      attempt_count = j.attempt_count + 1;
      updated_at = now;
    })
    else refused (job_not_claimable j.status)

unfoldable pub heartbeat_row : ℕ → Job → Outcome
heartbeat_row now j = elim j.status [
  | cancelled ↦ refused job_cancelled
  | running ↦ changed (record j { heartbeat_at = now; updated_at = now })
  | _ ↦ refused (job_not_running j.status)
]

-- The fields that failTimeout and failMaxAttempts set alike.
fail_row : ℕ → ℤ → Text → Job → Outcome
unfolding append_job_note
fail_row now code reason j =
    if is_running j.status
    then changed (record j {
      status = failed;
      exit_code = some code;
      note = append_job_note j.note reason;
      heartbeat_at = 0;
      claimed_at = 0;
      claimed_by_runner_id = codes "";
      updated_at = now;
    })
    else refused (job_not_running j.status)

unfoldable pub fail_timeout_row : ℕ → ℕ → Job → Outcome
unfolding fail_row
fail_timeout_row now sec =
    fail_row now (pos 124) (codes "timeout after " ++ (itoa sec ++ codes "s"))

unfoldable pub fail_max_attempts_row : ℕ → ℕ → ℕ → Job → Outcome
unfolding fail_row
fail_max_attempts_row now attempt max = fail_row now (pos 1) (
    codes "max attempts exceeded ("
    ++ (itoa attempt ++ (codes "/" ++ (itoa max ++ codes ") after lease expired"))))

release_note : Text → Text → Text
unfolding cap_note join_note
release_note note reason =
    let reason' = trim_space reason in
    if is_empty reason' then note else cap_note (join_note note (codes "released: " ++ reason'))

unfoldable pub release_row : ℕ → Text → Job → Outcome
unfolding release_note
release_row now reason j =
    let released = record j {
      status = pending;
      claimed_by_agent_id = codes "";
      claimed_by_runner_id = codes "";
      heartbeat_at = 0;
      claimed_at = 0;
      updated_at = now;
      note = release_note j.note reason;
    } in
    elim j.status [
      | running ↦ changed released
      | dispatched ↦ changed released
      | _ ↦ refused (job_not_releaseable j.status)
    ]

-- An output field: left alone where the runner reports nothing, else the capped tail.
unfoldable pub report_output : ℕ → Text → Bool → Text → Bool → Text × Bool
unfolding cap_tail_flag
report_output max reported flag old old_flag =
    if not (is_empty reported) || flag
    then ((cap_tail_flag reported max).0, flag || (cap_tail_flag reported max).1)
    else (old, old_flag)

-- `max` is jobOutputMax().
unfoldable pub complete_row : ℕ → ℕ → CompleteInput → Job → Outcome
unfolding report_output append_job_note
complete_row now max result j =
    let out = report_output max result.stdout result.stdout_truncated j.stdout j.stdout_truncated in
    let log = report_output max result.stderr result.stderr_truncated j.stderr j.stderr_truncated in
    if is_terminal j.status
    then kept j
    else changed (record j {
      status = if result.success then succeeded else failed;
      note = append_job_note j.note (trim_space result.note);
      exit_code = elim result.exit_code [ none ↦ j.exit_code | some code ↦ some code ];
      duration_ms = if is_positive result.duration_ms then result.duration_ms else j.duration_ms;
      stdout = out.0;
      stdout_truncated = out.1;
      stderr = log.0;
      stderr_truncated = log.1;
      heartbeat_at = 0;
      claimed_at = 0;
      updated_at = now;
    })

unfoldable pub cancel_row : ℕ → Text → Job → Outcome
unfolding append_job_note
cancel_row now admin_note j =
    let stopped = record j {
      status = cancelled;
      note =
          if is_empty admin_note
          then j.note
          else append_job_note j.note (codes "admin cancel: " ++ admin_note);
      heartbeat_at = 0;
      claimed_at = 0;
      updated_at = now;
    } in
    elim j.status [
      | succeeded ↦ refused job_already_finished
      | failed ↦ refused job_already_finished
      | cancelled ↦ kept j
      | _ ↦ changed stopped
    ]
