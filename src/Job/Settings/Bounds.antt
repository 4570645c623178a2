-- ===== src/Job/Settings/Bounds.antt =====
-- About the settings of internal/job/service.go and their ranges.
use ai_cloudhub.Common.{ℕ, ◌≤◌, ◌<◌, Bool, true, false, Option, none, some, arith, if◌then◌else◌}
use ai_cloudhub.Text.{Text, trim_space, is_empty}
use ai_cloudhub.Int.{ℤ, pos, negsuc, atoi}
use ai_cloudhub.Job.Settings.{
  Getenv, read_setting, between, job_output_max, job_webhook_max_attempts, job_webhook_max_inflight,
  default_max_job_output, hard_max_job_output,
}

-- A setting that is read has whatever property the default and every value that is used have.
read_setting_lem :
    (P : ℕ → Type 0) (getenv : Getenv) (name : Text) (default : ℕ) (use_value : ℤ → ℕ)
    → P default
    → ((n : ℤ) → P (use_value n))
    → P (read_setting getenv name default use_value)
unfolding read_setting
read_setting_lem P getenv name default use_value d u =
    by_value (is_empty (trim_space (getenv name))) (atoi (trim_space (getenv name)))
  where
    by_value :
        (e : Bool) (o : Option ℤ)
        → P (if e then default else elim o [ none ↦ default | some n ↦ use_value n ])
    by_value true o = d
    by_value false none = d
    by_value false (some n) = u n

between-range :
    (default high : ℕ)
    → 0 < default
    → default ≤ high
    → (n : ℤ) → (0 < between default high n) × (between default high n ≤ high)
unfolding between
between-range default high p q (pos n) = ground arith
between-range default high p q (negsuc n) = ground arith

-- Whatever the environment holds, jobOutputMax answers a positive number of at most 262144, and
-- jobWebhookMaxAttempts and jobWebhookMaxInflight answer positive numbers of at most 32.
pub settings-range :
    (getenv : Getenv)
    → ((0 < job_output_max getenv) × (job_output_max getenv ≤ hard_max_job_output))
      × ((0 < job_webhook_max_attempts getenv) × (job_webhook_max_attempts getenv ≤ 32))
      × ((0 < job_webhook_max_inflight getenv) × (job_webhook_max_inflight getenv ≤ 32))
unfolding job_output_max job_webhook_max_attempts job_webhook_max_inflight
settings-range getenv = (
  in_range default_max_job_output hard_max_job_output _ (omega arith) (omega arith),
  in_range 8 32 _ (omega arith) (omega arith),
  in_range 1 32 _ (omega arith) (omega arith),
)
  where
    in_range :
        (default high : ℕ) (name : Text)
        → 0 < default
        → default ≤ high
        → (0 < read_setting getenv name default (between default high))
          × (read_setting getenv name default (between default high) ≤ high)
    in_range default high name p q =
        read_setting_lem (λ n. (0 < n) × (n ≤ high)) getenv name default (between default high)
          (p, q) (between-range default high p q)
