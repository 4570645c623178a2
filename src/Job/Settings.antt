-- ===== src/Job/Settings.antt =====
-- The settings that internal/job/service.go reads from the environment. os.Getenv is a parameter: a
-- function from names to values, empty where a variable is not set.
use ai_cloudhub.Common.{
  ℕ, zero, suc, ◌*◌, ◌-◌, ◌∷◌, [], List, Bool, Option, none, some, ltb, leb, if◌then◌else◌,
}
use ai_cloudhub.Text.{Text, codes, trim_space, ◌==◌, is_empty}
use ai_cloudhub.Int.{ℤ, pos, negsuc, atoi, seconds, second, pos_part, is_positive}
pub mod Bounds

abbrev pub Getenv : Type 0
Getenv = Text → Text

abbrev pub default_max_job_output : ℕ
default_max_job_output = 8192

abbrev pub hard_max_job_output : ℕ
hard_max_job_output = 256 * 1024

abbrev pub week : ℕ
week = 7 * 24 * 3600

abbrev year : ℕ
year = 365 * 24 * 3600

-- What the functions below share: an empty value, or one that Atoi refuses, gives the default.
read_setting : {A : Type 0} → Getenv → Text → A → (ℤ → A) → A
read_setting getenv name default use_value =
    let v = trim_space (getenv name) in
    if is_empty v then default else elim (atoi v) [ none ↦ default | some n ↦ use_value n ]

-- `if n <= 0 … if n < 10 { n = 10 }`
unfoldable pub lease_from_env : Getenv → ℤ
unfolding read_setting
lease_from_env getenv = read_setting getenv (codes "AI_CLOUDHUB_JOB_LEASE_SEC") (seconds 300) λ n.
    if is_positive n
    then (if ltb (pos_part n) 10 then seconds 10 else seconds (pos_part n))
    else pos 0

unfoldable pub effective_timeout_sec : Getenv → ℕ → ℕ
unfolding read_setting
effective_timeout_sec getenv job_timeout =
    if ltb 0 job_timeout
    then job_timeout
    else read_setting getenv (codes "AI_CLOUDHUB_JOB_TIMEOUT_SEC") 0 λ n. pos_part n

unfoldable pub job_webhook_url : Getenv → Text
job_webhook_url getenv = trim_space (getenv (codes "AI_CLOUDHUB_JOB_WEBHOOK_URL"))

-- `if n < 1 { default }` and `if n > high { high }`
between : ℕ → ℕ → ℤ → ℕ
between default high n =
    if is_positive n then (if ltb high (pos_part n) then high else pos_part n) else default

unfoldable pub job_webhook_max_attempts : Getenv → ℕ
unfolding read_setting between
job_webhook_max_attempts getenv =
    read_setting getenv (codes "AI_CLOUDHUB_JOB_WEBHOOK_MAX_ATTEMPTS") 8 (between 8 32)

unfoldable pub job_webhook_poll_interval : Getenv → ℕ
unfolding read_setting between
job_webhook_poll_interval getenv =
    read_setting getenv (codes "AI_CLOUDHUB_JOB_WEBHOOK_POLL_SEC") 2 (between 2 60) * second

unfoldable pub job_webhook_http_timeout : Getenv → ℕ
unfolding read_setting between
job_webhook_http_timeout getenv =
    read_setting getenv (codes "AI_CLOUDHUB_JOB_WEBHOOK_TIMEOUT_SEC") 5 (between 5 120) * second

unfoldable pub job_webhook_purge_interval : Getenv → ℕ
unfolding read_setting between
job_webhook_purge_interval getenv =
    read_setting getenv (codes "AI_CLOUDHUB_JOB_WEBHOOK_PURGE_SEC") 60 (between 60 3600) * second

unfoldable pub job_webhook_max_inflight : Getenv → ℕ
unfolding read_setting between
job_webhook_max_inflight getenv =
    read_setting getenv (codes "AI_CLOUDHUB_JOB_WEBHOOK_MAX_INFLIGHT") 1 (between 1 32)

unfoldable pub job_output_max : Getenv → ℕ
unfolding read_setting between
job_output_max getenv =
    read_setting getenv (codes "AI_CLOUDHUB_JOB_OUTPUT_MAX") default_max_job_output
      (between default_max_job_output hard_max_job_output)

-- `if n < 0 { default }`, where 0 stands
zero_or_between : ℕ → ℕ → ℤ → ℕ
zero_or_between default high (pos n) = if ltb high n then high else n
zero_or_between default high (negsuc n) = default

unfoldable pub job_webhook_retain : Getenv → ℕ
unfolding read_setting zero_or_between
job_webhook_retain getenv =
    read_setting getenv (codes "AI_CLOUDHUB_JOB_WEBHOOK_RETAIN_SEC") week
      (zero_or_between week year)
    * second

unfoldable pub job_reclaim_poll_interval : Getenv → ℕ
unfolding read_setting zero_or_between
job_reclaim_poll_interval getenv =
    read_setting getenv (codes "AI_CLOUDHUB_JOB_RECLAIM_POLL_SEC") 30 (zero_or_between 30 3600)
    * second

unfoldable pub job_terminal_retain : Getenv → ℕ
unfolding read_setting between
job_terminal_retain getenv =
    read_setting getenv (codes "AI_CLOUDHUB_JOB_RETAIN_SEC") 0 (between 0 year) * second

-- webhookBackoff: the delay in nanoseconds after the n-th failed attempt, from 1.
backoff_secs : ℕ → ℕ
backoff_secs zero = 5
backoff_secs (suc zero) = 5
backoff_secs (suc (suc zero)) = 15
backoff_secs (suc (suc (suc zero))) = 60
backoff_secs (suc (suc (suc (suc zero)))) = 300
backoff_secs (suc (suc (suc (suc (suc zero))))) = 900
backoff_secs (suc (suc (suc (suc (suc (suc zero)))))) = 3600
backoff_secs (suc (suc (suc (suc (suc (suc (suc zero))))))) = 7200
backoff_secs _ = 14400

unfoldable pub webhook_backoff : Getenv → ℕ → ℕ
unfolding backoff_secs
webhook_backoff getenv attempt =
    if trim_space (getenv (codes "AI_CLOUDHUB_JOB_WEBHOOK_BACKOFF_SEC")) == codes "0"
    then 1_000_000
    else backoff_secs attempt * second
