-- ===== src/Queue/Reclaim/Wrap.antt =====
-- About the timeout that ReclaimStale of internal/job/service.go computes in an int64 of nanoseconds.
use ai_cloudhub.Common.{ℕ, ◌*◌, ◌-◌, ◌%◌, ◌^◌, ◌≤◌, ◌<◌, ◌≡◌, refl, true, false, arith, ltb}
use ai_cloudhub.Int.{negsuc, seconds, to_int64, second}
use ai_cloudhub.Job.{Job}
use ai_cloudhub.Job.Settings.{Getenv, effective_timeout_sec}
use ai_cloudhub.Queue.Reclaim.{passed, out_of_time}

past_half : (r : ℕ) → 2 ^ 63 ≤ r → ltb r (2 ^ 63) ≡ false
past_half r h = ground arith

seconds_wrap :
    (sec : ℕ) → 9_223_372_037 ≤ sec → sec ≤ 18_446_744_073 → (d : ℕ) × (seconds sec ≡ negsuc d)
unfolding seconds to_int64
seconds_wrap sec low high =
    let r = sec * second % 2 ^ 64 in
    let large : 2 ^ 63 ≤ r = omega arith in (2 ^ 64 - 1 - r, rw (past_half r large) refl)

passed_wrap : (now d : ℕ) → 0 < now → passed now now (negsuc d) ≡ true
unfolding passed
passed_wrap now d h = ground arith

-- A job with a timeout of 9223372037 to 18446744073 seconds is out of time at the very moment of its
-- claim: the product with time.Second wraps to a negative duration.
pub timeout_wraps :
    (getenv : Getenv) (now : ℕ) (j : Job)
    → 9_223_372_037 ≤ j.timeout_sec
    → j.timeout_sec ≤ 18_446_744_073
    → j.claimed_at ≡ now
    → 0 < now
    → out_of_time getenv now j ≡ true
unfolding out_of_time effective_timeout_sec
timeout_wraps getenv now j low high claimed past =
    let (d, wraps) = seconds_wrap j.timeout_sec low high in
    ground (arith, wraps, passed_wrap now d past)
