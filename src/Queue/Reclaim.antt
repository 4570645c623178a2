-- ===== src/Queue/Reclaim.antt =====
-- internal/job/service.go: ReclaimStale and ReclaimStaleAll, which fail the running jobs that are out
-- of time and give back those whose runner has fallen silent.
use ai_cloudhub.Common.{
  ℕ, suc, ◌+◌, ◌-◌, Bool, not, ◌&&◌, List, [], ◌∷◌, ltb, leb, ◌==◌, if◌then◌else◌,
}
use ai_cloudhub.Text.{Text, codes}
use ai_cloudhub.Int.{ℤ, pos, negsuc, seconds, is_positive, pos_part}
use ai_cloudhub.Job.{Job, Result, ok, err, is_running}
use ai_cloudhub.Job.Settings.{Getenv, effective_timeout_sec}
use ai_cloudhub.Store.{Store, list_running_jobs}
use ai_cloudhub.Queue.{Service, fail_timeout, fail_max_attempts, release_to_pending}
pub mod Wrap

-- What the loop decides about a row.
pub data Verdict : Type 0 where
  wait : Verdict
  time_out : ℕ → Verdict
  give_up : ℕ → ℕ → Verdict
  release : Verdict

-- The first of two times that is not zero.
abbrev pub or_else : ℕ → ℕ → ℕ
or_else a b = if a == 0 then b else a

-- `!start.IsZero() && now.After(start.Add(d))`
unfoldable pub passed : ℕ → ℕ → ℤ → Bool
passed now start (pos d) = not (start == 0) && ltb (start + d) now
passed now start (negsuc d) = not (start == 0) && ltb start (now + suc d)

unfoldable pub out_of_time : Getenv → ℕ → Job → Bool
unfolding passed
out_of_time getenv now j =
    let sec = effective_timeout_sec getenv j.timeout_sec in
    ltb 0 sec
    && passed now (or_else j.claimed_at (or_else j.heartbeat_at j.updated_at)) (seconds sec)

-- `!ts.IsZero() && ts.Before(now.Add(-lease))` for a positive lease. A cutoff before the zero time is
-- before every time, as is a cutoff at it.
unfoldable pub silent_since : ℤ → ℕ → ℕ → Bool
silent_since lease now ts = is_positive lease && not (ts == 0) && ltb ts (now - pos_part lease)

-- The body of both loops; `ts` is the time of the runner's last sign, on which they differ.
unfoldable pub judge : Service → ℕ → ℕ → Job → Verdict
unfolding out_of_time silent_since
judge sv now ts j =
    if not (is_running j.status)
    then wait
    else if out_of_time sv.getenv now j
    then time_out (effective_timeout_sec sv.getenv j.timeout_sec)
    else if not (silent_since sv.lease now ts)
    then wait
    else if ltb 0 j.max_attempts && leb j.max_attempts j.attempt_count
    then give_up j.attempt_count j.max_attempts
    else release

-- ReclaimStale: `ts := sj.HeartbeatAt; if ts.IsZero() { ts = sj.UpdatedAt }`
abbrev pub last_sign : Job → ℕ
last_sign j = or_else j.heartbeat_at j.updated_at

-- ReclaimStaleAll looks at the claim before the last update.
abbrev pub last_sign_all : Job → ℕ
last_sign_all j = or_else j.heartbeat_at (or_else j.claimed_at j.updated_at)

-- `if err == nil { n++ }`
abbrev pub tally : Store × Result Job → ℕ → Store × ℕ
tally (st, ok j) n = (st, suc n)
tally (st, err e) n = (st, n)

module _ (sv : Service) (now : ℕ) where
  unfoldable pub carry_out : Text → Text → Verdict → Store → ℕ → Store × ℕ
  carry_out user_id id wait st n = (st, n)
  carry_out user_id id (time_out sec) st n = tally (fail_timeout sv now user_id id sec st) n
  carry_out user_id id (give_up attempt max) st n =
      tally (fail_max_attempts sv now user_id id attempt max st) n
  carry_out user_id id release st n =
      tally (release_to_pending now user_id id (codes "lease expired") st) n

  unfoldable pub reclaim_loop : Text → List Job → Store → ℕ → Store × ℕ
  unfolding carry_out
  reclaim_loop user_id [] st n = (st, n)
  reclaim_loop user_id (j ∷ js) st n =
      let (st', n') = carry_out user_id j.id (judge sv now (last_sign j) j) st n in
      reclaim_loop user_id js st' n'

  unfoldable pub reclaim_stale : Text → Store → Store × ℕ
  unfolding reclaim_loop
  reclaim_stale user_id st = reclaim_loop user_id (list_running_jobs user_id st) st 0

  unfoldable pub reclaim_all_loop : List Job → Store → ℕ → Store × ℕ
  unfolding carry_out
  reclaim_all_loop [] st n = (st, n)
  reclaim_all_loop (j ∷ js) st n =
      let (st', n') = carry_out j.user_id j.id (judge sv now (last_sign_all j) j) st n in
      reclaim_all_loop js st' n'

  unfoldable pub reclaim_stale_all : Store → Store × ℕ
  unfolding reclaim_all_loop
  reclaim_stale_all st = reclaim_all_loop (list_running_jobs (codes "") st) st 0
