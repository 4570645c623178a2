-- ===== src/Lockout.antt =====
-- internal/policy/authlimit.go, the FailureTracker, and handleLogin of
-- internal/httpserver/server.go, which guards Login of internal/auth/auth.go with it. The limiter's
-- answer is a value of the attempt, and an attempt starts where the body has been decoded. `first` is
-- on the same clock as `now`, in nanoseconds; the tracker's mutex makes each method one step.
use ai_cloudhub.Common.{
  ℕ, suc, ◌+◌, ◌-◌, ◌*◌, Bool, true, false, not, ◌&&◌, List, [], ◌∷◌, ◌++◌, Option, none, some, ltb,
  leb, if◌then◌else◌,
}
use ai_cloudhub.Text.{Text, codes, ◌==◌, trim_space}
use ai_cloudhub.Table.{find, put, remove}
use ai_cloudhub.Int.{ℤ}
use ai_cloudhub.Action.{Result, ok, err}
use ai_cloudhub.Memory.{Memory}
use ai_cloudhub.Memory.Audit.{append_audit}
use ai_cloudhub.Auth.{Service, ttl_or, second}
use ai_cloudhub.Auth.Sessions.{TokenPair}
use ai_cloudhub.Auth.Accounts.{login}
pub mod Laws
pub mod Starts

pub record FailEntry : Type 0 where
  pub key : Text
  pub count : ℕ
  pub first : ℕ

pub record Limits : Type 0 where
  pub max_fail : ℕ
  pub window : ℕ

-- 8 failures in 15 minutes, where no positive number is given.
unfoldable pub new_failure_tracker : ℤ → ℤ → Limits
unfolding ttl_or
new_failure_tracker max_fail window = record {
  max_fail = ttl_or 8 max_fail;
  window = ttl_or (900 * second) window;
}

abbrev pub entry_key : FailEntry → Text
entry_key e = e.key

-- An entry whose window has passed is dropped.
unfoldable pub locked : Limits → ℕ → Text → List FailEntry → Bool × List FailEntry
unfolding find remove
locked lim now k es = elim (find entry_key k es) [
  | none ↦ (false, es)
  | some e ↦
      if ltb lim.window (now - e.first)
      then (false, remove entry_key k es)
      else (leb lim.max_fail e.count, es)
]

abbrev first_failure : Text → ℕ → FailEntry
first_failure k now = record { key = k; count = 1; first = now }

unfoldable pub fail : Limits → ℕ → Text → List FailEntry → Bool × List FailEntry
unfolding find put
fail lim now k es = elim (find entry_key k es) [
  | none ↦ (false, put entry_key (first_failure k now) es)
  | some e ↦
      if ltb lim.window (now - e.first)
      then (false, put entry_key (first_failure k now) es)
      else (leb lim.max_fail (suc e.count), put entry_key (record e { count = suc e.count }) es)
]

unfoldable pub clear : Text → List FailEntry → List FailEntry
unfolding remove
clear k es = remove entry_key k es

-- The state that a login touches.
pub record Gate : Type 0 where
  pub memory : Memory
  pub failures : List FailEntry

-- One request: its time, its client, the limiter's answer and the decoded body.
pub record Attempt : Type 0 where
  pub now : ℕ
  pub ip : Text
  pub allowed : Bool
  pub username : Text
  pub password : Text

pub data Reply : Type 0 where
  too_many : Text → Reply
  unauthorized : Reply
  logged_in : TokenPair → Reply

module _ (sv : Service) (lim : Limits) (to_lower : Text → Text) where
  unfoldable pub lock_key : Attempt → Text
  lock_key a = codes "user:" ++ to_lower (trim_space a.username) ++ codes "|ip:" ++ a.ip

  -- Audit of internal/auth/auth.go, with the next identifier.
  unfoldable pub audit : ℕ → Text → Text → Text → Text → Memory → Memory
  unfolding append_audit
  audit now user_id action target detail m =
      (append_audit
        (record {
          id = sv.uuid m.drawn;
          user_id = user_id;
          agent_id = codes "";
          action = action;
          target = target;
          detail = detail;
          created_at = now;
        })
        (record m { drawn = suc m.drawn })).1

  -- Past the guards: the credentials decide, and a failure is counted.
  unfoldable pub try_login : Attempt → Gate → Gate × Reply
  unfolding login fail clear lock_key audit
  try_login a g =
      let out = login sv a.now a.username a.password g.memory in
      elim out.0 [
        | err e ↦
            let f = fail lim a.now (lock_key a) g.failures in
            let detail = codes "fail ip=" ++ a.ip ++ (if f.0 then codes " locked" else codes "") in
            (
              record {
                memory = audit a.now (codes "") (codes "auth.login_fail") a.username detail out.1;
                failures = f.1;
              },
              unauthorized,
            )
        | ok pair ↦ (
          record {
            memory =
                audit a.now pair.user.id (codes "auth.login") pair.user.username (codes "ok") out.1;
            failures = clear (lock_key a) g.failures;
          },
          logged_in pair,
        )
      ]

  unfoldable pub handle_login : Attempt → Gate → Gate × Reply
  unfolding locked try_login lock_key audit
  handle_login a g =
      let checked = locked lim a.now (lock_key a) g.failures in
      let g1 = record g { failures = checked.1 } in
      if not a.allowed
      then (g, too_many (codes "rate limited"))
      else if checked.0
      then (
        record g1 {
          memory =
              audit a.now (codes "") (codes "auth.login_locked") a.username (codes "ip=" ++ a.ip)
                g.memory;
        },
        too_many (codes "too many failed attempts; try later"),
      )
      else try_login a g1

  unfoldable pub handle_all : List Attempt → Gate → Gate
  unfolding handle_login
  handle_all [] g = g
  handle_all (a ∷ rest) g = handle_all rest (handle_login a g).0
