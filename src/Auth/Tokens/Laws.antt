-- ===== src/Auth/Tokens/Laws.antt =====
-- About access tokens of internal/auth/auth.go: which ones parsePayload accepts.
use ai_cloudhub.Common.{
  ℕ, ◌/◌, ◌≤◌, ◌<◌, ◌≡◌, ◌↔◌, ◌⊎◌, inl, inr, true, none, some, Option-cases, arith,
}
use ai_cloudhub.Text.{Text, codes, is_empty}
use ai_cloudhub.Text.Laws.{==_iff}
use ai_cloudhub.Table.{find}
use ai_cloudhub.Action.{ok, return, fail, lift, reads, or_fail, ◌>>=◌, Result-cases}
use ai_cloudhub.Memory.{
  Memory, User, Agent, RevokedJti, agent_key, with_role, find_user, get_user_by_id,
}
use ai_cloudhub.Memory.Tokens.{is_jti_revoked}
use ai_cloudhub.Memory.{jti_key}
use ai_cloudhub.Memory.Agents.{get_agent_by_id}
use ai_cloudhub.Auth.{Service, TokenPayload, second}
use ai_cloudhub.Auth.Tokens.{open_token, check_jti, check_user, check_agent, parse_payload}

-- The token's identifier has no entry in the denylist whose time is still to come.
abbrev pub NotDenied : ℕ → Text → Memory → Type 0
NotDenied now jti m =
    (is_empty jti ≡ true)
    ⊎ (find jti_key jti m.revoked_jti ≡ none)
    ⊎ ((r : RevokedJti) × (find jti_key jti m.revoked_jti ≡ some r) × (r.expires_at < now))

-- The account stands at the version that the token was given for.
abbrev pub UserCurrent : TokenPayload → Memory → Type 0
UserCurrent p m =
    (u : User) × (find_user p.user_id m.users ≡ some u) × (p.token_version ≡ u.token_version)

-- An agent's token: the agent is active, and stands at its version.
abbrev pub AgentCurrent : TokenPayload → Memory → Type 0
AgentCurrent p m =
    (is_empty p.agent_id ≡ true)
    ⊎ ((a : Agent) × (find agent_key p.agent_id m.agents ≡ some a)
        × (a.status ≡ codes "active")
        × (p.agent_token_version ≡ a.token_version))

abbrev pub Accepted : Service → ℕ → Text → Memory → TokenPayload → Type 0
Accepted sv now token m p =
    (open_token sv token ≡ ok p)
    × (now / second ≤ p.exp)
    × NotDenied now p.jti m
    × UserCurrent p m
    × AgentCurrent p m

check_jti-ok :
    (now : ℕ) (jti : Text) (m : Memory) → ((check_jti now jti m).0 ≡ ok tt) ↔ NotDenied now jti m
unfolding check_jti is_jti_revoked ◌>>=◌ or_fail return fail
check_jti-ok now jti m = ground arith

check_user-ok : (p : TokenPayload) (m : Memory) → ((check_user p m).0 ≡ ok tt) ↔ UserCurrent p m
unfolding check_user get_user_by_id ◌>>=◌ or_fail return fail reads with_role
check_user-ok p m = ground arith

check_agent-ok : (p : TokenPayload) (m : Memory) → ((check_agent p m).0 ≡ ok tt) ↔ AgentCurrent p m
unfolding check_agent get_agent_by_id ◌>>=◌ or_fail return fail reads
check_agent-ok p m = elim (Option-cases (find agent_key p.agent_id m.agents)) [
  | inl missing ↦ ground arith
  | inr (a, found) ↦ ground (arith, ==_iff a.status (codes "active"))
]

check_jti-users : (now : ℕ) (jti : Text) (m : Memory) → (check_jti now jti m).1.users ≡ m.users
unfolding check_jti is_jti_revoked ◌>>=◌ or_fail return fail
check_jti-users now jti m = ground arith

check_jti-agents : (now : ℕ) (jti : Text) (m : Memory) → (check_jti now jti m).1.agents ≡ m.agents
unfolding check_jti is_jti_revoked ◌>>=◌ or_fail return fail
check_jti-agents now jti m = ground arith

check_user-same : (p : TokenPayload) (m : Memory) → (check_user p m).1 ≡ m
unfolding check_user ◌>>=◌ or_fail return fail reads
check_user-same p m = ground arith

check_agent-same : (p : TokenPayload) (m : Memory) → (check_agent p m).1 ≡ m
unfolding check_agent ◌>>=◌ or_fail return fail reads
check_agent-same p m = ground arith

-- parsePayload accepts a token, with what it carries, exactly where the signature is the service's,
-- the second of expiry has not passed, the denylist has no entry for its identifier that is still
-- to expire, the account's version is the token's, and an agent's token has its agent active and at
-- the token's agent version.
pub parse_payload-Accepted :
    (sv : Service) (now : ℕ) (token : Text) (m : Memory) (p : TokenPayload)
    → ((parse_payload sv now token m).0 ≡ ok p) ↔ Accepted sv now token m p
unfolding parse_payload ◌>>=◌ return fail lift
parse_payload-Accepted sv now token m p = elim (Result-cases (open_token sv token)) [
  | inr (e, refused) ↦ ground arith
  | inl (q, opened) ↦
      let m1 = (check_jti now q.jti m).1 in
      ground (
        arith,
        check_jti-ok now q.jti m,
        check_user-ok q m1,
        check_agent-ok q m1,
        check_jti-users now q.jti m,
        check_jti-agents now q.jti m,
        check_user-same q m1,
        check_agent-same q m1,
      )
]
