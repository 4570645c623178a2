-- ===== src/Auth/Tokens.antt =====
-- internal/auth/auth.go: access tokens.
use ai_cloudhub.Common.{
  ℕ, ◌+◌, ◌*◌, ◌/◌, Bool, true, false, not, ◌&&◌, List, [], ◌∷◌, ◌++◌, ltb, leb, ◌==◌ as nat_eq,
  if◌then◌else◌,
}
use ai_cloudhub.Text.{Text, codes, ◌==◌, is_empty}
use ai_cloudhub.Text.Runes.{split_at}
use ai_cloudhub.Int.{ℤ, pos, negsuc}
use ai_cloudhub.Action.{Result, ok, err, Action, return, fail, lift, reads, or_fail, ◌>>=◌, ◌>>◌}
use ai_cloudhub.Memory.{Memory, User, Agent, role_or_user, get_user_by_id}
use ai_cloudhub.Memory.Tokens.{is_jti_revoked}
use ai_cloudhub.Memory.Agents.{get_agent_by_id}
use ai_cloudhub.Auth.{Service, TokenPayload, new_uuid, token_ttl_or_default, ttl_or, second, hour}
use ai_cloudhub.Auth.Scopes.{normalize_scopes, all_known}
pub mod Laws
pub mod Issued

-- base64(raw) "." base64(mac of raw)
unfoldable pub sign : Service → Text → Text
sign sv raw = sv.encode64 raw ++ codes "." ++ sv.encode64 (sv.hmac_sha256 sv.secret raw)

-- The payload that is signed, under the identifier `jti`.
unfoldable pub payload : ℕ → Text → Text → Text → ℕ → ℕ → Text → ℕ → List Text → Text → TokenPayload
unfolding role_or_user
payload now user_id username role token_version ttl agent_id agent_token_version scopes jti =
    record {
      user_id = user_id;
      username = username;
      role = role_or_user role;
      exp = (now + ttl) / second;
      jti = jti;
      token_version = token_version;
      agent_id = agent_id;
      agent_token_version = agent_token_version;
      scopes = scopes;
    }

unfoldable pub issue :
    Service → ℕ → Text → Text → Text → ℕ → ℕ → Text → ℕ → List Text → Action Memory Text
unfolding new_uuid payload sign
issue sv now user_id username role token_version ttl agent_id agent_token_version scopes = do
  jti ← new_uuid sv
  raw ← lift (
      sv.marshal (
        payload now user_id username role token_version ttl agent_id agent_token_version scopes
          jti))
  return (sign sv raw)

-- A token whose lifetime is not given lives for the service's, an hour at most.
agent_ttl : Service → ℤ → ℕ
unfolding token_ttl_or_default ttl_or
agent_ttl sv ttl =
    ttl_or (if ltb hour (token_ttl_or_default sv) then hour else token_ttl_or_default sv) ttl

unfoldable pub issue_agent_token :
    Service → ℕ → Text → Text → Text → Text → ℕ → ℕ → List Text → ℤ → Action Memory Text
unfolding issue agent_ttl normalize_scopes all_known
issue_agent_token sv now user_id username role agent_id version agent_version scopes ttl =
    if is_empty agent_id then fail (codes "agent_id required") else (do
      lift (all_known sv.quote (normalize_scopes scopes))
      issue sv now user_id username role version (agent_ttl sv ttl) agent_id agent_version
          (normalize_scopes scopes))

-- The payload that a token carries, where its signature is the service's.
unfoldable pub open_parts : Service → List Text → Result TokenPayload
open_parts sv (a ∷ b ∷ []) = elim (sv.decode64 a) [
  | err e ↦ err (codes "bad token")
  | ok raw ↦ elim (sv.decode64 b) [
    | err e ↦ err (codes "bad token")
    | ok sig ↦
        if sig == sv.hmac_sha256 sv.secret raw
        then sv.unmarshal raw
        else err (codes "bad signature")
  ]
]
open_parts sv parts = err (codes "bad token")

unfoldable pub open_token : Service → Text → Result TokenPayload
unfolding open_parts split_at
open_token sv token = open_parts sv (split_at 46 token)

revoked_text : Text
revoked_text = codes "token revoked"

-- The denylist, for a token with an identifier.
unfoldable pub check_jti : ℕ → Text → Action Memory Unit
unfolding is_jti_revoked revoked_text
check_jti now jti = if is_empty jti then return tt else (do
  revoked ← or_fail (codes "token check failed") (is_jti_revoked now jti)
  if revoked then fail revoked_text else return tt)

unfoldable pub check_user : TokenPayload → Action Memory Unit
unfolding get_user_by_id revoked_text
check_user p = do
  rec ← or_fail revoked_text (reads (get_user_by_id p.user_id))
  if nat_eq p.token_version rec.token_version then return tt else fail revoked_text

unfoldable pub check_agent : TokenPayload → Action Memory Unit
unfolding get_agent_by_id revoked_text
check_agent p = if is_empty p.agent_id then return tt else (do
  a ← or_fail revoked_text (reads (get_agent_by_id p.agent_id))
  if not (a.status == codes "active")
      then fail (codes "agent disabled")
      else if nat_eq p.agent_token_version a.token_version
      then return tt
      else fail revoked_text)

unfoldable pub parse_payload : Service → ℕ → Text → Action Memory TokenPayload
unfolding open_token check_jti check_user check_agent
parse_payload sv now token = do
  p ← lift (open_token sv token)
  if ltb p.exp (now / second)
      then fail (codes "token expired")
      else (do check_jti now p.jti; check_user p; check_agent p; return p)

-- Principal, the caller that a token stands for.
pub record Principal : Type 0 where
  pub user_id : Text
  pub username : Text
  pub role : Text
  pub agent_id : Text
  pub scopes : List Text

unfoldable pub parse_principal : Service → ℕ → Text → Action Memory Principal
unfolding parse_payload role_or_user
parse_principal sv now token = do
  p ← parse_payload sv now token
  return (record {
    user_id = p.user_id;
    username = p.username;
    role = role_or_user p.role;
    agent_id = p.agent_id;
    scopes = p.scopes;
  })
