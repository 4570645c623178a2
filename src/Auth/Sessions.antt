-- ===== src/Auth/Sessions.antt =====
-- internal/auth/refresh.go and internal/auth/auth.go: pairs of an access and a refresh token, their
-- rotation and their end.
use ai_cloudhub.Common.{ℕ, ◌+◌, ◌*◌, ◌/◌, false, if◌then◌else◌, []}
use ai_cloudhub.Text.{Text, codes, is_empty, trim_space}
use ai_cloudhub.Action.{
  Action, return, fail, reads, or_fail, or_wrap, ◌>>=◌, ◌>>◌, ◌and_then◌, ◌ending_with◌,
}
use ai_cloudhub.Memory.{Memory, role_or_user, get_user_by_id, bump_token_version}
use ai_cloudhub.Memory.Tokens.{
  revoke_jti, create_refresh_token, get_refresh_token_by_hash, revoke_refresh_token,
  revoke_refresh_tokens_for_user,
}
use ai_cloudhub.Auth.{
  Service, AuthUser, draw, new_uuid, hash_refresh, token_ttl_or_default, refresh_ttl_or_default,
  second,
}
use ai_cloudhub.Auth.Tokens.{issue, parse_payload}

pub record TokenPair : Type 0 where
  pub access_token : Text
  pub refresh_token : Text
  pub expires_in : ℕ
  pub token_type : Text
  pub user : AuthUser

-- The row of a refresh token, under a new identifier.
unfoldable pub insert_refresh : Service → ℕ → Text → Text → Action Memory Unit
unfolding new_uuid create_refresh_token
insert_refresh sv now user_id hash = do
  id ← new_uuid sv
  create_refresh_token (record {
    id = id;
    user_id = user_id;
    token_hash = hash;
    expires_at = now + refresh_ttl_or_default sv;
    created_at = now;
    revoked = false;
  })

unfoldable pub issue_tokens : Service → ℕ → Text → Text → Text → ℕ → Action Memory TokenPair
unfolding issue draw insert_refresh role_or_user token_ttl_or_default
issue_tokens sv now user_id username role token_version = do
  access ←
      issue sv now user_id username (role_or_user role) token_version (token_ttl_or_default sv)
        (codes "") 0 []
  raw ← draw sv.random
  or_wrap (codes "persist refresh: ") (insert_refresh sv now user_id (hash_refresh sv raw))
  return (record {
    access_token = access;
    refresh_token = raw;
    expires_in = token_ttl_or_default sv / second;
    token_type = codes "Bearer";
    user = record { id = user_id; username = username; role = role_or_user role };
  })

bad_refresh : Text
bad_refresh = codes "invalid refresh token"

unfoldable pub refresh : Service → ℕ → Text → Action Memory TokenPair
unfolding bad_refresh issue_tokens revoke_refresh_token get_refresh_token_by_hash hash_refresh
refresh sv now raw =
    if is_empty (trim_space raw) then fail (codes "refresh_token required") else (do
      rec ←
          or_fail bad_refresh
            (reads (get_refresh_token_by_hash now (hash_refresh sv (trim_space raw))))
      u ← or_fail bad_refresh (reads (get_user_by_id rec.user_id))
      or_fail bad_refresh (revoke_refresh_token rec.id)
      issue_tokens sv now u.id u.username (role_or_user u.role) u.token_version)

unfoldable pub revoke_refresh : Service → ℕ → Text → Action Memory Unit
unfolding get_refresh_token_by_hash revoke_refresh_token hash_refresh
revoke_refresh sv now raw = if is_empty raw then return tt else (do
  rec ← reads (get_refresh_token_by_hash now (hash_refresh sv raw))
  revoke_refresh_token rec.id)

unfoldable pub legacy_logout : Text → Action Memory Unit
unfolding bump_token_version revoke_refresh_tokens_for_user
legacy_logout user_id = do
  bump_token_version user_id ending_with revoke_refresh_tokens_for_user user_id
  return tt

-- A token without an identifier ends every session of its user.
unfoldable pub logout : Service → ℕ → Text → Text → Action Memory Unit
unfolding parse_payload revoke_refresh revoke_jti legacy_logout
logout sv now token raw_refresh = do
  p ← parse_payload sv now token
  revoke_refresh sv now raw_refresh
      and_then (if is_empty p.jti
          then legacy_logout p.user_id
          else revoke_jti now p.jti (p.exp * second))

unfoldable pub revoke_all_sessions : Text → Action Memory ℕ
unfolding revoke_refresh_tokens_for_user bump_token_version
revoke_all_sessions user_id =
    revoke_refresh_tokens_for_user user_id and_then bump_token_version user_id
