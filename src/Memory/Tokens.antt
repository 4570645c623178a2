-- ===== src/Memory/Tokens.antt =====
-- internal/store/memory.go: revoked access tokens and refresh tokens.
use ai_cloudhub.Common.{
  ℕ, Bool, true, false, not, ◌||◌, List, [], ◌∷◌, Option, none, some, ltb, if◌then◌else◌, keep, map,
}
use ai_cloudhub.Text.{Text, codes, ◌==◌, is_empty}
use ai_cloudhub.Table.{find, put, remove}
use ai_cloudhub.Action.{Result, ok, err, Action}
use ai_cloudhub.Memory.{Memory, RefreshToken, refresh_key, jti_key}

-- Entries whose time has passed are dropped first.
unfoldable pub revoke_jti : ℕ → Text → ℕ → Action Memory Unit
unfolding put
revoke_jti now jti expires_at m = if is_empty jti then (err (codes "jti required"), m) else (
  ok tt,
  record m {
    revoked_jti =
        put jti_key (record { jti = jti; expires_at = expires_at })
          (keep (λ r. not (ltb r.expires_at now)) m.revoked_jti);
  },
)

-- An entry whose time has passed is dropped, and no longer counts.
unfoldable pub is_jti_revoked : ℕ → Text → Action Memory Bool
unfolding find remove
is_jti_revoked now jti m =
    if is_empty jti then (ok false, m) else elim (find jti_key jti m.revoked_jti) [
      | none ↦ (ok false, m)
      | some r ↦
          if ltb r.expires_at now
          then (ok false, record m { revoked_jti = remove jti_key jti m.revoked_jti })
          else (ok true, m)
    ]

unfoldable pub create_refresh_token : RefreshToken → Action Memory Unit
unfolding put
create_refresh_token t m =
    if is_empty t.id || is_empty t.token_hash
    then (err (codes "refresh token incomplete"), m)
    else (ok tt, record m { refresh = put refresh_key t m.refresh })

-- The first row that the loop meets with this hash decides.
unfoldable pub find_hash : Text → List RefreshToken → Option RefreshToken
find_hash h [] = none
find_hash h (t ∷ ts) = if t.token_hash == h then some t else find_hash h ts

unfoldable pub get_refresh_token_by_hash : ℕ → Text → Memory → Result RefreshToken
unfolding find_hash
get_refresh_token_by_hash now h m = elim (find_hash h m.refresh) [
  | none ↦ err (codes "refresh token not found")
  | some t ↦ if t.revoked || ltb t.expires_at now then err (codes "refresh token invalid") else ok t
]

abbrev pub as_revoked : RefreshToken → RefreshToken
as_revoked t = record t { revoked = true }

unfoldable pub revoke_refresh_token : Text → Action Memory Unit
unfolding find put
revoke_refresh_token id m = elim (find refresh_key id m.refresh) [
  | none ↦ (err (codes "refresh token not found"), m)
  | some t ↦
      if t.revoked
      then (err (codes "refresh token already revoked"), m)
      else (ok tt, record m { refresh = put refresh_key (as_revoked t) m.refresh })
]

unfoldable pub revoke_refresh_tokens_for_user : Text → Action Memory Unit
revoke_refresh_tokens_for_user user_id m = (
  ok tt,
  record m { refresh = map (λ t. if t.user_id == user_id then as_revoked t else t) m.refresh },
)
