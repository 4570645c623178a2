-- ===== src/Auth/Calls/Frames.antt =====
-- About the writes of internal/auth and internal/agent: which map of the store each one is on. An
-- invariant of one map has to be shown for the writes on that map alone.
use ai_cloudhub.Common.{ℕ, ◌*◌, List, ◌≡◌, refl, subst, sym, arith}
use ai_cloudhub.Text.{Text}
use ai_cloudhub.Action.{Result, ok, Action, ◌>>=◌, or_fail, reads, return, fail}
use ai_cloudhub.Action.Keeps.{Keeps}
use ai_cloudhub.Memory.{
  Memory, User, RefreshToken, RevokedJti, bump_token_version, update_user_password, create_user,
  update_user_role,
}
use ai_cloudhub.Memory.Tokens.{
  revoke_jti, is_jti_revoked, create_refresh_token, revoke_refresh_token,
  revoke_refresh_tokens_for_user,
}
use ai_cloudhub.Memory.Agents.{create_agent, update_agent, delete_agent, bump_agent_token_version}
use ai_cloudhub.Auth.{Service, TokenPayload, second, draw, new_uuid}
use ai_cloudhub.Auth.Tokens.{open_token}
use ai_cloudhub.Auth.Sessions.{insert_refresh}
use ai_cloudhub.Auth.Accounts.{insert_user, set_role}
use ai_cloudhub.Auth.Calls.Kept.{Writes}

-- An action that leaves `part` as it is.
pub Keeps-frame :
    {A B : Type 0} (part : Memory → B) (Q : B → Type 0) (m : Action Memory A)
    → ((s : Memory) → part (m s).1 ≡ part s)
    → Keeps (λ s. Q (part s)) m
Keeps-frame part Q m same = record { kept = λ s q. subst Q (sym (same s)) q }

abbrev on_users : Memory → List User
on_users m = m.users

abbrev on_refresh : Memory → List RefreshToken × ℕ
on_refresh m = (m.refresh, m.drawn)

abbrev on_jti : Memory → List RevokedJti
on_jti m = m.revoked_jti

-- An invariant of the accounts.
module _ (sv : Service) (Timely : ℕ → Type 0) (Q : List User → Type 0) where
  pub users-Writes :
      ((username hash role : Text)
        → Keeps (λ m. Q (on_users m)) (insert_user sv username hash role))
      → ((user_id role : Text) → Keeps (λ m. Q (on_users m)) (set_role user_id role))
      → ((user_id hash : Text) → Keeps (λ m. Q (on_users m)) (update_user_password user_id hash))
      → ((user_id : Text) → Keeps (λ m. Q (on_users m)) (bump_token_version user_id))
      → Writes sv Timely (λ m. Q (on_users m))
  unfolding draw ◌>>=◌ new_uuid insert_refresh create_refresh_token revoke_jti is_jti_revoked
      revoke_refresh_token revoke_refresh_tokens_for_user create_agent update_agent delete_agent
      bump_agent_token_version
  users-Writes adds_user sets_role sets_password bumps = record {
    draws = λ f. Keeps-frame on_users Q (draw f) λ s. refl;
    adds_user = adds_user;
    sets_role = sets_role;
    sets_password = sets_password;
    bumps = bumps;
    denies = λ now t token p o.
        Keeps-frame on_users Q (revoke_jti now p.jti (p.exp * second)) λ s. ground arith;
    asks = λ now t jti. Keeps-frame on_users Q (is_jti_revoked now jti) λ s. ground arith;
    adds_refresh = λ now u h. Keeps-frame on_users Q (insert_refresh sv now u h) λ s. ground arith;
    ends_refresh = λ id. Keeps-frame on_users Q (revoke_refresh_token id) λ s. ground arith;
    ends_all = λ u. Keeps-frame on_users Q (revoke_refresh_tokens_for_user u) λ s. refl;
    adds_agent = λ a. Keeps-frame on_users Q (create_agent a) λ s. refl;
    writes_agent = λ a. Keeps-frame on_users Q (update_agent a) λ s. ground arith;
    drops_agent = λ o id. Keeps-frame on_users Q (delete_agent o id) λ s. ground arith;
    bumps_agent = λ id. Keeps-frame on_users Q (bump_agent_token_version id) λ s. ground arith;
  }

-- An invariant of the refresh tokens and of the identifiers given.
module _ (sv : Service) (Timely : ℕ → Type 0) (Q : List RefreshToken × ℕ → Type 0) where
  pub refresh-Writes :
      ((f : ℕ → Result Text) → Keeps (λ m. Q (on_refresh m)) (draw f))
      → ((username hash role : Text)
          → Keeps (λ m. Q (on_refresh m)) (insert_user sv username hash role))
      → ((now : ℕ) (user_id hash : Text)
          → Keeps (λ m. Q (on_refresh m)) (insert_refresh sv now user_id hash))
      → ((id : Text) → Keeps (λ m. Q (on_refresh m)) (revoke_refresh_token id))
      → ((user_id : Text) → Keeps (λ m. Q (on_refresh m)) (revoke_refresh_tokens_for_user user_id))
      → Writes sv Timely (λ m. Q (on_refresh m))
  unfolding ◌>>=◌ new_uuid create_user set_role or_fail reads return fail update_user_role
      update_user_password bump_token_version revoke_jti is_jti_revoked create_agent update_agent
      delete_agent bump_agent_token_version
  refresh-Writes draws adds_user adds_refresh ends_refresh ends_all = record {
    draws = draws;
    adds_user = adds_user;
    sets_role = λ u r. Keeps-frame on_refresh Q (set_role u r) λ s. ground arith;
    sets_password = λ u h. Keeps-frame on_refresh Q (update_user_password u h) λ s. ground arith;
    bumps = λ u. Keeps-frame on_refresh Q (bump_token_version u) λ s. ground arith;
    denies = λ now t token p o.
        Keeps-frame on_refresh Q (revoke_jti now p.jti (p.exp * second)) λ s. ground arith;
    asks = λ now t jti. Keeps-frame on_refresh Q (is_jti_revoked now jti) λ s. ground arith;
    adds_refresh = adds_refresh;
    ends_refresh = ends_refresh;
    ends_all = ends_all;
    adds_agent = λ a. Keeps-frame on_refresh Q (create_agent a) λ s. refl;
    writes_agent = λ a. Keeps-frame on_refresh Q (update_agent a) λ s. ground arith;
    drops_agent = λ o id. Keeps-frame on_refresh Q (delete_agent o id) λ s. ground arith;
    bumps_agent = λ id. Keeps-frame on_refresh Q (bump_agent_token_version id) λ s. ground arith;
  }

-- An invariant of the denylist.
module _ (sv : Service) (Timely : ℕ → Type 0) (Q : List RevokedJti → Type 0) where
  pub jti-Writes :
      ((now : ℕ)
        → Timely now
        → (token : Text) (p : TokenPayload) → open_token sv token ≡ ok p
        → Keeps (λ m. Q (on_jti m)) (revoke_jti now p.jti (p.exp * second)))
      → ((now : ℕ) → Timely now → (jti : Text) → Keeps (λ m. Q (on_jti m)) (is_jti_revoked now jti))
      → Writes sv Timely (λ m. Q (on_jti m))
  unfolding draw ◌>>=◌ new_uuid insert_user create_user set_role or_fail reads return fail
      update_user_role update_user_password bump_token_version insert_refresh create_refresh_token
      revoke_refresh_token revoke_refresh_tokens_for_user create_agent update_agent delete_agent
      bump_agent_token_version
  jti-Writes denies asks = record {
    draws = λ f. Keeps-frame on_jti Q (draw f) λ s. refl;
    adds_user = λ n h r. Keeps-frame on_jti Q (insert_user sv n h r) λ s. ground arith;
    sets_role = λ u r. Keeps-frame on_jti Q (set_role u r) λ s. ground arith;
    sets_password = λ u h. Keeps-frame on_jti Q (update_user_password u h) λ s. ground arith;
    bumps = λ u. Keeps-frame on_jti Q (bump_token_version u) λ s. ground arith;
    denies = denies;
    asks = asks;
    adds_refresh = λ now u h. Keeps-frame on_jti Q (insert_refresh sv now u h) λ s. ground arith;
    ends_refresh = λ id. Keeps-frame on_jti Q (revoke_refresh_token id) λ s. ground arith;
    ends_all = λ u. Keeps-frame on_jti Q (revoke_refresh_tokens_for_user u) λ s. refl;
    adds_agent = λ a. Keeps-frame on_jti Q (create_agent a) λ s. refl;
    writes_agent = λ a. Keeps-frame on_jti Q (update_agent a) λ s. ground arith;
    drops_agent = λ o id. Keeps-frame on_jti Q (delete_agent o id) λ s. ground arith;
    bumps_agent = λ id. Keeps-frame on_jti Q (bump_agent_token_version id) λ s. ground arith;
  }
