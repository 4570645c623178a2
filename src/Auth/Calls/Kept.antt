-- ===== src/Auth/Calls/Kept.antt =====
-- About the calls of internal/auth and internal/agent: what each write to the store keeps, the calls
-- keep.
use ai_cloudhub.Common.{ℕ, ◌*◌, List, [], ◌∷◌, ◌≡◌, All}
use ai_cloudhub.Text.{Text}
use ai_cloudhub.Action.{Result, ok}
use ai_cloudhub.Action.Keeps.{Keeps, keeps_rules, Keeps-bind_known, Keeps-or_wrap}
use ai_cloudhub.Memory.{Memory, Agent, bump_token_version, update_user_password}
use ai_cloudhub.Memory.Tokens.{
  revoke_jti, is_jti_revoked, revoke_refresh_token, revoke_refresh_tokens_for_user,
}
use ai_cloudhub.Memory.Agents.{create_agent, update_agent, delete_agent, bump_agent_token_version}
use ai_cloudhub.Auth.{Service, TokenPayload, second, draw, new_uuid, hash_password}
use ai_cloudhub.Auth.Tokens.{
  issue, issue_agent_token, check_jti, check_user, check_agent, open_token, parse_payload,
  parse_principal,
}
use ai_cloudhub.Auth.Tokens.Laws.{parse_payload-Accepted}
use ai_cloudhub.Auth.Sessions.{
  insert_refresh, issue_tokens, refresh, revoke_refresh, logout, legacy_logout, revoke_all_sessions,
}
use ai_cloudhub.Auth.Accounts.{
  insert_user, register, admin_create_user, upgrade_password, login, set_role, change_password,
}
use ai_cloudhub.Int.{ℤ}
use ai_cloudhub.Agents.{CreateInput, UpdateInput, create, update, delete}
use ai_cloudhub.Auth.Calls.{
  AuthCall, registers, creates_user, logs_in, refreshes, revokes_refresh, logs_out, revokes_all,
  sets_role, changes_password, presents, issues_agent_token, creates_agent, updates_agent,
  deletes_agent, revokes_agent_tokens, perform, perform_all,
}

-- The writes that the calls are made of, at the times that `Timely` admits.
pub record Writes (sv : Service) (Timely : ℕ → Type 0) (P : Memory → Type 0) : Type 0 where
  pub draws : (f : ℕ → Result Text) → Keeps P (draw f)
  pub adds_user : (username hash role : Text) → Keeps P (insert_user sv username hash role)
  pub sets_role : (user_id role : Text) → Keeps P (set_role user_id role)
  pub sets_password : (user_id hash : Text) → Keeps P (update_user_password user_id hash)
  pub bumps : (user_id : Text) → Keeps P (bump_token_version user_id)
  pub denies :
      (now : ℕ)
      → Timely now
      → (token : Text) (p : TokenPayload) → open_token sv token ≡ ok p
      → Keeps P (revoke_jti now p.jti (p.exp * second))
  pub asks : (now : ℕ) → Timely now → (jti : Text) → Keeps P (is_jti_revoked now jti)
  pub adds_refresh : (now : ℕ) (user_id hash : Text) → Keeps P (insert_refresh sv now user_id hash)
  pub ends_refresh : (id : Text) → Keeps P (revoke_refresh_token id)
  pub ends_all : (user_id : Text) → Keeps P (revoke_refresh_tokens_for_user user_id)
  pub adds_agent : (a : Agent) → Keeps P (create_agent a)
  pub writes_agent : (a : Agent) → Keeps P (update_agent a)
  pub drops_agent : (owner id : Text) → Keeps P (delete_agent owner id)
  pub bumps_agent : (id : Text) → Keeps P (bump_agent_token_version id)

module _ {sv : Service} {Timely : ℕ → Type 0} {P : Memory → Type 0} (w : Writes sv Timely P) where
  uuid-Keeps : Keeps P (new_uuid sv)
  unfolding new_uuid
  uuid-Keeps = w.draws _

  hash-Keeps : (password : Text) → Keeps P (hash_password sv password)
  unfolding hash_password
  hash-Keeps password = Keeps-or_wrap _ _ (w.draws _)

  issue-Keeps :
      (now : ℕ) (u n r : Text) (v ttl : ℕ) (a : Text) (av : ℕ) (ss : List Text)
      → Keeps P (issue sv now u n r v ttl a av ss)
  unfolding issue
  issue-Keeps now u n r v ttl a av ss = search (keeps_rules, uuid-Keeps) depth 16

  pub issue_tokens-Keeps : (now : ℕ) (u n r : Text) (v : ℕ) → Keeps P (issue_tokens sv now u n r v)
  unfolding issue_tokens
  issue_tokens-Keeps now u n r v =
      search (keeps_rules, issue-Keeps, w.draws, w.adds_refresh) depth 16

  issue_agent_token-Keeps :
      (now : ℕ) (u n r a : Text) (v av : ℕ) (ss : List Text) (ttl : ℤ)
      → Keeps P (issue_agent_token sv now u n r a v av ss ttl)
  unfolding issue_agent_token
  issue_agent_token-Keeps now u n r a v av ss ttl = search (keeps_rules, issue-Keeps) depth 16

  check_jti-Keeps : (now : ℕ) → Timely now → (jti : Text) → Keeps P (check_jti now jti)
  unfolding check_jti
  check_jti-Keeps now t jti = search (keeps_rules, w.asks now t) depth 16

  parse_payload-Keeps :
      (now : ℕ) → Timely now → (token : Text) → Keeps P (parse_payload sv now token)
  unfolding parse_payload check_user check_agent
  parse_payload-Keeps now t token = search (keeps_rules, check_jti-Keeps now t) depth 16

  parse_principal-Keeps :
      (now : ℕ) → Timely now → (token : Text) → Keeps P (parse_principal sv now token)
  unfolding parse_principal
  parse_principal-Keeps now t token = search (keeps_rules, parse_payload-Keeps now t) depth 16

  refresh-Keeps : (now : ℕ) (raw : Text) → Keeps P (refresh sv now raw)
  unfolding refresh
  refresh-Keeps now raw = search (keeps_rules, w.ends_refresh, issue_tokens-Keeps) depth 16

  revoke_refresh-Keeps : (now : ℕ) (raw : Text) → Keeps P (revoke_refresh sv now raw)
  unfolding revoke_refresh
  revoke_refresh-Keeps now raw = search (keeps_rules, w.ends_refresh) depth 16

  legacy_logout-Keeps : (u : Text) → Keeps P (legacy_logout u)
  unfolding legacy_logout
  legacy_logout-Keeps u = search (keeps_rules, w.bumps, w.ends_all) depth 16

  logout-Keeps : (now : ℕ) → Timely now → (token raw : Text) → Keeps P (logout sv now token raw)
  unfolding logout
  logout-Keeps now t token raw =
      Keeps-bind_known _ _ (parse_payload-Keeps now t token) λ p s accepted.
        let denied =
          w.denies now t token p ((parse_payload-Accepted sv now token s p).0 accepted).0 in
        search (keeps_rules, revoke_refresh-Keeps, legacy_logout-Keeps) depth 16

  revoke_all_sessions-Keeps : (u : Text) → Keeps P (revoke_all_sessions u)
  unfolding revoke_all_sessions
  revoke_all_sessions-Keeps u = search (keeps_rules, w.bumps, w.ends_all) depth 16

  register-Keeps : (n password : Text) → Keeps P (register sv n password)
  unfolding register
  register-Keeps n password = search (keeps_rules, hash-Keeps, w.adds_user) depth 16

  admin_create_user-Keeps : (n password r : Text) → Keeps P (admin_create_user sv n password r)
  unfolding admin_create_user
  admin_create_user-Keeps n password r = search (keeps_rules, hash-Keeps, w.adds_user) depth 16

  login-Keeps : (now : ℕ) (n password : Text) → Keeps P (login sv now n password)
  unfolding login upgrade_password
  login-Keeps now n password =
      search (keeps_rules, hash-Keeps, w.sets_password, issue_tokens-Keeps) depth 16

  change_password-Keeps : (u old new : Text) → Keeps P (change_password sv u old new)
  unfolding change_password
  change_password-Keeps u old new =
      search (keeps_rules, hash-Keeps, w.sets_password, w.ends_all, w.bumps) depth 16

  create-Keeps :
      (now : ℕ) (owner : Text) (input : CreateInput) → Keeps P (create sv now owner input)
  unfolding create
  create-Keeps now owner input = search (keeps_rules, uuid-Keeps, w.adds_agent) depth 16

  update-Keeps : (owner id : Text) (input : UpdateInput) → Keeps P (update sv owner id input)
  unfolding update
  update-Keeps owner id input = search (keeps_rules, w.writes_agent) depth 16

  delete-Keeps : (owner id : Text) → Keeps P (delete owner id)
  unfolding delete
  delete-Keeps owner id = search (keeps_rules, w.drops_agent) depth 16

  pub perform-Kept :
      (now : ℕ) (c : AuthCall) (m : Memory) → Timely now → P m → P (perform sv now c m)
  unfolding perform
  perform-Kept now (registers n password) m t = (register-Keeps n password).kept m
  perform-Kept now (creates_user n password r) m t = (admin_create_user-Keeps n password r).kept m
  perform-Kept now (logs_in n password) m t = (login-Keeps now n password).kept m
  perform-Kept now (refreshes raw) m t = (refresh-Keeps now raw).kept m
  perform-Kept now (revokes_refresh raw) m t = (revoke_refresh-Keeps now raw).kept m
  perform-Kept now (logs_out token raw) m t = (logout-Keeps now t token raw).kept m
  perform-Kept now (revokes_all u) m t = (revoke_all_sessions-Keeps u).kept m
  perform-Kept now (sets_role u r) m t = (w.sets_role u r).kept m
  perform-Kept now (changes_password u old new) m t = (change_password-Keeps u old new).kept m
  perform-Kept now (presents token) m t = (parse_principal-Keeps now t token).kept m
  perform-Kept now (issues_agent_token u n r a v av ss ttl) m t =
      (issue_agent_token-Keeps now u n r a v av ss ttl).kept m
  perform-Kept now (creates_agent owner input) m t = (create-Keeps now owner input).kept m
  perform-Kept now (updates_agent owner id input) m t = (update-Keeps owner id input).kept m
  perform-Kept now (deletes_agent owner id) m t = (delete-Keeps owner id).kept m
  perform-Kept now (revokes_agent_tokens id) m t = (w.bumps_agent id).kept m

  -- Every call of a list that is made at admitted times.
  pub perform_all-Kept :
      (cs : List (ℕ × AuthCall)) (m : Memory)
      → All (λ c. Timely c.0) cs
      → P m
      → P (perform_all sv cs m)
  unfolding perform_all
  perform_all-Kept [] m t p = p
  perform_all-Kept ((now, c) ∷ cs) m t p =
      perform_all-Kept cs (perform sv now c m) t.1 (perform-Kept now c m t.0 p)

-- Calls at any times.
pub always : (cs : List (ℕ × AuthCall)) → All (λ c. Unit {0}) cs
always [] = tt
always (c ∷ cs) = (tt, always cs)
