-- ===== src/Auth/Calls.antt =====
-- The calls that clients and administrators make of internal/auth and internal/agent, in any order:
-- a list of calls is one interleaving of theirs, each call as one step.
use ai_cloudhub.Common.{ℕ, List, [], ◌∷◌}
use ai_cloudhub.Text.{Text}
use ai_cloudhub.Int.{ℤ}
use ai_cloudhub.Action.{Action}
use ai_cloudhub.Memory.{Memory}
use ai_cloudhub.Memory.Agents.{bump_agent_token_version}
use ai_cloudhub.Auth.{Service}
use ai_cloudhub.Auth.Tokens.{issue_agent_token, parse_principal}
use ai_cloudhub.Auth.Sessions.{refresh, revoke_refresh, logout, revoke_all_sessions}
use ai_cloudhub.Auth.Accounts.{register, admin_create_user, login, set_role, change_password}
use ai_cloudhub.Agents.{CreateInput, UpdateInput, create, update, delete}
pub mod Kept
pub mod Frames

pub data AuthCall : Type 0 where
  registers : (username password : Text) → AuthCall
  creates_user : (username password role : Text) → AuthCall
  logs_in : (username password : Text) → AuthCall
  refreshes : (raw : Text) → AuthCall
  revokes_refresh : (raw : Text) → AuthCall
  logs_out : (token raw_refresh : Text) → AuthCall
  revokes_all : (user_id : Text) → AuthCall
  sets_role : (user_id role : Text) → AuthCall
  changes_password : (user_id old_password new_password : Text) → AuthCall
  presents : (token : Text) → AuthCall
  issues_agent_token :
      (user_id username role agent_id : Text)
      → (version agent_version : ℕ) → (scopes : List Text) → (ttl : ℤ) → AuthCall
  creates_agent : (owner : Text) → CreateInput → AuthCall
  updates_agent : (owner id : Text) → UpdateInput → AuthCall
  deletes_agent : (owner id : Text) → AuthCall
  revokes_agent_tokens : (id : Text) → AuthCall

-- A call, made at a time.
module _ (sv : Service) where
  unfoldable pub perform : ℕ → AuthCall → Memory → Memory
  perform now (registers username password) m = (register sv username password m).1
  perform now (creates_user username password role) m =
      (admin_create_user sv username password role m).1
  perform now (logs_in username password) m = (login sv now username password m).1
  perform now (refreshes raw) m = (refresh sv now raw m).1
  perform now (revokes_refresh raw) m = (revoke_refresh sv now raw m).1
  perform now (logs_out token raw_refresh) m = (logout sv now token raw_refresh m).1
  perform now (revokes_all user_id) m = (revoke_all_sessions user_id m).1
  perform now (sets_role user_id role) m = (set_role user_id role m).1
  perform now (changes_password user_id old_password new_password) m =
      (change_password sv user_id old_password new_password m).1
  perform now (presents token) m = (parse_principal sv now token m).1
  perform now (issues_agent_token user_id username role agent_id version agent_version scopes ttl)
        m =
      (issue_agent_token sv now user_id username role agent_id version agent_version scopes ttl m).1
  perform now (creates_agent owner input) m = (create sv now owner input m).1
  perform now (updates_agent owner id input) m = (update sv owner id input m).1
  perform now (deletes_agent owner id) m = (delete owner id m).1
  perform now (revokes_agent_tokens id) m = (bump_agent_token_version id m).1

  unfoldable pub perform_all : List (ℕ × AuthCall) → Memory → Memory
  unfolding perform
  perform_all [] m = m
  perform_all ((now, c) ∷ cs) m = perform_all cs (perform now c m)
