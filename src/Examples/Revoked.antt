-- ===== src/Examples/Revoked.antt =====
-- The theorems on the end of sessions and of agents' tokens, at the store of Sessions.antt.
use ai_cloudhub.Common.{
  ℕ, ◌≤◌, ◌≡◌, ◌⊎◌, refl, false, [], ◌∷◌, List, none, some, arith, ◌∙◌, sym, ap,
}
use ai_cloudhub.Text.{Text, codes, ◌==◌, trim_space}
use ai_cloudhub.Table.{find}
use ai_cloudhub.Action.{ok, err, ◌>>=◌, or_fail, or_wrap, lift, reads, return}
use ai_cloudhub.Policy.{Request, agent_refusal}
use ai_cloudhub.Memory.{Memory, RefreshToken, Agent, get_user_by_id, find_user, with_role}
use ai_cloudhub.Memory.Agents.{get_agent}
use ai_cloudhub.Auth.{TokenPayload}
use ai_cloudhub.Auth.Tokens.{open_token, open_parts, parse_payload}
use ai_cloudhub.Auth.Sessions.{TokenPair, refresh, logout, revoke_all_sessions}
use ai_cloudhub.Auth.Calls.{AuthCall, sets_role, presents, perform_all}
use ai_cloudhub.Auth.Revocation.{revoke_all-refuses}
use ai_cloudhub.Auth.Rotation.{Distinct, refresh-once}
use ai_cloudhub.Auth.LastAdmin.{admins, always-HasAdmin}
use ai_cloudhub.Auth.Denylist.{OneExpiry, logout-refuses, logout-gap}
use ai_cloudhub.Agents.{UpdateInput, update}
use ai_cloudhub.Agents.Access.{with_lists}
use ai_cloudhub.Agents.Update.{Untaken, update-tokens}
use ai_cloudhub.Examples.Sessions.{claims, auth_service, helper, store, token, token-open, accepted}

abbrev calls : List (ℕ × AuthCall)
calls = (85, presents token) ∷ (86, sets_role (codes "u") (codes "user")) ∷ []

revoke_all-refuses_example :
    (e : Text) × ((parse_payload auth_service 87 token
        (perform_all auth_service calls (revoke_all_sessions (codes "u") store).1)).0
      ≡ err e)
revoke_all-refuses_example = revoke_all-refuses auth_service 80 token store claims accepted calls 87

distinct : Distinct auth_service
unfolding ◌==◌
distinct i j lt = ground arith

abbrev held : RefreshToken
held = record {
  id = 0 ∷ [];
  user_id = codes "u";
  token_hash = 5 ∷ codes "x";
  expires_at = 100;
  created_at = 0;
  revoked = false;
}

abbrev holding_one : Memory
holding_one = record store { refresh = held ∷ [] }

abbrev exchanged : TokenPair
exchanged = record {
  access_token = token;
  refresh_token = 1 ∷ [];
  expires_in = 86400;
  token_type = codes "Bearer";
  user = record { id = codes "u"; username = codes "ann"; role = codes "admin" };
}

refresh-once_example :
    (e : Text) × ((refresh auth_service 87
        (codes "x")
        (perform_all auth_service calls (refresh auth_service 10 (codes "x") holding_one).1)).0
      ≡ err e)
unfolding find ◌==◌ refresh trim_space ◌>>=◌ or_fail reads get_user_by_id find_user lift return
    or_wrap with_role
refresh-once_example =
    refresh-once auth_service distinct 10 (codes "x") holding_one exchanged (λ k le. ground arith)
      (refl, tt) refl calls 87

always-HasAdmin_example : 1 ≤ admins (perform_all auth_service calls store).users
unfolding ◌==◌
always-HasAdmin_example = always-HasAdmin auth_service calls store (omega arith)

open_parts-claims :
    (parts : List Text) (p : TokenPayload) → open_parts auth_service parts ≡ ok p → p ≡ claims
unfolding open_parts
open_parts-claims [] p h = ground arith
open_parts-claims (a ∷ []) p h = ground arith
open_parts-claims (a ∷ b ∷ []) p h = ground arith
open_parts-claims (a ∷ b ∷ c ∷ cs) p h = ground arith

one_expiry : OneExpiry auth_service
unfolding open_token
one_expiry s t p q sp tq same =
    ap (λ x. x.exp) (open_parts-claims _ p sp) ∙ sym (ap (λ x. x.exp) (open_parts-claims _ q tq))

logout-refuses_example :
    (e : Text) × ((parse_payload auth_service 87 token
        (perform_all auth_service calls (logout auth_service 80 token [] store).1)).0
      ≡ err e)
logout-refuses_example =
    logout-refuses auth_service one_expiry 80 token [] store claims accepted refl calls 87
      (omega arith, (omega arith, tt)) (omega arith)

logout-gap_example :
    (parse_payload auth_service 90000000001 token (logout auth_service 80 token [] store).1).0
    ≡ ok claims
logout-gap_example =
    logout-gap auth_service 80 token [] store claims accepted refl 90000000001 (omega arith)
      (omega arith)

abbrev disabling : UpdateInput
disabling = record {
  name = none;
  description = none;
  status = some (codes "disabled");
  default_scopes = none;
  allowed_drive_ids = none;
  read_prefixes = none;
  write_prefixes = none;
  set_drives = false;
}

abbrev stopped : Agent
stopped = record helper { status = codes "disabled"; token_version = 3 }

abbrev reading : Request
reading = record {
  agent_id = codes "g";
  allowed_drive_ids = [];
  read_prefixes = [];
  write_prefixes = [];
  scopes = codes "drive.read" ∷ [];
  action = codes "drive.read";
  drive_id = codes "d";
  path = [];
}

update-tokens_example :
    ((agent_refusal (with_lists stopped reading) ≡ none) × Untaken helper stopped)
    ⊎ ((now : ℕ)
        → (e : Text) × ((parse_payload auth_service now token
              (update auth_service (codes "u") (codes "g") disabling store).1).0
            ≡ err e))
unfolding get_agent ◌==◌ update ◌>>=◌ or_fail reads trim_space return agent_refusal with_lists
update-tokens_example =
    update-tokens auth_service (codes "u") (codes "g") disabling store helper stopped refl refl
      reading refl token claims token-open refl refl refl
