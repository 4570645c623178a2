-- ===== src/Agents/Update.antt =====
-- About Update of internal/agent/service.go, with the checks of internal/policy/engine.go and the
-- tokens of internal/auth/auth.go.
use ai_cloudhub.Common.{ℕ, suc, ◌≡◌, sym, subst, false, none, some, inl, inr, ◌⊎◌, arith, Has}
use ai_cloudhub.Text.{Text, codes, is_empty}
use ai_cloudhub.Text.Laws.{==_iff}
use ai_cloudhub.Table.{find}
use ai_cloudhub.Policy.{Request, agent_refusal}
use ai_cloudhub.Action.{ok, err, Result-cases}
use ai_cloudhub.Memory.{Memory, Agent, agent_key}
use ai_cloudhub.Memory.Agents.{get_agent}
use ai_cloudhub.Auth.{Service, TokenPayload}
use ai_cloudhub.Auth.Tokens.{open_token, parse_payload}
use ai_cloudhub.Auth.Tokens.Laws.{parse_payload-Accepted}
use ai_cloudhub.Agents.{UpdateInput, revokes, bumped, update, disabled}
use ai_cloudhub.Agents.Tightened.{scopes_tightened}
use ai_cloudhub.Agents.Tightened.Laws.{scope-kept}
use ai_cloudhub.Agents.Access.{with_lists}
use ai_cloudhub.Agents.Capable.{Loose, agent_refusal-kept}
use ai_cloudhub.Agents.Written.{update-Updated}

-- What the row still gives: every default scope, and it is not newly disabled.
abbrev pub Untaken : Agent → Agent → Type 0
Untaken old new =
    ((s : Text) → Has s old.default_scopes → Has s new.default_scopes)
    × (new.status ≡ codes "disabled" → old.status ≡ codes "disabled")

-- An update that leaves the version as it was takes nothing away.
same_version-Loose :
    (old d : Agent)
    → d.token_version ≡ old.token_version
    → (bumped old d).token_version ≡ old.token_version
    → Loose old (bumped old d)
unfolding bumped revokes
same_version-Loose old d same kept = ground arith

same_version-scopes :
    (old d : Agent)
    → d.token_version ≡ old.token_version
    → (bumped old d).token_version ≡ old.token_version
    → scopes_tightened old.default_scopes (bumped old d).default_scopes ≡ false
unfolding bumped revokes
same_version-scopes old d same kept = ground arith

same_version-status :
    (old d : Agent)
    → d.token_version ≡ old.token_version
    → (bumped old d).token_version ≡ old.token_version
    → (bumped old d).status ≡ codes "disabled"
    → old.status ≡ codes "disabled"
unfolding bumped revokes
same_version-status old d same kept off =
    ground (arith, ==_iff d.status disabled, ==_iff old.status disabled)

same_version-Untaken :
    (old d : Agent)
    → d.token_version ≡ old.token_version
    → (bumped old d).token_version ≡ old.token_version
    → Untaken old (bumped old d)
same_version-Untaken old d same kept = (
  λ s h.
      scope-kept old.default_scopes (bumped old d).default_scopes s
        (same_version-scopes old d same kept) h,
  same_version-status old d same kept,
)

version-cases :
    (old d : Agent)
    → d.token_version ≡ old.token_version
    → ((bumped old d).token_version ≡ old.token_version)
      ⊎ ((bumped old d).token_version ≡ suc old.token_version)
unfolding bumped
version-cases old d same = ground arith

-- No token outlives what an update takes from its agent. After an update that succeeds, every token
-- that was given for the agent's former version is refused; or nothing was taken: a request that the
-- built-in checks passed with the agent's lists still passes them with its new lists, the agent still
-- has each of its default scopes, and it is disabled only if it was disabled before.
pub update-tokens :
    (sv : Service) (owner id : Text) (input : UpdateInput) (m : Memory) (old new : Agent)
    → get_agent owner id m ≡ ok old
    → (update sv owner id input m).0 ≡ ok new
    → (req : Request) → agent_refusal (with_lists old req) ≡ none
    → (token : Text) (p : TokenPayload) → open_token sv token ≡ ok p
    → p.agent_id ≡ id
    → is_empty id ≡ false
    → p.agent_token_version ≡ old.token_version
    → ((agent_refusal (with_lists new req) ≡ none) × Untaken old new)
      ⊎ ((now : ℕ)
          → (e : Text) × ((parse_payload sv now token (update sv owner id input m).1).0 ≡ err e))
update-tokens sv owner id input m old new got done req passed token p opened agents named version =
    let m1 = (update sv owner id input m).1 in
    let (d, same, newest, found, stands) = update-Updated sv owner id input m old new got done in
    elim (version-cases old d same.2) [
      | inl kept ↦ inl (
          subst (λ a. (agent_refusal (with_lists a req) ≡ none) × Untaken old a) (sym newest)
            (
              agent_refusal-kept old (bumped old d) req (same_version-Loose old d same.2 kept)
                  passed,
              same_version-Untaken old d same.2 kept,
            ))
      | inr raised ↦ inr λ now. elim (Result-cases (parse_payload sv now token m1).0) [
        | inr refused ↦ refused
        | inl (q, accepted) ↦
            let stale : new.token_version ≡ suc old.token_version = rw newest raised in
            let here : find agent_key p.agent_id m1.agents ≡ some new = rw agents stands in
            let unnamed : is_empty p.agent_id ≡ false = rw agents named in
            ground (arith, (parse_payload-Accepted sv now token m1 q).0 accepted)
      ]
    ]
