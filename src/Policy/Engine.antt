-- ===== src/Policy/Engine.antt =====
-- internal/policy/engine.go, Evaluate, with the verdicts of internal/policy/opa.go and
-- internal/policy/pdp.go. What the query of OPA and the request to the decision point answer is a
-- parameter.
use ai_cloudhub.Common.{Bool, true, false, ◌&&◌, ◌||◌, ◌++◌, Option, none, some, if◌then◌else◌}
use ai_cloudhub.Text.{Text, codes, ◌==◌, is_empty, trim_space, has_prefix}
use ai_cloudhub.Policy.{Request, Decision, denied, allowed, agent_refusal}
use ai_cloudhub.Policy.Rules.{Document, apply_file_rules}
pub mod Laws
pub mod Capable

-- What evaluating `data.aicloudhub.authz.allow` gives.
pub data QueryResult : Type 0 where
  query_failed : Text → QueryResult
  no_result : QueryResult
  not_boolean : QueryResult
  answered : Bool → QueryResult

pub record OpaEvaluator : Type 0 where
  pub strict : Bool
  pub observe : Bool
  pub query : Request → QueryResult

unfoldable pub opa_evaluate : OpaEvaluator → Request → Decision
opa_evaluate o req = elim (o.query req) [
  | query_failed e ↦
      if o.strict
      then denied (codes "opa error: " ++ e)
      else allowed (codes "opa error (fail-open): " ++ e)
  | no_result ↦ allowed (codes "opa:no-result")
  | not_boolean ↦
      if o.strict
      then denied (codes "opa: non-boolean allow result")
      else allowed (codes "opa: non-boolean (fail-open)")
  | answered verdict ↦
      if verdict
      then allowed (codes "opa:allow")
      else if o.observe
      then allowed (codes "opa:observe:would-deny")
      else denied (codes "opa:deny")
]

-- The outcome of the POST: an error of any of its steps, or the fields of the reply.
pub data Reply : Type 0 where
  post_failed : Text → Reply
  replied : (allow result : Option Bool) → (reason : Text) → Reply

pub record RemotePdp : Type 0 where
  pub strict : Bool
  pub observe : Bool
  pub post : Request → Reply

pdp_decide : RemotePdp → Bool → Text → Decision
pdp_decide p true reason = allowed (if is_empty reason then codes "pdp:allow" else reason)
pdp_decide p false reason =
    if p.observe
    then allowed
        (if is_empty reason then codes "pdp:observe:would-deny" else codes "pdp:observe:" ++ reason)
    else denied (
        if is_empty reason
        then codes "pdp:deny"
        else if has_prefix reason (codes "pdp:")
        then reason
        else codes "pdp:deny:" ++ reason)

unfoldable pub pdp_evaluate : RemotePdp → Request → Decision
unfolding pdp_decide
pdp_evaluate p req = elim (p.post req) [
  | post_failed e ↦
      if p.strict
      then denied (codes "pdp error: " ++ e)
      else allowed (codes "pdp error (fail-open): " ++ e)
  | replied (some verdict) result reason ↦ pdp_decide p verdict (trim_space reason)
  | replied none (some verdict) reason ↦ pdp_decide p verdict (trim_space reason)
  | replied none none reason ↦ allowed (codes "pdp:no-allow-field")
]

-- `pdp` is set where the decision point is enabled.
pub record Engine : Type 0 where
  pub to_lower : Text → Text
  pub doc : Option Document
  pub opa : Option OpaEvaluator
  pub pdp : Option RemotePdp

abbrev is_plain : Text → Bool
is_plain reason = reason == codes "ok" || reason == codes "human"

-- OPA can only deny further; an informative reason of its own replaces a plain one.
after_opa : Option OpaEvaluator → Request → Decision → Decision
unfolding opa_evaluate
after_opa none req d = d
after_opa (some o) req d =
    let v = opa_evaluate o req in
    if v.allow
    then if is_empty v.reason || v.reason == codes "opa:allow" || v.reason == codes "opa:no-result"
      then d
      else if is_plain d.reason
      then record d { reason = v.reason }
      else d
    else denied v.reason

after_pdp : Option RemotePdp → Request → Decision → Decision
unfolding pdp_evaluate
after_pdp none req d = d
after_pdp (some p) req d =
    let v = pdp_evaluate p req in
    if v.allow
    then if is_empty v.reason || v.reason == codes "pdp:allow"
      then d
      else if is_plain d.reason || d.reason == codes "opa:allow"
      then record d { reason = v.reason }
      else d
    else denied v.reason

-- `if !d.Allow { return d }` before the next layer.
abbrev pub and_then : Decision → (Decision → Decision) → Decision
and_then d f = if d.allow then f d else d

named : Request → Decision → Decision
named req d = if d.reason == codes "ok" && is_empty req.agent_id then allowed (codes "human") else d

external : Engine → Request → Decision
unfolding apply_file_rules after_opa after_pdp named
external e req =
    and_then (apply_file_rules e.to_lower e.doc req)
      λ d. and_then (after_opa e.opa req d) λ d'. and_then (after_pdp e.pdp req d') (named req)

unfoldable pub evaluate : Engine → Request → Decision
unfolding agent_refusal external
evaluate e req =
    if is_empty req.agent_id
    then external e req
    else elim (agent_refusal req) [ some why ↦ denied why | none ↦ external e req ]
