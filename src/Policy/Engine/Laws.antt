-- ===== src/Policy/Engine/Laws.antt =====
-- About Evaluate of internal/policy/engine.go: its layers.
use ai_cloudhub.Common.{
  Bool, true, false, ◌&&◌, Option, none, some, ◌≡◌, refl, ap, ◌∙◌, arith, if◌then◌else◌,
}
use ai_cloudhub.Text.{Text, is_empty}
use ai_cloudhub.Policy.{Request, Decision, denied, agent_refusal}
use ai_cloudhub.Policy.Rules.{apply_file_rules}
use ai_cloudhub.Policy.Engine.{
  Engine, OpaEvaluator, RemotePdp, opa_evaluate, pdp_evaluate, and_then, external, after_opa,
  after_pdp, named, evaluate,
}

-- The layers, each on its own.
abbrev pub agent_allows : Request → Bool
agent_allows req =
    if is_empty req.agent_id
    then true
    else elim (agent_refusal req) [ none ↦ true | some why ↦ false ]

abbrev pub opa_allows : Option OpaEvaluator → Request → Bool
opa_allows none req = true
opa_allows (some o) req = (opa_evaluate o req).allow

abbrev pub pdp_allows : Option RemotePdp → Request → Bool
pdp_allows none req = true
pdp_allows (some p) req = (pdp_evaluate p req).allow

and_then_allow :
    (d : Decision) (f : Decision → Decision) (b : Bool)
    → ((d.allow ≡ true) → (f d).allow ≡ b)
    → (and_then d f).allow ≡ (d.allow && b)
and_then_allow d f b h = ground arith

after_opa_allow :
    (o : Option OpaEvaluator) (req : Request) (d : Decision)
    → d.allow ≡ true
    → (after_opa o req d).allow ≡ opa_allows o req
unfolding after_opa
after_opa_allow none req d h = h
after_opa_allow (some o) req d h = ground arith

after_pdp_allow :
    (p : Option RemotePdp) (req : Request) (d : Decision)
    → d.allow ≡ true
    → (after_pdp p req d).allow ≡ pdp_allows p req
unfolding after_pdp
after_pdp_allow none req d h = h
after_pdp_allow (some p) req d h = ground arith

named_allow : (req : Request) (d : Decision) → d.allow ≡ true → (named req d).allow ≡ true
unfolding named
named_allow req d h = ground arith

pdp_layer :
    (p : Option RemotePdp) (req : Request) (d : Decision)
    → d.allow ≡ true
    → (and_then (after_pdp p req d) (named req)).allow ≡ pdp_allows p req
pdp_layer p req d h =
    and_then_allow (after_pdp p req d) (named req) true (named_allow req (after_pdp p req d))
    ∙ ground (arith, after_pdp_allow p req d h)

opa_layer :
    (o : Option OpaEvaluator) (p : Option RemotePdp) (req : Request) (d : Decision)
    → d.allow ≡ true
    → (and_then (after_opa o req d) λ d'. and_then (after_pdp p req d') (named req)).allow
      ≡ (opa_allows o req && pdp_allows p req)
opa_layer o p req d h =
    and_then_allow (after_opa o req d) (λ d'. and_then (after_pdp p req d') (named req))
      (pdp_allows p req) (pdp_layer p req (after_opa o req d))
    ∙ ap (λ b. b && pdp_allows p req) (after_opa_allow o req d h)

external_allow :
    (e : Engine) (req : Request)
    → (external e req).allow ≡ (
        (apply_file_rules e.to_lower e.doc req).allow
        && (opa_allows e.opa req && pdp_allows e.pdp req))
unfolding external
external_allow e req =
    let d = apply_file_rules e.to_lower e.doc req in
    and_then_allow d
      (λ x. and_then (after_opa e.opa req x) λ x'. and_then (after_pdp e.pdp req x') (named req))
      (opa_allows e.opa req && pdp_allows e.pdp req) (opa_layer e.opa e.pdp req d)

gate :
    (person : Bool) (o : Option Text) (d : Decision) (b : Bool)
    → d.allow ≡ b
    → (if person then d else elim o [ some why ↦ denied why | none ↦ d ]).allow
      ≡ ((if person then true else elim o [ none ↦ true | some why ↦ false ]) && b)
gate true o d b h = h
gate false none d b h = h
gate false (some why) d b h = refl

-- A request is allowed exactly when every layer allows it: the capability checks of an agent, the rules of
-- the file, OPA and the remote decision point. No layer can overrule another's refusal.
pub evaluate-allow :
    (e : Engine) (req : Request)
    → (evaluate e req).allow ≡ (
        agent_allows req
        && ((apply_file_rules e.to_lower e.doc req).allow
            && (opa_allows e.opa req && pdp_allows e.pdp req)))
unfolding evaluate
evaluate-allow e req =
    gate (is_empty req.agent_id) (agent_refusal req) (external e req) _ (external_allow e req)
