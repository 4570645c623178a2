-- ===== src/Examples/Rules.antt =====
-- The theorems on the policy engine, at one agent and one rule.
use ai_cloudhub.Common.{true, false, ◌&&◌, List, [], ◌∷◌, ◌++◌, none, ◌≡◌, refl, ◌⊎◌, inl, All}
use ai_cloudhub.Text.{Text, codes, ◌==◌, trim_space, trim_prefix, has_prefix}
use ai_cloudhub.Policy.{Request, allowed, bare, prefix_ok}
use ai_cloudhub.Policy.Rules.{
  enforce, observe, Effect, Rule, rule_matches, decide, apply_rules, apply_file_rules,
}
use ai_cloudhub.Policy.Rules.Laws.{
  Forbids, first_match, observe-allow, enforce-deny, prefix_ok-within,
}
use ai_cloudhub.Policy.Engine.{Engine, evaluate}
use ai_cloudhub.Policy.Engine.Laws.{agent_allows, opa_allows, pdp_allows, evaluate-allow}
use ai_cloudhub.Policy.Engine.Capable.{Capable, evaluate-Capable}

abbrev to_lower : Text → Text
to_lower s = s

-- An agent that reads a path of a drive.
abbrev reading : Request
reading = record {
  agent_id = codes "a";
  allowed_drive_ids = codes "d" ∷ [];
  read_prefixes = codes "src" ∷ [];
  write_prefixes = [];
  scopes = codes "drive.read" ∷ [];
  action = codes "path.read";
  drive_id = codes "d";
  path = codes "src/a";
}

abbrev no_agents : Rule
no_agents = record {
  id = codes "no-agents";
  effect = Effect.deny;
  principals = codes "agent" ∷ [];
  actions = [];
  agent_ids = [];
  drive_ids = [];
  path_deny_prefixes = [];
  path_allow_prefixes = [];
  require_scopes = [];
  reason = codes "people only";
}

abbrev engine : Engine
engine = record { to_lower = to_lower; doc = none; opa = none; pdp = none }

evaluate-allow_example : (evaluate engine reading).allow ≡ (
    agent_allows reading
    && ((apply_file_rules to_lower none reading).allow
        && (opa_allows none reading && pdp_allows none reading)))
evaluate-allow_example = evaluate-allow engine reading

evaluate-Capable_example : Capable reading
unfolding evaluate ◌==◌ trim_space trim_prefix has_prefix
evaluate-Capable_example = evaluate-Capable engine reading refl refl

enforce-deny_example :
    (before : List Rule) × (r : Rule) × (after : List Rule) × (no_agents ∷ []
      ≡ before ++ (r ∷ after))
    × All (λ x. rule_matches to_lower x reading ≡ false) before
    × (rule_matches to_lower r reading ≡ true)
    × Forbids to_lower r reading
unfolding apply_rules ◌==◌ trim_space
enforce-deny_example = enforce-deny to_lower reading (no_agents ∷ []) refl

observe-allow_example : (apply_rules to_lower observe (no_agents ∷ []) reading).allow ≡ true
observe-allow_example = observe-allow to_lower reading (no_agents ∷ [])

first_match_example :
    (All (λ r. rule_matches to_lower r reading ≡ false) (no_agents ∷ [])
      × (apply_rules to_lower enforce (no_agents ∷ []) reading ≡ allowed (codes "ok")))
    ⊎ ((before : List Rule) × (r : Rule) × (after : List Rule) × (no_agents ∷ []
          ≡ before ++ (r ∷ after))
        × All (λ x. rule_matches to_lower x reading ≡ false) before
        × (rule_matches to_lower r reading ≡ true)
        × (apply_rules to_lower enforce (no_agents ∷ []) reading
            ≡ decide to_lower enforce r reading))
first_match_example = first_match to_lower reading enforce (no_agents ∷ [])

prefix_ok-within_example : prefix_ok (codes "/home/other/src-private/key") (codes "src" ∷ []) ≡ true
unfolding trim_space trim_prefix has_prefix bare
prefix_ok-within_example =
    prefix_ok-within (codes "/home/other/src-private/key") (codes "src") (codes "/home/other")
      (codes "-private/key") (codes "src" ∷ []) (inl refl) refl
