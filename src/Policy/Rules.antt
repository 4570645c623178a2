-- ===== src/Policy/Rules.antt =====
-- internal/policy/file.go: the ordered rules of the policy file. strings.ToLower is a parameter, as
-- it folds all of Unicode.
use ai_cloudhub.Common.{
  ℕ, zero, suc, Bool, true, false, not, ◌&&◌, ◌||◌, List, [], ◌∷◌, ◌++◌, reverse, Option, none,
  some, if◌then◌else◌, map, ◌==◌ as nat_eq,
}
use ai_cloudhub.Text.{Text, codes, ◌==◌, is_empty, trim_space, has_suffix, contains_text}
use ai_cloudhub.Policy.{Request, Decision, denied, allowed, contains, has_scope, prefix_ok}
pub mod Laws

pub data Mode : Type 0 where
  enforce observe : Mode

pub data Effect : Type 0 where
  deny allow : Effect

pub record Rule : Type 0 where
  pub id : Text
  pub effect : Effect
  pub principals : List Text
  pub actions : List Text
  pub agent_ids : List Text
  pub drive_ids : List Text
  pub path_deny_prefixes : List Text
  pub path_allow_prefixes : List Text
  pub require_scopes : List Text
  pub reason : Text

-- The document as ParseDocument leaves it: its mode and the effects are read.
pub record Document : Type 0 where
  pub mode : Mode
  pub rules : List Rule

abbrev pub is_agent : Request → Bool
is_agent req = not (is_empty req.agent_id)

abbrev unset : List Text → Bool
unset [] = true
unset (x ∷ xs) = false

unfoldable pub slash : ℕ
slash = 47

backslash : ℕ
backslash = 92

-- strings.ReplaceAll(path, "\\", "/")
forward : Text → Text
unfolding slash backslash
forward s = map (λ c. if nat_eq c backslash then slash else c) s

-- strings.Split(p, "/"): the segment that is being read stands in reverse.
split_from : Text → Text → List Text
unfolding slash
split_from seg [] = reverse seg ∷ []
split_from seg (c ∷ cs) =
    if nat_eq c slash then reverse seg ∷ split_from [] cs else split_from (c ∷ seg) cs

unfoldable pub drop_slashes : Text → Text
unfolding slash
drop_slashes [] = []
drop_slashes (c ∷ cs) = if nat_eq c slash then drop_slashes cs else c ∷ cs

-- strings.Trim(strings.TrimSpace(pref), "/")
unfoldable pub trim_slashes : Text → Text
unfolding drop_slashes
trim_slashes s = reverse (drop_slashes (reverse (drop_slashes (trim_space s))))

segment_hit : Text → List Text → Bool
unfolding trim_slashes split_from
segment_hit p [] = false
segment_hit p (pref ∷ prefs) =
    let q = trim_slashes pref in
    (not (is_empty q)
      && (contains (split_from [] p) q
          || contains_text p (codes "/" ++ (q ++ codes "/"))
          || has_suffix p (codes "/" ++ q)))
    || segment_hit p prefs

unfoldable pub path_hits_any : Text → List Text → Bool
unfolding segment_hit forward
path_hits_any path prefixes = prefix_ok path prefixes || segment_hit (forward path) prefixes

module _ (to_lower : Text → Text) where
  principal_hit : Bool → List Text → Bool
  principal_hit agent [] = false
  principal_hit agent (p ∷ ps) =
      let q = to_lower (trim_space p) in
      (q == codes "any"
        || q == codes "*"
        || (q == codes "agent" && agent)
        || (q == codes "human" && not agent))
      || principal_hit agent ps

  contains_folded : List Text → Text → Bool
  contains_folded [] x = false
  contains_folded (s ∷ ss) x = to_lower (trim_space s) == x || contains_folded ss x

  unfoldable pub contains_fold : List Text → Text → Bool
  unfolding contains_folded
  contains_fold ss x = contains_folded ss (to_lower (trim_space x))

  -- A rule matches when every constraint that it sets holds.
  unfoldable pub rule_matches : Rule → Request → Bool
  unfolding principal_hit contains_fold path_hits_any
  rule_matches r req =
      (unset r.principals || principal_hit (is_agent req) r.principals)
      && (unset r.actions || is_empty req.action || contains_fold r.actions req.action)
      && (unset r.agent_ids || (is_agent req && contains r.agent_ids req.agent_id))
      && (unset r.drive_ids || (not (is_empty req.drive_id) && contains r.drive_ids req.drive_id))
      && (unset r.path_deny_prefixes
          || (not (is_empty req.path) && path_hits_any req.path r.path_deny_prefixes))
      && (unset r.path_allow_prefixes
          || (not (is_empty req.path) && prefix_ok req.path r.path_allow_prefixes))

  -- The first of the required scopes that the request lacks.
  unfoldable pub missing_scope : List Text → List Text → Option Text
  missing_scope scopes [] = none
  missing_scope scopes (need ∷ needs) =
      if has_scope scopes need then missing_scope scopes needs else some need

  -- The reason of the rule, or the one that stands in for it.
  abbrev reason_or : Text → Text → Text
  reason_or given fallback = if is_empty given then fallback else given

  -- In observe mode a refusal is only noted.
  unfoldable pub refuse : Mode → Text → Decision
  refuse enforce why = denied why
  refuse observe why = allowed (codes "observe:would-deny:" ++ why)

  -- What a rule decides once it matches.
  unfoldable pub decide : Mode → Rule → Request → Decision
  unfolding refuse missing_scope
  decide mode r req = elim (missing_scope req.scopes r.require_scopes) [
    | some need ↦
        refuse mode
          (reason_or r.reason (codes "policy " ++ (r.id ++ (codes ": missing scope " ++ need))))
    | none ↦ elim r.effect [
      | deny ↦ refuse mode (reason_or r.reason (codes "policy deny: " ++ r.id))
      | allow ↦ allowed (reason_or r.reason (codes "policy allow: " ++ r.id))
    ]
  ]

  unfoldable pub apply_rules : Mode → List Rule → Request → Decision
  unfolding rule_matches decide
  apply_rules mode [] req = allowed (codes "ok")
  apply_rules mode (r ∷ rs) req =
      if rule_matches r req then decide mode r req else apply_rules mode rs req

  unfoldable pub apply_file_rules : Option Document → Request → Decision
  unfolding apply_rules
  apply_file_rules none req = allowed (codes "ok")
  apply_file_rules (some doc) req = apply_rules doc.mode doc.rules req
