-- ===== src/Policy/Rules/Laws.antt =====
-- About applyFileRules of internal/policy/file.go and prefixOK of internal/policy/engine.go.
use ai_cloudhub.Common.{
  true, false, List, [], ◌∷◌, ◌++◌, some, ◌≡◌, refl, ap, sym, ◌∙◌, ◌⊎◌, inl, inr, arith, All, Has,
  Bool-cases,
}
use ai_cloudhub.Text.{Text, codes, contains_text, trim_space}
use ai_cloudhub.Text.Laws.{contains_text-append}
use ai_cloudhub.Policy.{Request, Decision, allowed, bare, prefix_hit, any_prefix_hit, prefix_ok}
use ai_cloudhub.Policy.Rules.{
  Mode, enforce, observe, Effect, Rule, rule_matches, missing_scope, refuse, decide, apply_rules,
}

-- A rule that forbids the request: it denies, or asks for a scope that the request lacks.
abbrev pub Forbids : (Text → Text) → Rule → Request → Type 0
Forbids to_lower r req =
    (r.effect ≡ Effect.deny)
    ⊎ ((need : Text) × (missing_scope to_lower req.scopes r.require_scopes ≡ some need))

module _ (to_lower : Text → Text) (req : Request) where
  -- A rule decides after rules that do not match; where none matches, the request passes.
  pub first_match :
      (mode : Mode) (rs : List Rule)
      → (All (λ r. rule_matches to_lower r req ≡ false) rs
          × (apply_rules to_lower mode rs req ≡ allowed (codes "ok")))
        ⊎ ((before : List Rule) × (r : Rule) × (after : List Rule) × (rs ≡ before ++ (r ∷ after))
            × All (λ x. rule_matches to_lower x req ≡ false) before
            × (rule_matches to_lower r req ≡ true)
            × (apply_rules to_lower mode rs req ≡ decide to_lower mode r req))
  unfolding apply_rules
  first_match mode [] = inl (tt, refl)
  first_match mode (r ∷ rs) = elim (Bool-cases (rule_matches to_lower r req)) [
    | inl hit ↦ inr ([], r, rs, refl, tt, hit, rw hit refl)
    | inr miss ↦ elim (first_match mode rs) [
      | inl (none_hit, passes) ↦ inl ((miss, none_hit), rw (miss, passes) refl)
      | inr (before, x, after, split, missed, hit, decides) ↦ inr (
        r ∷ before,
        x,
        after,
        ap (λ l. r ∷ l) split,
        (miss, missed),
        hit,
        rw (miss, decides) refl,
      )
    ]
  ]

  decide_observe : (r : Rule) → (decide to_lower observe r req).allow ≡ true
  unfolding decide refuse
  decide_observe r = ground arith

  decide_enforce :
      (r : Rule) → (decide to_lower enforce r req).allow ≡ false → Forbids to_lower r req
  unfolding decide refuse
  decide_enforce r h = ground arith

  -- A file in observe mode denies nothing.
  pub observe-allow : (rs : List Rule) → (apply_rules to_lower observe rs req).allow ≡ true
  observe-allow rs = elim (first_match observe rs) [
    | inl (_, passes) ↦ rw passes refl
    | inr (_, r, _, _, _, _, decides) ↦ rw decides (decide_observe r)
  ]

  -- A refusal in enforce mode comes from the first rule that matches, and that rule denies or asks for a
  -- scope that the request lacks.
  pub enforce-deny :
      (rs : List Rule)
      → (apply_rules to_lower enforce rs req).allow ≡ false
      → (before : List Rule) × (r : Rule) × (after : List Rule) × (rs ≡ before ++ (r ∷ after))
        × All (λ x. rule_matches to_lower x req ≡ false) before
        × (rule_matches to_lower r req ≡ true)
        × Forbids to_lower r req
  enforce-deny rs h = elim (first_match enforce rs) [
    | inl (_, passes) ↦ absurd (ground arith)
    | inr (before, r, after, split, missed, hit, decides) ↦ (
      before,
      r,
      after,
      split,
      missed,
      hit,
      decide_enforce r (ap (λ (d : Decision). d.allow) (sym decides) ∙ h),
    )
  ]

any_hit :
    (path pref : Text) (prefs : List Text)
    → Has pref prefs
    → prefix_hit path (bare pref) ≡ true
    → any_prefix_hit path prefs ≡ true
unfolding any_prefix_hit
any_hit path pref [] m h = elim m [ ]
any_hit path pref (p ∷ ps) (inl e) h = rw (sym e, h) refl
any_hit path pref (p ∷ ps) (inr m) h = ground (arith, any_hit path pref ps m h)

hit_within : (path q : Text) → contains_text path (codes "/" ++ q) ≡ true → prefix_hit path q ≡ true
unfolding prefix_hit
hit_within path q h = ground (arith, h)

-- A path prefix admits every path in which it stands behind a slash, at any depth and with any text after
-- it: "src" admits "/home/other/src-private/key".
pub prefix_ok-within :
    (path pref front back : Text) (prefixes : List Text)
    → Has pref prefixes
    → trim_space path ≡ front ++ ((codes "/" ++ bare pref) ++ back)
    → prefix_ok path prefixes ≡ true
unfolding prefix_ok
prefix_ok-within path pref front back prefixes m e = any_hit (trim_space path) pref prefixes m (
    hit_within (trim_space path) (bare pref) (
      ap (λ s. contains_text s (codes "/" ++ bare pref)) e
      ∙ contains_text-append front (codes "/" ++ bare pref) back))
