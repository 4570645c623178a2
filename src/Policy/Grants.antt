-- ===== src/Policy/Grants.antt =====
-- About the lists of an agent, as contains and prefixOK of internal/policy/engine.go read them.
use ai_cloudhub.Common.{
  true, List, [], ◌∷◌, ◌++◌, ◌≡◌, refl, sym, ap, ◌∙◌, ◌⊎◌, inl, inr, arith, Has, Bool-cases, drop,
  length,
}
use mathlib.Core.List.{append-nil, append_assoc}
use ai_cloudhub.Text.{
  Text, codes, ◌==◌, is_empty, trim_space, trim_prefix, has_prefix, has_suffix, contains_text,
}
use ai_cloudhub.Text.Laws.{==_iff}
use ai_cloudhub.Text.Parts.{
  has_prefix-split, has_suffix-split, contains_text-split, trim_prefix-split,
}
use ai_cloudhub.Policy.{contains, bare, prefix_hit, any_prefix_hit, prefix_ok}

pub contains-Has : (ss : List Text) (x : Text) → contains ss x ≡ true → Has x ss
unfolding contains
contains-Has [] x h = absurd (ground arith)
contains-Has (s ∷ ss) x h = ground (arith, ==_iff s x, contains-Has ss x)

-- Where a prefix may stand in a path: at its start, behind a slash, or at its end.
abbrev pub Stands : Text → Text → Type 0
Stands path q =
    (front : Text) × (back : Text) × (path ≡ front ++ (q ++ back))
    × ((front ≡ []) ⊎ ((f : Text) × (front ≡ f ++ codes "/")) ⊎ (back ≡ []))

abbrev pub Hits : Text → Text → Type 0
Hits path q = (q ≡ codes "*") ⊎ Stands path q

abbrev pub Admits : Text → List Text → Type 0
Admits path prefixes = (pref : Text) × Has pref prefixes × Hits (trim_space path) (bare pref)

-- What stands at the start of a path, or behind a slash at its start.
after_slash : (path q back : Text) → trim_prefix path (codes "/") ≡ q ++ back → Stands path q
after_slash path q back e = elim (trim_prefix-split path (codes "/")) [
  | inl whole ↦ ([], back, whole ∙ e, inl refl)
  | inr cut ↦ (codes "/", back, cut ∙ ap (λ t. codes "/" ++ t) e, inr (inl ([], refl)))
]

empty_text : (q : Text) → is_empty q ≡ true → q ≡ []
empty_text [] h = refl
empty_text (c ∷ q) h = absurd (ground arith)

prefix_hit-cases :
    (path q : Text)
    → prefix_hit path q ≡ true
    → let p = trim_prefix path (codes "/") in
      (is_empty q ≡ true)
      ⊎ ((q == codes "*") ≡ true)
      ⊎ ((p == q) ≡ true)
      ⊎ (has_prefix p (q ++ codes "/") ≡ true)
      ⊎ (has_prefix path q ≡ true)
      ⊎ (contains_text path (codes "/" ++ q) ≡ true)
      ⊎ (has_suffix path q ≡ true)
unfolding prefix_hit
prefix_hit-cases path q h = ground (arith, h)

prefix_hit-Hits : (path q : Text) → prefix_hit path q ≡ true → Hits path q
prefix_hit-Hits path q h =
    let p = trim_prefix path (codes "/") in
    elim (prefix_hit-cases path q h) [
      | inl empty ↦ inr ([], path, ap (λ t. t ++ path) (sym (empty_text q empty)), inl refl)
      | inr (inl star) ↦ inl ((==_iff q (codes "*")).0 star)
      | inr (inr (inl same)) ↦
          inr (after_slash path q [] ((==_iff p q).0 same ∙ sym (append-nil q)))
      | inr (inr (inr (inl below))) ↦
          let back = drop (length (q ++ codes "/")) p in
          inr (
            after_slash path q (codes "/" ++ back)
              (has_prefix-split p (q ++ codes "/") below ∙ append_assoc q (codes "/") back))
      | inr (inr (inr (inr (inl starts)))) ↦
          inr ([], drop (length q) path, has_prefix-split path q starts, inl refl)
      | inr (inr (inr (inr (inr (inl inside))))) ↦
          let (front, back, e) = contains_text-split path (codes "/" ++ q) inside in
          inr (
            front ++ codes "/",
            back,
            e ∙ sym (append_assoc front (codes "/") (q ++ back)),
            inr (inl (front, refl)),
          )
      | inr (inr (inr (inr (inr (inr ends))))) ↦
          let (front, e) = has_suffix-split path q ends in
          inr (front, [], e ∙ ap (λ t. front ++ t) (sym (append-nil q)), inr (inr refl))
    ]

any_prefix_hit-Hits :
    (path : Text) (prefs : List Text)
    → any_prefix_hit path prefs ≡ true
    → (pref : Text) × Has pref prefs × Hits path (bare pref)
unfolding any_prefix_hit
any_prefix_hit-Hits path [] h = absurd (ground arith)
any_prefix_hit-Hits path (pref ∷ prefs) h = elim (Bool-cases (prefix_hit path (bare pref))) [
  | inl hit ↦ (pref, inl refl, prefix_hit-Hits path (bare pref) hit)
  | inr miss ↦ let (q, m, hits) = any_prefix_hit-Hits path prefs (ground arith) in (q, inr m, hits)
]

pub prefix_ok-Admits :
    (path : Text) (prefixes : List Text) → prefix_ok path prefixes ≡ true → Admits path prefixes
unfolding prefix_ok
prefix_ok-Admits path prefixes h = any_prefix_hit-Hits (trim_space path) prefixes h
