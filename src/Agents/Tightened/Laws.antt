-- ===== src/Agents/Tightened/Laws.antt =====
-- About what internal/agent/service.go counts as taking something from an agent, and the checks of
-- internal/policy/engine.go.
use ai_cloudhub.Common.{
  true, false, List, [], ◌∷◌, none, ◌≡◌, refl, arith, Has, inl, inr, subst, Bool-cases,
}
use ai_cloudhub.Text.{Text, trim_space}
use ai_cloudhub.Text.Laws.{==_iff}
use ai_cloudhub.Policy.{
  contains, any_prefix_hit, prefix_hit, bare, prefix_ok, drive_refusal, prefix_refusal,
}
use ai_cloudhub.Policy.Grants.{contains-Has}
use ai_cloudhub.Agents.Tightened.{
  drops_one, string_slices_equal, scopes_tightened, drives_tightened, prefixes_tightened,
}

slices-eq : (xs ys : List Text) → string_slices_equal xs ys ≡ true → xs ≡ ys
unfolding string_slices_equal
slices-eq [] [] h = refl
slices-eq [] (y ∷ ys) h = ground arith
slices-eq (x ∷ xs) [] h = ground arith
slices-eq (x ∷ xs) (y ∷ ys) h = ground (arith, ==_iff x y, slices-eq xs ys)

contains-kept :
    (old new : List Text) (x : Text)
    → drops_one old new ≡ false
    → contains old x ≡ true
    → contains new x ≡ true
unfolding drops_one contains
contains-kept [] new x h c = ground arith
contains-kept (y ∷ old) new x h c = ground (arith, ==_iff y x, contains-kept old new x)

drops_one-Has : (old new : List Text) (x : Text) → drops_one old new ≡ false → Has x old → Has x new
unfolding drops_one
drops_one-Has [] new x h m = elim m [ ]
drops_one-Has (y ∷ old) new x h m = ground (arith, contains-Has new y, drops_one-Has old new x)

pub scope-kept :
    (old new : List Text) (x : Text) → scopes_tightened old new ≡ false → Has x old → Has x new
unfolding scopes_tightened
scope-kept old new x loose m = elim (Bool-cases (string_slices_equal old new)) [
  | inl same ↦ subst (λ l. Has x l) (slices-eq old new same) m
  | inr other ↦ drops_one-Has old new x (ground arith) m
]

hit-contains :
    (path : Text) (ps : List Text) (x : Text)
    → contains ps x ≡ true
    → prefix_hit path (bare x) ≡ true
    → any_prefix_hit path ps ≡ true
unfolding contains any_prefix_hit
hit-contains path [] x c h = ground arith
hit-contains path (p ∷ ps) x c h = ground (arith, ==_iff p x, hit-contains path ps x)

hit-kept :
    (path : Text) (old new : List Text)
    → drops_one old new ≡ false
    → any_prefix_hit path old ≡ true
    → any_prefix_hit path new ≡ true
unfolding drops_one any_prefix_hit
hit-kept path [] new h c = ground arith
hit-kept path (p ∷ old) new h c = ground (arith, hit-kept path old new, hit-contains path new p)

pub drive_refusal-kept :
    (old new : List Text) (drive : Text)
    → drives_tightened old new ≡ false
    → drive_refusal old drive ≡ none
    → drive_refusal new drive ≡ none
unfolding drives_tightened drive_refusal
drive_refusal-kept old new drive loose passed =
    ground (arith, slices-eq old new, contains-kept old new drive)

pub prefix_refusal-kept :
    (old new : List Text) (path why : Text)
    → prefixes_tightened old new ≡ false
    → prefix_refusal path old why ≡ none
    → prefix_refusal path new why ≡ none
unfolding prefixes_tightened drives_tightened prefix_refusal prefix_ok
prefix_refusal-kept old new path why loose passed =
    ground (arith, slices-eq old new, hit-kept (trim_space path) old new)
