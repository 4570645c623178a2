-- ===== src/Agents/Capable.antt =====
-- About the built-in checks of internal/policy/engine.go with the lists of an agent of
-- internal/agent/service.go.
use ai_cloudhub.Common.{
  ◌≡◌, refl, Bool, true, false, List, [], ◌∷◌, Option, none, some, arith, if◌then◌else◌,
}
use ai_cloudhub.Text.{Text, codes, is_empty}
use ai_cloudhub.Policy.{
  Request, agent_refusal, path_refusal, drive_refusal, prefix_refusal, writes_path, reads_path,
  first_of,
}
use ai_cloudhub.Memory.{Agent}
use ai_cloudhub.Agents.Access.{with_lists, or_own}
use ai_cloudhub.Agents.Tightened.{drives_tightened, prefixes_tightened}
use ai_cloudhub.Agents.Tightened.Laws.{drive_refusal-kept, prefix_refusal-kept}

-- What the built-in checks pass with an agent's lists, they pass with lists that take nothing away.
drive-own :
    (old new asked : List Text) (drive : Text)
    → drives_tightened old new ≡ false
    → drive_refusal (or_own asked old) drive ≡ none
    → drive_refusal (or_own asked new) drive ≡ none
drive-own old new [] drive loose passed = drive_refusal-kept old new drive loose passed
drive-own old new (x ∷ asked) drive loose passed = passed

prefix-own :
    (old new asked : List Text) (path why : Text)
    → prefixes_tightened old new ≡ false
    → prefix_refusal path (or_own asked old) why ≡ none
    → prefix_refusal path (or_own asked new) why ≡ none
prefix-own old new [] path why loose passed = prefix_refusal-kept old new path why loose passed
prefix-own old new (x ∷ asked) path why loose passed = passed

if-kept :
    {A : Type 0} (b : Bool) (x y x' y' z : A)
    → (x ≡ z → x' ≡ z)
    → (y ≡ z → y' ≡ z)
    → (if b then x else y) ≡ z
    → (if b then x' else y') ≡ z
if-kept true x y x' y' z f g e = f e
if-kept false x y x' y' z f g e = g e

abbrev pub Loose : Agent → Agent → Type 0
Loose old new =
    (drives_tightened old.allowed_drive_ids new.allowed_drive_ids ≡ false)
    × (prefixes_tightened old.read_prefixes new.read_prefixes ≡ false)
    × (prefixes_tightened old.write_prefixes new.write_prefixes ≡ false)

path_refusal-kept :
    (old new : Agent) (req : Request)
    → Loose old new
    → path_refusal (with_lists old req) ≡ none
    → path_refusal (with_lists new req) ≡ none
unfolding path_refusal with_lists
path_refusal-kept old new req (drives, reading, writing) =
    let w = codes "path not in write_prefixes" in
    let r = codes "path not in read_prefixes" in
    if-kept (is_empty req.path) _ _ _ _ none (λ e. e)
      (if-kept (writes_path req.action) _ _ _ _ none
        (prefix-own old.write_prefixes new.write_prefixes req.write_prefixes req.path w writing)
        (if-kept (reads_path req.action) _ _ _ _ none
          (prefix-own old.read_prefixes new.read_prefixes req.read_prefixes req.path r reading)
          (λ e. e)))

first_of-none : (a b : Option Text) → first_of a b ≡ none → (a ≡ none) × (b ≡ none)
first_of-none none b h = (refl, h)
first_of-none (some x) b h = ground arith

none-first_of : {a b : Option Text} → a ≡ none → b ≡ none → first_of a b ≡ none
none-first_of {a} {b} h k = rw h k

pub agent_refusal-kept :
    (old new : Agent) (req : Request)
    → Loose old new
    → agent_refusal (with_lists old req) ≡ none
    → agent_refusal (with_lists new req) ≡ none
unfolding agent_refusal with_lists
agent_refusal-kept old new req loose passed =
    let (scoped, rest) = first_of-none _ _ passed in
    let (placed, pathed) = first_of-none _ _ rest in
    none-first_of scoped (
      none-first_of
        (drive-own old.allowed_drive_ids new.allowed_drive_ids req.allowed_drive_ids req.drive_id
          loose.0 placed)
        (path_refusal-kept old new req loose pathed))
