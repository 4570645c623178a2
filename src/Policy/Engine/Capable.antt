-- ===== src/Policy/Engine/Capable.antt =====
-- About Evaluate of internal/policy/engine.go: what it asks of an agent.
use ai_cloudhub.Common.{
  Bool, true, false, ◌&&◌, List, [], ◌∷◌, Option, none, some, ◌≡◌, refl, sym, ◌∙◌, Bool-cases, ◌⊎◌,
  inl, inr, arith, Has, if◌then◌else◌,
}
use ai_cloudhub.Text.{Text, codes, is_empty}
use ai_cloudhub.Text.Laws.{==_iff}
use ai_cloudhub.Policy.{
  Request, contains, has_scope, scope_for_action, prefix_ok, writes_path, reads_path, agent_refusal,
  scope_refusal, drive_refusal, path_refusal, prefix_refusal, first_of,
}
use ai_cloudhub.Policy.Grants.{contains-Has, Admits, prefix_ok-Admits}
use ai_cloudhub.Policy.Engine.{Engine, evaluate}
use ai_cloudhub.Policy.Engine.Laws.{evaluate-allow}

-- What the built-in checks ask of an agent.
abbrev Holds : Text → List Text → Type 0
Holds need scopes =
    Has need scopes
    ⊎ ((need ≡ codes "drive.read") × Has (codes "drive.write") scopes)
    ⊎ ((need ≡ codes "provider.read") × Has (codes "provider.write") scopes)

abbrev Reaches : Text → List Text → Type 0
Reaches path prefixes = (path ≡ []) ⊎ (prefixes ≡ []) ⊎ Admits path prefixes

pub record Capable (req : Request) : Type 0 where
  pub scope : (scope_for_action req.action ≡ []) ⊎ Holds (scope_for_action req.action) req.scopes
  pub drive :
      (req.drive_id ≡ []) ⊎ (req.allowed_drive_ids ≡ []) ⊎ Has req.drive_id req.allowed_drive_ids
  pub write : writes_path req.action ≡ true → Reaches req.path req.write_prefixes
  pub read :
      writes_path req.action ≡ false
      → reads_path req.action ≡ true
      → Reaches req.path req.read_prefixes

has_scope-Holds : (ss : List Text) (need : Text) → has_scope ss need ≡ true → Holds need ss
unfolding has_scope
has_scope-Holds ss need h = ground (
  arith,
  contains-Has ss need,
  ==_iff need (codes "drive.read"),
  ==_iff need (codes "provider.read"),
  contains-Has ss (codes "drive.write"),
  contains-Has ss (codes "provider.write"),
)

scope_granted :
    (scopes : List Text) (need : Text)
    → scope_refusal scopes need ≡ none
    → (need ≡ []) ⊎ Holds need scopes
unfolding scope_refusal
scope_granted scopes [] h = inl refl
scope_granted scopes (c ∷ cs) h = elim (Bool-cases (has_scope scopes (c ∷ cs))) [
  | inl held ↦ inr (has_scope-Holds scopes (c ∷ cs) held)
  | inr lacks ↦ absurd (ground arith)
]

drive_granted :
    (ids : List Text) (drive : Text)
    → drive_refusal ids drive ≡ none
    → (drive ≡ []) ⊎ (ids ≡ []) ⊎ Has drive ids
unfolding drive_refusal
drive_granted ids [] h = inl refl
drive_granted [] (c ∷ cs) h = inr (inl refl)
drive_granted (i ∷ is) (c ∷ cs) h = elim (Bool-cases (contains (i ∷ is) (c ∷ cs))) [
  | inl listed ↦ inr (inr (contains-Has (i ∷ is) (c ∷ cs) listed))
  | inr lacks ↦ absurd (ground arith)
]

prefix_granted :
    (path : Text) (prefixes : List Text) (why : Text)
    → prefix_refusal path prefixes why ≡ none
    → (prefixes ≡ []) ⊎ Admits path prefixes
unfolding prefix_refusal
prefix_granted path [] why h = inl refl
prefix_granted path (p ∷ ps) why h = elim (Bool-cases (prefix_ok path (p ∷ ps))) [
  | inl fits ↦ inr (prefix_ok-Admits path (p ∷ ps) fits)
  | inr lacks ↦ absurd (ground arith)
]

empty_nil : (s : Text) → is_empty s ≡ true → s ≡ []
empty_nil [] h = refl
empty_nil (c ∷ cs) h = absurd (ground arith)

path_granted :
    (req : Request)
    → path_refusal req ≡ none
    → (writes_path req.action ≡ true → Reaches req.path req.write_prefixes)
      × (writes_path req.action ≡ false
          → reads_path req.action ≡ true
          → Reaches req.path req.read_prefixes)
unfolding path_refusal
path_granted req h =
    let fits = prefix_granted req.path in
    ground (
      arith,
      fits req.write_prefixes (codes "path not in write_prefixes"),
      fits req.read_prefixes (codes "path not in read_prefixes"),
      empty_nil req.path,
    )

first_of-none : (a b : Option Text) → first_of a b ≡ none → (a ≡ none) × (b ≡ none)
first_of-none a b h = ground arith

agent_refusal-Capable : (req : Request) → agent_refusal req ≡ none → Capable req
unfolding agent_refusal
agent_refusal-Capable req h =
    let need = scope_for_action req.action in
    let (scope_ok, rest) = first_of-none (scope_refusal req.scopes need) _ h in
    let (drive_ok, path_ok) =
      first_of-none (drive_refusal req.allowed_drive_ids req.drive_id) (path_refusal req) rest in
    let (w, r) = path_granted req path_ok in
    record {
      scope = scope_granted req.scopes need scope_ok;
      drive = drive_granted req.allowed_drive_ids req.drive_id drive_ok;
      write = w;
      read = r;
    }

allows_none :
    (person : Bool) (o : Option Text) (b : Bool)
    → person ≡ false
    → ((if person then true else elim o [ none ↦ true | some why ↦ false ]) && b) ≡ true
    → o ≡ none
allows_none person o b agent h = ground arith

-- Whatever the other layers say, an agent's request is allowed only when the built-in checks find it
-- within what the agent was given. The scope of the action is held or implied, or the action needs none.
-- The drive is in the agent's list, unless the request names none or the list is empty. For an action
-- that writes or reads a path, the list of prefixes for it holds one that stands in the trimmed path at
-- its start, at its end or behind a slash, or holds `*`, unless the request names no path or the list is
-- empty.
pub evaluate-Capable :
    (e : Engine) (req : Request)
    → (evaluate e req).allow ≡ true
    → is_empty req.agent_id ≡ false
    → Capable req
evaluate-Capable e req h agent = agent_refusal-Capable req (
    allows_none (is_empty req.agent_id) (agent_refusal req) _ agent
      (sym (evaluate-allow e req) ∙ h))
