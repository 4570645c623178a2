-- ===== src/Policy.antt =====
-- internal/policy/engine.go and internal/policy/file.go: the policy engine. An agent's request passes
-- the built-in checks, then the rules of the policy file, then OPA and the remote decision point,
-- which are parameters; a person's request skips the built-in checks. The document is the one that
-- is loaded when Evaluate reads it.
use ai_cloudhub.Common.{
  ℕ, Bool, true, false, not, ◌&&◌, ◌||◌, List, [], ◌∷◌, ◌++◌, Option, none, some, if◌then◌else◌,
}
use ai_cloudhub.Text.{
  Text, codes, ◌==◌, is_empty, trim_space, trim_prefix, has_prefix, has_suffix, contains_text,
}
pub mod Rules
pub mod Grants
pub mod Engine

pub record Request : Type 0 where
  pub agent_id : Text
  pub allowed_drive_ids : List Text
  pub read_prefixes : List Text
  pub write_prefixes : List Text
  pub scopes : List Text
  pub action : Text
  pub drive_id : Text
  pub path : Text

pub record Decision : Type 0 where
  pub allow : Bool
  pub reason : Text

abbrev pub denied : Text → Decision
denied why = record { allow = false; reason = why }

abbrev pub allowed : Text → Decision
allowed why = record { allow = true; reason = why }

unfoldable pub contains : List Text → Text → Bool
contains [] x = false
contains (s ∷ ss) x = s == x || contains ss x

-- The scope that an action needs; empty where it needs none.
unfoldable pub scope_for_action : Text → Text
scope_for_action a =
    if a == codes "drive.read" || a == codes "drive.session" || a == codes "path.read"
    then codes "drive.read"
    else if a == codes "drive.write" || a == codes "path.write"
    then codes "drive.write"
    else if a == codes "job.run"
    then codes "job.run"
    else if a == codes "provider.read"
    then codes "provider.read"
    else if a == codes "provider.write"
    then codes "provider.write"
    else codes ""

-- A scope is held, or implied: writing implies reading, for drives and for providers.
unfoldable pub has_scope : List Text → Text → Bool
unfolding contains
has_scope scopes need =
    contains scopes need
    || (need == codes "drive.read" && contains scopes (codes "drive.write"))
    || (need == codes "provider.read" && contains scopes (codes "provider.write"))

-- A prefix as prefixOK compares it.
unfoldable pub bare : Text → Text
bare s = trim_prefix (trim_space s) (codes "/")

unfoldable pub prefix_hit : Text → Text → Bool
prefix_hit path pref =
    let p = trim_prefix path (codes "/") in
    is_empty pref
    || pref == codes "*"
    || p == pref
    || has_prefix p (pref ++ codes "/")
    || has_prefix path pref
    || contains_text path (codes "/" ++ pref)
    || has_suffix path pref

unfoldable pub any_prefix_hit : Text → List Text → Bool
unfolding prefix_hit bare
any_prefix_hit path [] = false
any_prefix_hit path (pref ∷ prefs) = prefix_hit path (bare pref) || any_prefix_hit path prefs

unfoldable pub prefix_ok : Text → List Text → Bool
unfolding any_prefix_hit
prefix_ok path prefixes = any_prefix_hit (trim_space path) prefixes

abbrev no_list : List Text → Bool
no_list [] = true
no_list (x ∷ xs) = false

abbrev pub writes_path : Text → Bool
writes_path a = a == codes "path.write" || a == codes "drive.write"

abbrev pub reads_path : Text → Bool
reads_path a = a == codes "path.read" || a == codes "drive.read" || a == codes "drive.session"

-- The capability checks of an agent, each with the reason of its refusal.
unfoldable pub scope_refusal : List Text → Text → Option Text
unfolding has_scope
scope_refusal scopes need =
    if not (is_empty need) && not (has_scope scopes need)
    then some (codes "missing scope: " ++ need)
    else none

unfoldable pub drive_refusal : List Text → Text → Option Text
unfolding contains
drive_refusal ids drive =
    if not (is_empty drive) && not (no_list ids) && not (contains ids drive)
    then some (codes "drive not allowed for agent")
    else none

unfoldable pub prefix_refusal : Text → List Text → Text → Option Text
unfolding prefix_ok
prefix_refusal path prefixes why =
    if not (no_list prefixes) && not (prefix_ok path prefixes) then some why else none

unfoldable pub path_refusal : Request → Option Text
unfolding prefix_refusal
path_refusal req =
    if is_empty req.path
    then none
    else if writes_path req.action
    then prefix_refusal req.path req.write_prefixes (codes "path not in write_prefixes")
    else if reads_path req.action
    then prefix_refusal req.path req.read_prefixes (codes "path not in read_prefixes")
    else none

abbrev pub first_of : Option Text → Option Text → Option Text
first_of (some a) b = some a
first_of none b = b

unfoldable pub agent_refusal : Request → Option Text
unfolding scope_for_action scope_refusal drive_refusal path_refusal
agent_refusal req =
    first_of (scope_refusal req.scopes (scope_for_action req.action))
      (first_of (drive_refusal req.allowed_drive_ids req.drive_id) (path_refusal req))
