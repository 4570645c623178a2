-- ===== src/Agents.antt =====
-- internal/agent/service.go: agents, which act for a user within scopes, drives and path prefixes.
-- A list that may be left out of a request is an Option.
use ai_cloudhub.Common.{
  ℕ, suc, Bool, true, false, not, ◌&&◌, ◌||◌, List, [], ◌∷◌, ◌++◌, Option, none, some, ltb, length,
  if◌then◌else◌,
}
use ai_cloudhub.Text.{Text, codes, ◌==◌, is_empty, trim_space}
use ai_cloudhub.Policy.Rules.{trim_slashes}
use ai_cloudhub.Action.{
  Result, ok, err, Action, on_ok, return, fail, lift, reads, or_fail, ◌>>=◌, ◌>>◌,
}
use ai_cloudhub.Memory.{Memory, Agent}
use ai_cloudhub.Memory.Agents.{create_agent, get_agent, update_agent, delete_agent, get_drive}
use ai_cloudhub.Auth.{Service, new_uuid}
use ai_cloudhub.Auth.Scopes.{normalise_from, normalize_scopes, all_known}
use ai_cloudhub.Agents.Tightened.{is_none, scopes_tightened, drives_tightened, prefixes_tightened}
pub mod Tightened
pub mod Written
pub mod Update
pub mod Access
pub mod Capable

abbrev pub active : Text
active = codes "active"

abbrev pub disabled : Text
disabled = codes "disabled"

pub record CreateInput : Type 0 where
  pub name : Text
  pub description : Text
  pub default_scopes : List Text
  pub allowed_drive_ids : List Text
  pub read_prefixes : List Text
  pub write_prefixes : List Text

pub record UpdateInput : Type 0 where
  pub name : Option Text
  pub description : Option Text
  pub status : Option Text
  pub default_scopes : Option (List Text)
  pub allowed_drive_ids : Option (List Text)
  pub read_prefixes : Option (List Text)
  pub write_prefixes : Option (List Text)
  pub set_drives : Bool

unfoldable pub normalize_ids : List Text → List Text
unfolding normalise_from
normalize_ids ids = normalise_from trim_space [] ids

unfoldable pub normalize_prefixes : List Text → List Text
unfolding normalise_from trim_slashes
normalize_prefixes ps = normalise_from trim_slashes [] ps

-- Every drive is the owner's.
unfoldable pub validate_drives : Text → List Text → Memory → Result {0} Unit
unfolding get_drive
validate_drives owner [] m = ok tt
validate_drives owner (id ∷ ids) m =
    let rest = validate_drives owner ids m in
    elim (get_drive owner id m) [
      | ok d ↦ rest
      | err e ↦ err (codes "drive " ++ id ++ codes " not found or not owned")
    ]

-- `if len(scopes) == 0 { scopes = ... }`
abbrev or_default_scopes : List Text → List Text
or_default_scopes ss = if is_none ss then codes "drive.read" ∷ codes "drive.write" ∷ [] else ss

unfoldable pub create : Service → ℕ → Text → CreateInput → Action Memory Agent
unfolding normalize_scopes normalize_ids normalize_prefixes validate_drives all_known new_uuid
create sv now owner input =
    let name = trim_space input.name in
    let scopes = or_default_scopes (normalize_scopes input.default_scopes) in
    let drives = normalize_ids input.allowed_drive_ids in
    if is_empty name
    then fail (codes "name required")
    else if ltb 64 (length name)
    then fail (codes "name too long")
    else (do
      lift (all_known sv.quote scopes)
      reads (validate_drives owner drives)
      id ← new_uuid sv
      let a : Agent = record {
        id = id;
        owner_user_id = owner;
        name = name;
        description = trim_space input.description;
        status = active;
        default_scopes = scopes;
        allowed_drive_ids = drives;
        read_prefixes = normalize_prefixes input.read_prefixes;
        write_prefixes = normalize_prefixes input.write_prefixes;
        token_version = 0;
        created_at = now;
      }
      create_agent a
      return a)

-- The fields that a request may set, with the check of each.
unfoldable pub set_name : Option Text → Agent → Result Agent
set_name none a = ok a
set_name (some n) a =
    if is_empty (trim_space n)
    then err (codes "name required")
    else ok (record a { name = trim_space n })

unfoldable pub set_status : Option Text → Agent → Result Agent
set_status none a = ok a
set_status (some s) a =
    let st = trim_space s in
    if not (st == active) && not (st == disabled)
    then err (codes "status must be active|disabled")
    else ok (record a { status = st })

unfoldable pub set_scopes : (Text → Text) → Option (List Text) → Agent → Result Agent
unfolding normalize_scopes all_known
set_scopes quote none a = ok a
set_scopes quote (some ss) a = elim (all_known quote (normalize_scopes ss)) [
  | err e ↦ err e
  | ok t ↦ ok (record a { default_scopes = normalize_scopes ss })
]

abbrev listed : Option (List Text) → List Text
listed none = []
listed (some xs) = xs

abbrev is_set : Option (List Text) → Bool
is_set none = false
is_set (some xs) = true

unfoldable pub set_drive_ids : Text → UpdateInput → Agent → Memory → Result Agent
unfolding normalize_ids validate_drives
set_drive_ids owner input a m =
    let drives = normalize_ids (listed input.allowed_drive_ids) in
    if input.set_drives || is_set input.allowed_drive_ids
    then elim (validate_drives owner drives m) [
      | err e ↦ err e
      | ok t ↦ ok (record a { allowed_drive_ids = drives })
    ]
    else ok a

abbrev pub prefixes_or : List Text → Option (List Text) → List Text
prefixes_or old none = old
prefixes_or old (some ps) = normalize_prefixes ps

abbrev pub description_or : Text → Option Text → Text
description_or old none = old
description_or old (some d) = trim_space d

-- Disabling an agent, or taking a scope, a drive or a prefix from it, ends its tokens.
unfoldable pub revokes : Agent → Agent → Bool
unfolding scopes_tightened drives_tightened prefixes_tightened
revokes old new =
    (new.status == disabled && not (old.status == disabled))
    || scopes_tightened old.default_scopes new.default_scopes
    || drives_tightened old.allowed_drive_ids new.allowed_drive_ids
    || prefixes_tightened old.read_prefixes new.read_prefixes
    || prefixes_tightened old.write_prefixes new.write_prefixes

unfoldable pub bumped : Agent → Agent → Agent
unfolding revokes
bumped old new =
    if revokes old new then record new { token_version = suc new.token_version } else new

-- The row as the request changes it.
unfoldable pub requested : (Text → Text) → Text → UpdateInput → Agent → Memory → Result Agent
unfolding set_name set_status set_scopes set_drive_ids
requested quote owner input old m = on_ok (set_name input.name old) λ a.
    on_ok
      (set_status input.status
        (record a { description = description_or a.description input.description }))
      λ b. on_ok (set_scopes quote input.default_scopes b) λ c.
        on_ok (set_drive_ids owner input c m) λ d. ok (record d {
          read_prefixes = prefixes_or d.read_prefixes input.read_prefixes;
          write_prefixes = prefixes_or d.write_prefixes input.write_prefixes;
        })

unfoldable pub update : Service → Text → Text → UpdateInput → Action Memory Agent
unfolding get_agent requested bumped update_agent
update sv owner id input = do
  old ← or_fail (codes "agent not found") (reads (get_agent owner id))
  d ← reads (requested sv.quote owner input old)
  update_agent (bumped old d)
  return (bumped old d)

unfoldable pub delete : Text → Text → Action Memory Unit
unfolding delete_agent
delete owner id = or_fail (codes "agent not found") (delete_agent owner id)
