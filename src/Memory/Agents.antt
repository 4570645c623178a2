-- ===== src/Memory/Agents.antt =====
-- internal/store/memory.go: agents and drives. A row of another owner is not there.
use ai_cloudhub.Common.{ℕ, suc, ◌&&◌, List, [], ◌∷◌, Option, none, some, if◌then◌else◌, keep}
use ai_cloudhub.Text.{Text, codes, ◌==◌, is_empty}
use ai_cloudhub.Table.{find, put, remove}
use ai_cloudhub.Action.{Result, ok, err, Action}
use ai_cloudhub.Memory.{Memory, Agent, Drive, agent_key, drive_key}

unfoldable pub create_agent : Agent → Action Memory Unit
unfolding put
create_agent a m = (ok tt, record m { agents = put agent_key a m.agents })

unfoldable pub get_agent : Text → Text → Memory → Result Agent
unfolding find
get_agent owner id m = elim (find agent_key id m.agents) [
  | none ↦ err (codes "agent not found")
  | some a ↦ if a.owner_user_id == owner then ok a else err (codes "agent not found")
]

unfoldable pub get_agent_by_id : Text → Memory → Result Agent
unfolding find
get_agent_by_id id m = elim (find agent_key id m.agents) [
  | none ↦ err (codes "agent not found")
  | some a ↦ ok a
]

unfoldable pub list_agents : Text → Memory → List Agent
list_agents owner m = keep (λ a. a.owner_user_id == owner) m.agents

unfoldable pub update_agent : Agent → Action Memory Unit
unfolding find put
update_agent a m = elim (find agent_key a.id m.agents) [
  | none ↦ (err (codes "agent not found"), m)
  | some cur ↦
      if cur.owner_user_id == a.owner_user_id
      then (ok tt, record m { agents = put agent_key a m.agents })
      else (err (codes "agent not found"), m)
]

unfoldable pub delete_agent : Text → Text → Action Memory Unit
unfolding find remove
delete_agent owner id m = elim (find agent_key id m.agents) [
  | none ↦ (err (codes "agent not found"), m)
  | some a ↦
      if a.owner_user_id == owner
      then (ok tt, record m { agents = remove agent_key id m.agents })
      else (err (codes "agent not found"), m)
]

unfoldable pub bump_agent_token_version : Text → Action Memory ℕ
unfolding find put
bump_agent_token_version id m = elim (find agent_key id m.agents) [
  | none ↦ (err (codes "agent not found"), m)
  | some a ↦ (
    ok (suc a.token_version),
    record m { agents = put agent_key (record a { token_version = suc a.token_version }) m.agents },
  )
]

unfoldable pub create_drive : Drive → Action Memory Unit
unfolding put
create_drive d m = (ok tt, record m { drives = put drive_key d m.drives })

unfoldable pub get_drive : Text → Text → Memory → Result Drive
unfolding find
get_drive user_id id m = elim (find drive_key id m.drives) [
  | none ↦ err (codes "drive not found")
  | some d ↦ if d.user_id == user_id then ok d else err (codes "drive not found")
]

unfoldable pub find_alias : Text → Text → List Drive → Option Drive
find_alias user_id alias [] = none
find_alias user_id alias (d ∷ ds) =
    if d.user_id == user_id && d.alias == alias then some d else find_alias user_id alias ds

unfoldable pub get_drive_by_alias : Text → Text → Memory → Result Drive
unfolding find_alias
get_drive_by_alias user_id alias m =
    if is_empty alias
    then err (codes "drive not found")
    else elim (find_alias user_id alias m.drives) [
      | none ↦ err (codes "drive not found")
      | some d ↦ ok d
    ]

unfoldable pub list_drives : Text → Memory → List Drive
list_drives user_id m = keep (λ d. d.user_id == user_id) m.drives

-- The provider, the bucket and the time of creation stay.
unfoldable pub update_drive : Drive → Action Memory Unit
unfolding find put
update_drive d m = elim (find drive_key d.id m.drives) [
  | none ↦ (err (codes "drive not found"), m)
  | some cur ↦
      if cur.user_id == d.user_id
      then (
        ok tt,
        record m {
          drives =
              put drive_key
                (record d {
                  provider_id = cur.provider_id;
                  bucket = cur.bucket;
                  created_at = cur.created_at;
                })
                m.drives;
        },
      )
      else (err (codes "drive not found"), m)
]

unfoldable pub delete_drive : Text → Text → Action Memory Unit
unfolding find remove
delete_drive user_id id m = elim (find drive_key id m.drives) [
  | none ↦ (err (codes "drive not found"), m)
  | some d ↦
      if d.user_id == user_id
      then (ok tt, record m { drives = remove drive_key id m.drives })
      else (err (codes "drive not found"), m)
]
