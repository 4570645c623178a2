-- ===== src/Agents/Access.antt =====
-- internal/agent/service.go: the access checks of agents.
use ai_cloudhub.Common.{◌||◌, List, none, some, if◌then◌else◌}
use ai_cloudhub.Text.{Text, codes, ◌==◌, is_empty}
use ai_cloudhub.Policy.{Request, drive_refusal}
use ai_cloudhub.Policy.Engine.{Engine, evaluate}
use ai_cloudhub.Action.{Result, ok, err}
use ai_cloudhub.Memory.{Memory, Agent}
use ai_cloudhub.Memory.Agents.{get_agent_by_id}
use ai_cloudhub.Agents.{disabled}
use ai_cloudhub.Agents.Tightened.{is_none}

-- `if len(req.X) == 0 { req.X = a.X }`
abbrev pub or_own : List Text → List Text → List Text
or_own asked own = if is_none asked then own else asked

unfoldable pub with_lists : Agent → Request → Request
with_lists a req = record req {
  allowed_drive_ids = or_own req.allowed_drive_ids a.allowed_drive_ids;
  read_prefixes = or_own req.read_prefixes a.read_prefixes;
  write_prefixes = or_own req.write_prefixes a.write_prefixes;
}

unfoldable pub decide : Engine → Request → Result {0} Unit
unfolding evaluate
decide e req = let d = evaluate e req in if d.allow then ok tt else err d.reason

unfoldable pub check_access : Engine → Request → Memory → Result {0} Unit
unfolding get_agent_by_id with_lists decide
check_access e req m =
    if is_empty req.agent_id then decide e req else elim (get_agent_by_id req.agent_id m) [
      | err x ↦ err (codes "agent not found")
      | ok a ↦
          if a.status == disabled then err (codes "agent disabled") else decide e (with_lists a req)
    ]

unfoldable pub check_drive_access : Text → Text → Memory → Result {0} Unit
unfolding get_agent_by_id drive_refusal
check_drive_access agent_id drive_id m =
    if is_empty agent_id || is_empty drive_id then ok tt else elim (get_agent_by_id agent_id m) [
      | err x ↦ err (codes "agent not found")
      | ok a ↦
          if a.status == disabled
          then err (codes "agent disabled")
          else elim (drive_refusal a.allowed_drive_ids drive_id) [
            | none ↦ ok tt
            | some why ↦ err why
          ]
    ]
