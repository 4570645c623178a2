-- ===== src/Memory/Audit.antt =====
-- internal/store/memory.go: the audit log, of which the last 1000 events stay.
use ai_cloudhub.Common.{
  ℕ, ◌-◌, Bool, not, ◌&&◌, ◌||◌, List, [], ◌∷◌, ◌++◌, ltb, leb, if◌then◌else◌, keep, take, drop,
  length, reverse,
}
use ai_cloudhub.Text.{◌==◌, is_empty}
use ai_cloudhub.Action.{ok, Action}
use ai_cloudhub.Memory.{Memory, AuditEvent, AuditFilter}

unfoldable pub append_audit : AuditEvent → Action Memory Unit
append_audit e m =
    let rows = m.audits ++ (e ∷ []) in
    (
      ok tt,
      record m { audits = if ltb 1000 (length rows) then drop (length rows - 1000) rows else rows },
    )

audit_limit : ℕ → ℕ
audit_limit n = if leb n 0 || ltb 500 n then 100 else n

audit_matches : AuditFilter → AuditEvent → Bool
audit_matches f e =
    not (not (is_empty f.user_id) && not (e.user_id == f.user_id))
    && not (not (is_empty f.agent_id) && not (e.agent_id == f.agent_id))
    && not (not (is_empty f.action) && not (e.action == f.action))

-- The newest first.
unfoldable pub list_audit : AuditFilter → Memory → List AuditEvent
unfolding audit_limit audit_matches
list_audit f m = take (audit_limit f.limit) (keep (audit_matches f) (reverse m.audits))
