-- ===== src/Memory/Bindings.antt =====
-- internal/store/memory.go: bindings, the drives that are mounted on a device.
use ai_cloudhub.Common.{not, ◌&&◌, List, none, some, if◌then◌else◌, keep}
use ai_cloudhub.Text.{Text, codes, ◌==◌, is_empty}
use ai_cloudhub.Table.{find, put}
use ai_cloudhub.Action.{Result, ok, err, Action}
use ai_cloudhub.Memory.{Memory, Binding, binding_key}

unfoldable pub create_binding : Binding → Action Memory Unit
unfolding put
create_binding b m = (ok tt, record m { bindings = put binding_key b m.bindings })

unfoldable pub get_binding : Text → Text → Memory → Result Binding
unfolding find
get_binding user_id id m = elim (find binding_key id m.bindings) [
  | none ↦ err (codes "binding not found")
  | some b ↦ if b.user_id == user_id then ok b else err (codes "binding not found")
]

-- Of one device, or of every device where none is named.
unfoldable pub list_bindings : Text → Text → Memory → List Binding
list_bindings user_id device_id m =
    keep
      (λ b.
        b.user_id == user_id && not (not (is_empty device_id) && not (b.device_id == device_id)))
      m.bindings

unfoldable pub update_binding : Binding → Action Memory Unit
unfolding find put
update_binding b m = elim (find binding_key b.id m.bindings) [
  | none ↦ (err (codes "binding not found"), m)
  | some cur ↦
      if cur.user_id == b.user_id
      then (ok tt, record m { bindings = put binding_key b m.bindings })
      else (err (codes "binding not found"), m)
]
