-- ===== src/Drives/Bindings.antt =====
-- internal/drive/binding.go: bindings, the drives that a user wants mounted on a device, under a quota.
use ai_cloudhub.Common.{ℕ, List, [], ◌++◌, length, leb, if◌then◌else◌}
use ai_cloudhub.Text.{Text, codes, ◌==◌, is_empty, trim_space, itoa}
use ai_cloudhub.Int.{ℤ}
use ai_cloudhub.Action.{Result, ok, err, Action, return, lift, reads, or_fail, ◌>>=◌, ◌>>◌}
use ai_cloudhub.Memory.{Memory, Binding}
use ai_cloudhub.Memory.Agents.{get_drive}
use ai_cloudhub.Memory.Bindings as Store
use ai_cloudhub.Auth.{new_uuid, ttl_or}
use ai_cloudhub.Drives.{Drives, mount_or_default, validate_mount_point}
pub mod Kept

pub record BindingCreate : Type 0 where
  pub drive_id : Text
  pub device_id : Text
  pub mount_point : Text
  pub mode : Text
  pub desired : Text

-- 10 bindings, where no positive number is given.
unfoldable pub max_bindings : ℤ → ℕ
unfolding ttl_or
max_bindings q = ttl_or 10 q

unfoldable pub check_bindings : ℤ → ℕ → Result {0} Unit
unfolding max_bindings
check_bindings q current =
    if leb (max_bindings q) current
    then err (
        codes "binding quota exceeded: max "
        ++ itoa (max_bindings q)
        ++ codes " concurrent bindings per user")
    else ok tt

abbrev or_text : Text → Text → Text
or_text d s = if is_empty s then d else s

unfoldable pub new_binding : Drives → ℕ → Text → BindingCreate → Text → Binding
unfolding mount_or_default
new_binding sv now user_id input id = record {
  id = id;
  user_id = user_id;
  drive_id = input.drive_id;
  device_id = or_text (codes "default") (trim_space input.device_id);
  mount_point = mount_or_default sv input.mount_point;
  mode = or_text (codes "mount") input.mode;
  desired = if input.desired == codes "unmounted" then codes "unmounted" else codes "mounted";
  actual = codes "unknown";
  last_error = [];
  updated_at = now;
  created_at = now;
}

unfoldable pub create_binding : Drives → ℕ → Text → BindingCreate → Action Memory Binding
unfolding get_drive Store.list_bindings check_bindings validate_mount_point mount_or_default
    new_uuid new_binding Store.create_binding
create_binding sv now user_id input = do
  or_fail (codes "drive not found") (reads (get_drive user_id input.drive_id))
  reads (λ m. check_bindings sv.binding_quota (length (Store.list_bindings user_id (codes "") m)))
  lift (validate_mount_point (mount_or_default sv input.mount_point))
  id ← new_uuid sv.auth
  Store.create_binding (new_binding sv now user_id input id)
  return (new_binding sv now user_id input id)

unfoldable pub set_desired : ℕ → Text → Text → Text → Action Memory Binding
unfolding Store.get_binding Store.update_binding
set_desired now user_id id desired = do
  b ← or_fail (codes "binding not found") (reads (Store.get_binding user_id id))
  let changed : Binding = record b { desired = desired; updated_at = now }
  Store.update_binding changed
  return changed

unfoldable pub report_actual : ℕ → Text → Text → Text → Text → Action Memory Binding
unfolding Store.get_binding Store.update_binding
report_actual now user_id id actual last_error = do
  b ← or_fail (codes "binding not found") (reads (Store.get_binding user_id id))
  let changed : Binding = record b { actual = actual; last_error = last_error; updated_at = now }
  Store.update_binding changed
  return changed
