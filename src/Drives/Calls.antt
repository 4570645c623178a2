-- ===== src/Drives/Calls.antt =====
-- The calls of internal/drive/service.go and internal/drive/binding.go: a list of calls is one
-- interleaving of the clients', each call as one step.
use ai_cloudhub.Common.{ℕ, List, [], ◌∷◌}
use ai_cloudhub.Text.{Text}
use ai_cloudhub.Memory.{Memory}
use ai_cloudhub.Drives.{Drives, CreateInput, UpdateInput, create, update, delete}
use ai_cloudhub.Drives.Bindings.{BindingCreate, create_binding, set_desired, report_actual}

pub data DriveCall : Type 0 where
  creates : (now : ℕ) (user_id : Text) → CreateInput → DriveCall
  updates : (user_id id : Text) → UpdateInput → DriveCall
  deletes : (user_id id : Text) → DriveCall
  creates_binding : (now : ℕ) (user_id : Text) → BindingCreate → DriveCall
  sets_desired : (now : ℕ) (user_id id desired : Text) → DriveCall
  reports_actual : (now : ℕ) (user_id id actual last_error : Text) → DriveCall

module _ (sv : Drives) where
  unfoldable pub perform : DriveCall → Memory → Memory
  perform (creates now user_id input) m = (create sv now user_id input m).1
  perform (updates user_id id input) m = (update user_id id input m).1
  perform (deletes user_id id) m = (delete user_id id m).1
  perform (creates_binding now user_id input) m = (create_binding sv now user_id input m).1
  perform (sets_desired now user_id id desired) m = (set_desired now user_id id desired m).1
  perform (reports_actual now user_id id actual last_error) m =
      (report_actual now user_id id actual last_error m).1

  unfoldable pub perform_all : List DriveCall → Memory → Memory
  unfolding perform
  perform_all [] m = m
  perform_all (c ∷ cs) m = perform_all cs (perform c m)
