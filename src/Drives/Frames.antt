-- ===== src/Drives/Frames.antt =====
-- About the writes of internal/drive/service.go and internal/drive/binding.go: drives are one map of the
-- store, bindings another.
use ai_cloudhub.Common.{ℕ, List, refl, arith}
use ai_cloudhub.Text.{Text}
use ai_cloudhub.Action.Keeps.{Keeps, keeps_rules}
use ai_cloudhub.Memory.{Memory, Drive, Binding}
use ai_cloudhub.Memory.Agents.{create_drive, update_drive, delete_drive}
use ai_cloudhub.Memory.Bindings as Store
use ai_cloudhub.Auth.{Service, new_uuid, draw}
use ai_cloudhub.Auth.Calls.Frames.{Keeps-frame}
use ai_cloudhub.Drives.{Drives, CreateInput, UpdateInput, create, update, delete}
use ai_cloudhub.Drives.Bindings.{BindingCreate, create_binding, set_desired, report_actual}

abbrev on_drives : Memory → List Drive
on_drives m = m.drives

abbrev on_bindings : Memory → List Binding
on_bindings m = m.bindings

module _ (Q : List Binding → Type 0) where
  new_uuid-Keeps : (sv : Service) → Keeps (λ m. Q m.bindings) (new_uuid sv)
  unfolding new_uuid draw
  new_uuid-Keeps sv = Keeps-frame on_bindings Q (new_uuid sv) λ s. refl

  create_drive-Keeps : (d : Drive) → Keeps (λ m. Q m.bindings) (create_drive d)
  unfolding create_drive
  create_drive-Keeps d = Keeps-frame on_bindings Q (create_drive d) λ s. refl

  update_drive-Keeps : (d : Drive) → Keeps (λ m. Q m.bindings) (update_drive d)
  unfolding update_drive
  update_drive-Keeps d = Keeps-frame on_bindings Q (update_drive d) λ s. ground arith

  delete_drive-Keeps : (u id : Text) → Keeps (λ m. Q m.bindings) (delete_drive u id)
  unfolding delete_drive
  delete_drive-Keeps u id = Keeps-frame on_bindings Q (delete_drive u id) λ s. ground arith

  pub create-Keeps_bindings :
      (sv : Drives) (now : ℕ) (u : Text) (input : CreateInput)
      → Keeps (λ m. Q m.bindings) (create sv now u input)
  unfolding create
  create-Keeps_bindings sv now u input =
      search (keeps_rules, new_uuid-Keeps, create_drive-Keeps) depth 24

  pub update-Keeps_bindings :
      (u id : Text) (input : UpdateInput) → Keeps (λ m. Q m.bindings) (update u id input)
  unfolding update
  update-Keeps_bindings u id input = search (keeps_rules, update_drive-Keeps) depth 24

  pub delete-Keeps_bindings : (u id : Text) → Keeps (λ m. Q m.bindings) (delete u id)
  unfolding delete
  delete-Keeps_bindings u id = search (keeps_rules, delete_drive-Keeps) depth 24

module _ (Q : List Drive → Type 0) where
  uuid-Keeps : (sv : Service) → Keeps (λ m. Q m.drives) (new_uuid sv)
  unfolding new_uuid draw
  uuid-Keeps sv = Keeps-frame on_drives Q (new_uuid sv) λ s. refl

  add-Keeps : (b : Binding) → Keeps (λ m. Q m.drives) (Store.create_binding b)
  unfolding Store.create_binding
  add-Keeps b = Keeps-frame on_drives Q (Store.create_binding b) λ s. refl

  write-Keeps : (b : Binding) → Keeps (λ m. Q m.drives) (Store.update_binding b)
  unfolding Store.update_binding
  write-Keeps b = Keeps-frame on_drives Q (Store.update_binding b) λ s. ground arith

  pub create_binding-Keeps_drives :
      (sv : Drives) (now : ℕ) (u : Text) (input : BindingCreate)
      → Keeps (λ m. Q m.drives) (create_binding sv now u input)
  unfolding create_binding
  create_binding-Keeps_drives sv now u input = search (keeps_rules, uuid-Keeps, add-Keeps) depth 24

  pub set_desired-Keeps_drives :
      (now : ℕ) (u id desired : Text) → Keeps (λ m. Q m.drives) (set_desired now u id desired)
  unfolding set_desired
  set_desired-Keeps_drives now u id desired = search (keeps_rules, write-Keeps) depth 24

  pub report_actual-Keeps_drives :
      (now : ℕ) (u id actual e : Text) → Keeps (λ m. Q m.drives) (report_actual now u id actual e)
  unfolding report_actual
  report_actual-Keeps_drives now u id actual e = search (keeps_rules, write-Keeps) depth 24
