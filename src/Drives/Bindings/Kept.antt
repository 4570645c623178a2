-- ===== src/Drives/Bindings/Kept.antt =====
-- About the quota of bindings in internal/drive/binding.go.
use ai_cloudhub.Common.{
  ℕ, suc, ◌≤◌, ◌≡◌, refl, subst, Bool, not, ◌&&◌, List, [], ◌∷◌, Option-cases, Bool-cases, inl, inr,
  arith, length, keep,
}
use ai_cloudhub.Text.{Text, codes, ◌==◌, is_empty}
use ai_cloudhub.Text.Laws.{==_iff}
use ai_cloudhub.Table.{find}
use ai_cloudhub.Table.Counts.{count, count-put, count-put_le}
use ai_cloudhub.Int.{ℤ}
use ai_cloudhub.Action.{ok, Result-cases, return, lift, reads, or_fail, ◌>>=◌}
use ai_cloudhub.Action.Keeps.{Keeps, keeps_rules}
use ai_cloudhub.Memory.{Binding, binding_key}
use ai_cloudhub.Memory.Agents.{get_drive}
use ai_cloudhub.Memory.Bindings as Store
use ai_cloudhub.Auth.{new_uuid, draw}
use ai_cloudhub.Drives.{Drives, mount_or_default, validate_mount_point}
use ai_cloudhub.Drives.Bindings.{
  BindingCreate, max_bindings, check_bindings, new_binding, create_binding, set_desired,
  report_actual,
}

abbrev bound_by : Text → Binding → Bool
bound_by u b = b.user_id == u

-- No user has more bindings than `most`.
abbrev pub BindingsLimited : ℕ → List Binding → Type 0
BindingsLimited most bs = (u : Text) → length (keep (λ b. b.user_id == u) bs) ≤ most

-- With no device named, every binding of the user is listed.
listed-count :
    (u : Text) (bs : List Binding)
    → length (
        keep
          (λ b. b.user_id == u && not (not (is_empty (codes "")) && not (b.device_id == codes "")))
          bs)
      ≡ count (bound_by u) bs
listed-count u [] = refl
listed-count u (b ∷ bs) = ground (arith, listed-count u bs)

room : (q : ℤ) (n : ℕ) → check_bindings q n ≡ ok tt → suc n ≤ max_bindings q
unfolding check_bindings
room q n checked = ground arith

module _ (most : ℕ) where
  update_binding-Keeps :
      (b : Binding) → Keeps (λ m. BindingsLimited most m.bindings) (Store.update_binding b)
  unfolding Store.update_binding
  update_binding-Keeps b = record {
    kept = λ m few. elim (Option-cases (find binding_key b.id m.bindings)) [
      | inl missing ↦ rw (Store.update_binding, missing) few
      | inr (cur, found) ↦ elim (Bool-cases (cur.user_id == b.user_id)) [
        | inr other ↦ rw (Store.update_binding, found, other) few
        | inl own ↦
            rw (Store.update_binding, found, own)
              λ u. ground (
                arith,
                few u,
                ==_iff cur.user_id b.user_id,
                count-put binding_key (bound_by u) b m.bindings {old = cur} found,
              )
      ]
    ];
  }

  pub set_desired-Keeps :
      (now : ℕ) (u id desired : Text)
      → Keeps (λ m. BindingsLimited most m.bindings) (set_desired now u id desired)
  unfolding set_desired
  set_desired-Keeps now u id desired = search (keeps_rules, update_binding-Keeps) depth 16

  pub report_actual-Keeps :
      (now : ℕ) (u id actual e : Text)
      → Keeps (λ m. BindingsLimited most m.bindings) (report_actual now u id actual e)
  unfolding report_actual
  report_actual-Keeps now u id actual e = search (keeps_rules, update_binding-Keeps) depth 16

pub create_binding-Keeps :
    (sv : Drives) (now : ℕ) (u : Text) (input : BindingCreate)
    → Keeps
        (λ m. BindingsLimited (max_bindings sv.binding_quota) m.bindings)
        (create_binding sv now u input)
unfolding new_binding create_binding ◌>>=◌ lift reads return or_fail new_uuid draw
    Store.create_binding Store.list_bindings
create_binding-Keeps sv now u input = record {
  kept = λ m few.
      let mount = mount_or_default sv input.mount_point in
      let taken = length (Store.list_bindings u (codes "") m) in
      elim (Result-cases (get_drive u input.drive_id m)) [
        | inr (e, missing) ↦ rw (create_binding, missing) few
        | inl (d, here) ↦ elim (Result-cases (check_bindings sv.binding_quota taken)) [
          | inr (e, full) ↦ rw (create_binding, here, full) few
          | inl (t, checked) ↦ elim (Result-cases (validate_mount_point mount)) [
            | inr (e, bad) ↦ rw (create_binding, here, checked, bad) few
            | inl (t', mounted) ↦
                let b = new_binding sv now u input (sv.auth.uuid m.drawn) in
                let fits : suc (count (bound_by u) m.bindings) ≤ max_bindings sv.binding_quota =
                  omega (arith, room sv.binding_quota taken checked, listed-count u m.bindings) in
                rw (create_binding, here, checked, mounted)
                  λ v. elim (Bool-cases (u == v)) [
                    | inl mine ↦
                        let fits' : suc (count (bound_by v) m.bindings)
                            ≤ max_bindings sv.binding_quota =
                          subst
                            (λ x.
                              suc (count (bound_by x) m.bindings) ≤ max_bindings sv.binding_quota)
                            ((==_iff u v).0 mine) fits in
                        ground (arith, fits', count-put_le binding_key (bound_by v) b m.bindings)
                    | inr other ↦
                        ground (arith, few v, count-put_le binding_key (bound_by v) b m.bindings)
                  ]
          ]
        ]
      ];
}
