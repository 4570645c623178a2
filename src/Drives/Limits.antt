-- ===== src/Drives/Limits.antt =====
-- About the quotas and the aliases of internal/drive/service.go and binding.go, whatever calls are made.
use ai_cloudhub.Common.{
  ℕ, suc, ◌≤◌, ◌≡◌, sym, subst, ap, ◌∙◌, &&-eq-true, refl, Bool, false, ◌&&◌, List, [], ◌∷◌,
  Option-cases, Bool-cases, inl, inr, arith, length, keep,
}
use ai_cloudhub.Text.{Text, ◌==◌, is_empty}
use ai_cloudhub.Text.Laws.{==_iff}
use ai_cloudhub.Table.{find, remove}
use ai_cloudhub.Int.{ℤ}
use ai_cloudhub.Action.{ok, or_fail}
use ai_cloudhub.Memory.{Memory, Drive, drive_key}
use ai_cloudhub.Memory.Agents.{get_drive_by_alias, find_alias, list_drives, delete_drive}
use ai_cloudhub.Drives.{Drives, max_drives, check_drives, free_alias, create, update, delete}
use ai_cloudhub.Drives.Calls.{
  DriveCall, creates, updates, deletes, creates_binding, sets_desired, reports_actual, perform,
  perform_all,
}
use ai_cloudhub.Drives.Bindings.{max_bindings}
use ai_cloudhub.Drives.Bindings.Kept.{
  BindingsLimited, create_binding-Keeps, set_desired-Keeps, report_actual-Keeps,
}
use ai_cloudhub.Drives.Frames.{
  create-Keeps_bindings, update-Keeps_bindings, delete-Keeps_bindings, create_binding-Keeps_drives,
  set_desired-Keeps_drives, report_actual-Keeps_drives,
}
use ai_cloudhub.Table.Counts.{count, count-put, count-put_le, count-remove_le}
use ai_cloudhub.Drives.Laws.{has_alias, free-count}
use ai_cloudhub.Drives.Writes.{Created, create-Created, Changed, update-Changed}

abbrev of_user : Text → Drive → Bool
of_user u d = d.user_id == u

-- No user has more drives than `most`, nor two drives under one alias.
abbrev pub Limited : ℕ → List Drive → Type 0
Limited most ds =
    ((u : Text) → length (keep (λ d. d.user_id == u) ds) ≤ most)
    × ((u a : Text)
        → is_empty a ≡ false
        → length (keep (λ d. d.user_id == u && d.alias == a) ds) ≤ 1)

free_alias-count :
    (u a : Text) (m : Memory)
    → is_empty a ≡ false
    → free_alias u a m ≡ ok tt
    → count (has_alias u a) m.drives ≡ 0
unfolding free_alias get_drive_by_alias
free_alias-count u a m given free = elim (Option-cases (find_alias u a m.drives)) [
  | inl none_yet ↦ free-count u a m.drives none_yet
  | inr (d, taken) ↦ ground arith
]

room : (q : ℤ) (n : ℕ) → check_drives q n ≡ ok tt → suc n ≤ max_drives q
unfolding check_drives
room q n checked = ground arith

-- The quotas of the service and the rule on aliases.
abbrev pub WithinLimits : Drives → Memory → Type 0
WithinLimits sv m =
    Limited (max_drives sv.quota) m.drives
    × BindingsLimited (max_bindings sv.binding_quota) m.bindings

module _ (sv : Drives) where
  Created-Limited :
      (user_id : Text) (m m1 : Memory)
      → Created sv user_id m m1
      → Limited (max_drives sv.quota) m.drives
      → Limited (max_drives sv.quota) m1.drives
  unfolding list_drives
  Created-Limited user_id m m1 (inl same) l = rw same l
  Created-Limited user_id m m1 (inr (d, wrote, own, checked, free)) (few, single) =
      let fits = room sv.quota _ checked in
      rw wrote (
        λ u. elim (Bool-cases (d.user_id == u)) [
          | inl mine ↦
              let same : user_id ≡ u = sym own ∙ (==_iff d.user_id u).0 mine in
              let fits' : suc (count (of_user u) m.drives) ≤ max_drives sv.quota =
                subst (λ v. suc (count (of_user v) m.drives) ≤ max_drives sv.quota) same fits in
              ground (arith, count-put_le drive_key (of_user u) d m.drives)
          | inr other ↦ ground (arith, few u, count-put_le drive_key (of_user u) d m.drives)
        ],
        λ u a given. elim (Bool-cases (has_alias u a d)) [
          | inl named ↦
              let (mine, this) = &&-eq-true (d.user_id == u) (d.alias == a) named in
              let same : user_id ≡ u = sym own ∙ (==_iff d.user_id u).0 mine in
              let free' : free_alias u a m ≡ ok tt =
                subst (λ v. free_alias v a m ≡ ok tt) same
                  (subst (λ b. free_alias user_id b m ≡ ok tt) ((==_iff d.alias a).0 this) free) in
              ground (
                arith,
                free_alias-count u a m given free',
                count-put_le drive_key (has_alias u a) d m.drives,
              )
          | inr other ↦
              ground (arith, single u a given, count-put_le drive_key (has_alias u a) d m.drives)
        ],
      )

  Changed-Limited :
      (most : ℕ) (user_id : Text) (m m1 : Memory)
      → Changed user_id m m1
      → Limited most m.drives
      → Limited most m1.drives
  Changed-Limited most user_id m m1 (inl same) l = rw same l
  Changed-Limited most user_id m m1 (inr (old, d, found, wrote, own, kept)) (few, single) =
      let (same_id, same_user, alias) = kept in
      rw wrote (
        λ u.
            let same : of_user u d ≡ of_user u old = ap (λ v. v == u) same_user in
            ground (arith, few u, count-put drive_key (of_user u) d m.drives {old = old} found),
        λ u a given. elim (Bool-cases (has_alias u a d)) [
          | inl named ↦
              let (mine, this) = &&-eq-true (d.user_id == u) (d.alias == a) named in
              elim alias [
                | inl stays ↦
                    let same : has_alias u a d ≡ has_alias u a old = rw (same_user, stays) refl in
                    ground (
                      arith,
                      single u a given,
                      count-put drive_key (has_alias u a) d m.drives {old = old} found,
                    )
                | inr free ↦
                    let its : old.user_id ≡ u = sym same_user ∙ (==_iff d.user_id u).0 mine in
                    let free' : free_alias u a m ≡ ok tt =
                      subst (λ v. free_alias v a m ≡ ok tt) its
                        (subst (λ b. free_alias old.user_id b m ≡ ok tt) ((==_iff d.alias a).0 this)
                          free) in
                    ground (
                      arith,
                      free_alias-count u a m given free',
                      count-put_le drive_key (has_alias u a) d m.drives,
                    )
              ]
          | inr other ↦
              ground (arith, single u a given, count-put_le drive_key (has_alias u a) d m.drives)
        ],
      )

  delete-Limited :
      (most : ℕ) (user_id id : Text) (m : Memory)
      → Limited most m.drives
      → Limited most (delete user_id id m).1.drives
  unfolding delete or_fail delete_drive
  delete-Limited most user_id id m (few, single) =
      let gone = remove drive_key id m.drives in
      elim (Option-cases (find drive_key id m.drives)) [
        | inl missing ↦ rw (delete_drive, missing) (few, single)
        | inr (d, found) ↦ elim (Bool-cases (d.user_id == user_id)) [
          | inr other ↦ rw (delete_drive, found, other) (few, single)
          | inl own ↦
              rw (delete_drive, found, own)
                (
                  λ u. omega (arith, few u, count-remove_le drive_key (of_user u) id m.drives),
                  λ u a given. omega (
                    arith,
                    single u a given,
                    count-remove_le drive_key (has_alias u a) id m.drives,
                  ),
                )
        ]
      ]

  perform-WithinLimits :
      (c : DriveCall) (m : Memory)
      → Limited (max_drives sv.quota) m.drives
      → BindingsLimited (max_bindings sv.binding_quota) m.bindings
      → WithinLimits sv (perform sv c m)
  unfolding perform
  perform-WithinLimits (creates now u input) m l b = (
    Created-Limited u m (create sv now u input m).1 (create-Created sv now u input m) l,
    (create-Keeps_bindings (BindingsLimited (max_bindings sv.binding_quota)) sv now u input).kept m
        b,
  )
  perform-WithinLimits (updates u id input) m l b = (
    Changed-Limited (max_drives sv.quota) u m (update u id input m).1 (update-Changed u id input m)
        l,
    (update-Keeps_bindings (BindingsLimited (max_bindings sv.binding_quota)) u id input).kept m b,
  )
  perform-WithinLimits (deletes u id) m l b = (
    delete-Limited (max_drives sv.quota) u id m l,
    (delete-Keeps_bindings (BindingsLimited (max_bindings sv.binding_quota)) u id).kept m b,
  )
  perform-WithinLimits (creates_binding now u input) m l b = (
    (create_binding-Keeps_drives (Limited (max_drives sv.quota)) sv now u input).kept m l,
    (create_binding-Keeps sv now u input).kept m b,
  )
  perform-WithinLimits (sets_desired now u id desired) m l b = (
    (set_desired-Keeps_drives (Limited (max_drives sv.quota)) now u id desired).kept m l,
    (set_desired-Keeps (max_bindings sv.binding_quota) now u id desired).kept m b,
  )
  perform-WithinLimits (reports_actual now u id actual e) m l b = (
    (report_actual-Keeps_drives (Limited (max_drives sv.quota)) now u id actual e).kept m l,
    (report_actual-Keeps (max_bindings sv.binding_quota) now u id actual e).kept m b,
  )

  -- The quotas and the aliases hold whatever drives are created, updated and deleted and whatever
  -- bindings are created, set and reported, in whatever order: a store in which no user has more drives
  -- or more bindings than the quotas, nor two drives under one alias, stays one.
  pub drives-Limited :
      (cs : List DriveCall) (m : Memory)
      → Limited (max_drives sv.quota) m.drives
      → BindingsLimited (max_bindings sv.binding_quota) m.bindings
      → WithinLimits sv (perform_all sv cs m)
  unfolding perform_all
  drives-Limited [] m l b = (l, b)
  drives-Limited (c ∷ cs) m l b =
      let (l', b') = perform-WithinLimits c m l b in drives-Limited cs (perform sv c m) l' b'
