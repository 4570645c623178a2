-- ===== src/Drives/Writes.antt =====
-- About what the calls of internal/drive/service.go write.
use ai_cloudhub.Common.{
  ℕ, ◌≡◌, ◌⊎◌, refl, sym, subst, ◌||◌, some, Option-cases, Bool-cases, inl, inr, arith, length,
}
use ai_cloudhub.Text.{Text, is_empty, trim_space}
use ai_cloudhub.Text.Laws.{==_iff, ==_refl}
use ai_cloudhub.Table.{find, put}
use ai_cloudhub.Table.Laws.{find-key}
use ai_cloudhub.Action.{ok, Result-cases, return, fail, lift, reads, or_fail, or_wrap, ◌>>=◌}
use ai_cloudhub.Memory.{Memory, Drive, drive_key}
use ai_cloudhub.Memory.Agents.{create_drive, get_drive, list_drives, update_drive}
use ai_cloudhub.Auth.{new_uuid, draw}
use ai_cloudhub.Drives.{
  Drives, CreateInput, UpdateInput, check_drives, validate_mount_point, mount_or_default,
  normalize_alias, free_alias, new_drive, create, set_alias, set_mount_point, text_or, prefix_or,
  requested, update,
}

-- Nothing, or a new row of the user, within the quota and with an alias that is free.
abbrev pub Created : Drives → Text → Memory → Memory → Type 0
Created sv user_id m m1 =
    (m1.drives ≡ m.drives)
    ⊎ ((d : Drive) × (m1.drives ≡ put drive_key d m.drives)
        × (d.user_id ≡ user_id)
        × (check_drives sv.quota (length (list_drives user_id m)) ≡ ok tt)
        × (free_alias user_id d.alias m ≡ ok tt))

pub create-Created :
    (sv : Drives) (now : ℕ) (user_id : Text) (input : CreateInput) (m : Memory)
    → Created sv user_id m (create sv now user_id input m).1
unfolding create ◌>>=◌ lift reads return or_wrap fail new_uuid draw create_drive new_drive
create-Created sv now user_id input m =
    let mount = mount_or_default sv input.mount_point in
    elim (Bool-cases (
      is_empty (trim_space input.name)
      || is_empty (trim_space input.bucket)
      || is_empty (trim_space input.provider_id))) [
        | inl missing ↦ inl (rw (create, missing) refl)
        | inr complete ↦
            elim (Result-cases (sv.get_provider user_id (trim_space input.provider_id))) [
              | inr (e, unknown) ↦ inl (rw (create, complete, unknown) refl)
              | inl (t, provided) ↦
                  elim (Result-cases (check_drives sv.quota (length (list_drives user_id m)))) [
                    | inr (e, full) ↦ inl (rw (create, complete, provided, full) refl)
                    | inl (t', room) ↦ elim (Result-cases (validate_mount_point mount)) [
                      | inr (e, bad) ↦ inl (rw (create, complete, provided, room, bad) refl)
                      | inl (t'', mounted) ↦ elim (Result-cases (normalize_alias input.alias)) [
                        | inr (e, bad) ↦
                            inl (rw (create, complete, provided, room, mounted, bad) refl)
                        | inl (alias, named) ↦ elim (Result-cases (free_alias user_id alias m)) [
                          | inr (e, taken) ↦
                              inl
                                (rw (create, complete, provided, room, mounted, named, taken) refl)
                          | inl (t3, free) ↦ inr (
                            new_drive sv now user_id input alias (sv.auth.uuid m.drawn),
                            rw (create, complete, provided, room, mounted, named, free) refl,
                            refl,
                            room,
                            free,
                          )
                        ]
                      ]
                    ]
                  ]
            ]
      ]

-- The alias stays, or was free.
abbrev pub AliasKept : Drive → Drive → Memory → Type 0
AliasKept old d m =
    (d.id ≡ old.id)
    × (d.user_id ≡ old.user_id)
    × ((d.alias ≡ old.alias) ⊎ (free_alias old.user_id d.alias m ≡ ok tt))

set_alias-AliasKept :
    (input : UpdateInput) (old d : Drive) (m : Memory)
    → set_alias old.user_id input old m ≡ ok d
    → AliasKept old d m
unfolding set_alias
set_alias-AliasKept input old d m set = elim (Bool-cases input.set_alias) [
  | inr left ↦ ground arith
  | inl asked ↦ elim (Result-cases (normalize_alias input.alias)) [
    | inr (e, bad) ↦ ground arith
    | inl (alias, good) ↦
        ground (arith, ==_iff alias old.alias, Result-cases (free_alias old.user_id alias m))
  ]
]

set_mount_point-same :
    (mp : Text) (a b : Drive)
    → set_mount_point mp a ≡ ok b
    → (b.id ≡ a.id) × (b.user_id ≡ a.user_id) × (b.alias ≡ a.alias)
unfolding set_mount_point
set_mount_point-same mp a b set =
    ground (arith, Result-cases (validate_mount_point (trim_space mp)))

requested-AliasKept :
    (input : UpdateInput) (old d : Drive) (m : Memory)
    → requested old.user_id input old m ≡ ok d
    → AliasKept old d m
unfolding requested
requested-AliasKept input old d m asked =
    let o = record old { name = text_or old.name input.name } in
    elim (Result-cases (set_alias old.user_id input o m)) [
      | inr (e, bad) ↦ ground arith
      | inl (a, named) ↦
          let a' = record a { prefix = prefix_or a.prefix input.prefix } in
          elim (Result-cases (set_mount_point input.mount_point a')) [
            | inr (e, bad) ↦ ground arith
            | inl (b, mounted) ↦ ground (
              arith,
              set_alias-AliasKept input o a m named,
              set_mount_point-same input.mount_point a' b mounted,
            )
          ]
    ]

get_drive-found :
    (user_id id : Text) (m : Memory) (d : Drive)
    → get_drive user_id id m ≡ ok d
    → (find drive_key id m.drives ≡ some d) × (d.user_id ≡ user_id)
unfolding get_drive
get_drive-found user_id id m d got = elim (Option-cases (find drive_key id m.drives)) [
  | inl missing ↦ ground arith
  | inr (b, found) ↦ ground (arith, ==_iff b.user_id user_id)
]

-- Nothing, or a row in the place of the user's old one, with the old alias or one that is free.
abbrev pub Changed : Text → Memory → Memory → Type 0
Changed user_id m m1 =
    (m1.drives ≡ m.drives)
    ⊎ ((old : Drive) × (d : Drive) × (find drive_key d.id m.drives ≡ some old)
        × (m1.drives ≡ put drive_key d m.drives)
        × (old.user_id ≡ user_id)
        × AliasKept old d m)

update_drive-writes :
    (old d : Drive) (m : Memory)
    → find drive_key old.id m.drives ≡ some old
    → AliasKept old d m
    → Changed old.user_id m (update_drive d m).1
unfolding update_drive
update_drive-writes old d m found (same_id, same_user, alias) =
    let row = record d {
      provider_id = old.provider_id;
      bucket = old.bucket;
      created_at = old.created_at;
    } in
    let here : find drive_key d.id m.drives ≡ some old =
      subst (λ k. find drive_key k m.drives ≡ some old) (sym same_id) found in
    inr (
      old,
      row,
      here,
      rw (update_drive, here, same_user, ==_refl old.user_id) refl,
      refl,
      (same_id, same_user, alias),
    )

pub update-Changed :
    (user_id id : Text) (input : UpdateInput) (m : Memory)
    → Changed user_id m (update user_id id input m).1
unfolding update ◌>>=◌ or_fail reads return
update-Changed user_id id input m = elim (Result-cases (get_drive user_id id m)) [
  | inr (e, missing) ↦ inl (rw (update, missing) refl)
  | inl (old, got) ↦ elim (Result-cases (requested user_id input old m)) [
    | inr (e, bad) ↦ inl (rw (update, got, bad) refl)
    | inl (d, asked) ↦
        let (found, owned) = get_drive-found user_id id m old got in
        let asked' : requested old.user_id input old m ≡ ok d =
          subst (λ u. requested u input old m ≡ ok d) (sym owned) asked in
        let found' : find drive_key old.id m.drives ≡ some old =
          subst (λ k. find drive_key k m.drives ≡ some old)
            (sym (find-key drive_key id m.drives {r = old} found)) found in
        let m1 = (update_drive d m).1 in
        let after : (update user_id id input m).1 ≡ m1 = elim (Result-cases (update_drive d m).0) [
          | inl (t, wrote) ↦ rw (update, got, asked, wrote) refl
          | inr (e, refused) ↦ rw (update, got, asked, refused) refl
        ] in
        let changed : Changed old.user_id m m1 =
          update_drive-writes old d m found' (requested-AliasKept input old d m asked') in
        subst (λ x. Changed user_id m x) (sym after) (subst (λ u. Changed u m m1) owned changed)
  ]
]
