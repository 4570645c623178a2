-- ===== src/Auth/Revocation.antt =====
-- About RevokeAllSessions of internal/auth/auth.go, and the calls that follow it.
use ai_cloudhub.Common.{
  ℕ, suc, ◌≤◌, ◌≡◌, refl, List, some, Option-cases, inl, inr, arith, if◌then◌else◌, ap, ◌∙◌,
}
use ai_cloudhub.Text.{Text, ◌==◌}
use ai_cloudhub.Text.Laws.{==_refl}
use ai_cloudhub.Table.{find}
use ai_cloudhub.Action.{ok, err, Result-cases, return, ◌>>=◌, ◌and_then◌}
use ai_cloudhub.Action.Keeps.{Keeps, keeps_rules}
use ai_cloudhub.Memory.{
  Memory, User, user_key, with_role, find_user, change_user, create_user, update_user_role,
  update_user_password, bump_token_version,
}
use ai_cloudhub.Memory.Laws.{find_user-put, find_user-change, changed_if}
use ai_cloudhub.Memory.Tokens.{revoke_refresh_tokens_for_user}
use ai_cloudhub.Auth.{Service, TokenPayload, new_uuid, draw}
use ai_cloudhub.Auth.Tokens.{open_token, parse_payload}
use ai_cloudhub.Auth.Tokens.Laws.{parse_payload-Accepted}
use ai_cloudhub.Auth.Sessions.{revoke_all_sessions}
use ai_cloudhub.Auth.Accounts.{insert_user, set_role}
use ai_cloudhub.Auth.Calls.{AuthCall, perform_all}
use ai_cloudhub.Auth.Calls.Kept.{Writes, always, perform_all-Kept}
use ai_cloudhub.Auth.Calls.Frames.{users-Writes}

-- The account is there, at version `v` or a later one.
abbrev AtLeast : Text → ℕ → List User → Type 0
AtLeast id v us = (u : User) × (find_user id us ≡ some u) × (v ≤ u.token_version)

change-AtLeast :
    (f : User → User)
    → ((u : User) → (f u).id ≡ u.id)
    → ((u : User) → u.token_version ≤ (f u).token_version)
    → (id : Text) (v : ℕ) (j : Text) (us : List User) → AtLeast id v us
    → AtLeast id v (change_user j f us)
change-AtLeast f same grows id v j us (u, found, le) = (
  (if j == id then f u else u),
  find_user-change f same j id us ∙ ap (changed_if (j == id) f) found,
  ground (arith, grows u),
)

module _ (sv : Service) (id : Text) (v : ℕ) where
  insert-AtLeast : (n h r : Text) → Keeps (λ m. AtLeast id v m.users) (insert_user sv n h r)
  unfolding insert_user new_uuid draw ◌>>=◌ create_user return with_role
  insert-AtLeast n h r = record {
    kept = λ m (u, found, le). elim (Option-cases (find user_key n m.users)) [
      | inl new ↦ rw new (u, find_user-put _ id m.users new found, le)
      | inr (old, taken) ↦ rw taken (u, found, le)
    ];
  }

  password-AtLeast : (u h : Text) → Keeps (λ m. AtLeast id v m.users) (update_user_password u h)
  unfolding update_user_password
  password-AtLeast u h = record {
    kept = λ m a. elim (Option-cases (find_user u m.users)) [
      | inl missing ↦ rw (missing, update_user_password) a
      | inr (x, there) ↦
          rw (there, update_user_password)
            (change-AtLeast _ (λ u. refl) (λ u. omega arith) id v u m.users a)
    ];
  }

  bump-AtLeast : (u : Text) → Keeps (λ m. AtLeast id v m.users) (bump_token_version u)
  unfolding bump_token_version
  bump-AtLeast u = record {
    kept = λ m a. elim (Option-cases (find_user u m.users)) [
      | inl missing ↦ rw (missing, bump_token_version) a
      | inr (x, there) ↦
          rw (there, bump_token_version)
            (change-AtLeast _ (λ u. refl) (λ u. omega arith) id v u m.users a)
    ];
  }

  update_role-AtLeast : (u r : Text) → Keeps (λ m. AtLeast id v m.users) (update_user_role u r)
  unfolding update_user_role
  update_role-AtLeast u r = record {
    kept = λ m a. elim (Option-cases (find_user u m.users)) [
      | inl missing ↦ rw (missing, update_user_role) a
      | inr (x, there) ↦
          rw (there, update_user_role)
            (change-AtLeast _ (λ u. refl) (λ u. omega arith) id v u m.users a)
    ];
  }

  role-AtLeast : (u r : Text) → Keeps (λ m. AtLeast id v m.users) (set_role u r)
  unfolding set_role
  role-AtLeast u r = search (keeps_rules, update_role-AtLeast) depth 16

  AtLeast-Writes : Writes sv (λ now. Unit) (λ m. AtLeast id v m.users)
  AtLeast-Writes =
      users-Writes sv (λ now. Unit) (AtLeast id v) insert-AtLeast role-AtLeast password-AtLeast
        bump-AtLeast

module _ (sv : Service) where
  later-AtLeast :
      (id : Text) (v : ℕ) (cs : List (ℕ × AuthCall)) (m : Memory)
      → AtLeast id v m.users
      → AtLeast id v (perform_all sv cs m).users
  later-AtLeast id v cs m = perform_all-Kept (AtLeast-Writes sv id v) cs m (always cs)

  -- The account that a version was read from stands one version higher.
  revoke_all-AtLeast :
      (m : Memory) (id : Text) (u : User)
      → find_user id m.users ≡ some u
      → AtLeast id (suc u.token_version) (revoke_all_sessions id m).1.users
  unfolding revoke_all_sessions ◌and_then◌ revoke_refresh_tokens_for_user bump_token_version
  revoke_all-AtLeast m id u found =
      rw (found, bump_token_version)
        (
          record u { token_version = suc u.token_version },
          find_user-change _ (λ u. refl) id id m.users ∙ ground (arith, found, ==_refl id),
          omega arith,
        )

  outdated :
      (now : ℕ) (token : Text) (m : Memory) (p : TokenPayload)
      → open_token sv token ≡ ok p
      → AtLeast p.user_id (suc p.token_version) m.users
      → (e : Text) × ((parse_payload sv now token m).0 ≡ err e)
  outdated now token m p opened (u, found, later) =
      elim (Result-cases (parse_payload sv now token m).0) [
        | inr refused ↦ refused
        | inl (q, accepted) ↦ ground (arith, (parse_payload-Accepted sv now token m q).0 accepted)
      ]

  -- A token that is accepted is refused after RevokeAllSessions for its user: at every later time,
  -- whatever calls follow, and whoever makes them.
  pub revoke_all-refuses :
      (before : ℕ) (token : Text) (m : Memory) (p : TokenPayload)
      → (parse_payload sv before token m).0 ≡ ok p
      → (cs : List (ℕ × AuthCall)) (now : ℕ)
      → (e : Text) × ((parse_payload sv now token
            (perform_all sv cs (revoke_all_sessions p.user_id m).1)).0
          ≡ err e)
  revoke_all-refuses before token m p accepted cs now =
      let (opened, fresh, free, (u, found, same), agent) =
        (parse_payload-Accepted sv before token m p).0 accepted in
      let m1 = (revoke_all_sessions p.user_id m).1 in
      let bumped : AtLeast p.user_id (suc p.token_version) m1.users =
        rw same (revoke_all-AtLeast m p.user_id u found) in
      outdated now token _ p opened (later-AtLeast p.user_id (suc p.token_version) cs m1 bumped)
