-- ===== src/Auth/Rotation.antt =====
-- About Refresh of internal/auth/refresh.go, and the calls that follow it.
use ai_cloudhub.Common.{
  ℕ, suc, ◌≤◌, ◌<◌, ◌≡◌, refl, Bool, true, false, not, ◌||◌, List, [], ◌∷◌, Option, none, some,
  Option-cases, Bool-cases, inl, inr, arith, All, if◌then◌else◌, map, Has, ltb,
}
use ai_cloudhub.Text.{Text, codes, ◌==◌, trim_space, is_empty}
use ai_cloudhub.Text.Laws.{==_refl, ==_iff}
use ai_cloudhub.Table.{find, put, Unique}
use ai_cloudhub.Table.Laws.{find-put, find-key, Has-find}
use ai_cloudhub.Action.{
  Result, ok, err, Result-cases, Action, return, fail, lift, reads, or_fail, ◌>>=◌,
}
use ai_cloudhub.Action.Keeps.{Keeps, keeps_rules}
use ai_cloudhub.Memory.{
  Memory, User, RefreshToken, refresh_key, create_user, get_user_by_id, role_or_user,
}
use ai_cloudhub.Memory.Tokens.{
  find_hash, get_refresh_token_by_hash, as_revoked, revoke_refresh_token, create_refresh_token,
  revoke_refresh_tokens_for_user,
}
use ai_cloudhub.Auth.{Service, new_uuid, draw, hash_refresh}
use ai_cloudhub.Auth.Rotation.Rows.{
  spent, spent-new, spent-revoked, spent_self, spent-all, spent-find, fresh-all, find_hash-Has,
  Live, Live-row, spent_get,
}
use ai_cloudhub.Auth.Sessions.{TokenPair, insert_refresh, refresh, issue_tokens}
use ai_cloudhub.Auth.Accounts.{insert_user}
use ai_cloudhub.Auth.Calls.{AuthCall, perform_all}
use ai_cloudhub.Auth.Calls.Kept.{Writes, always, perform_all-Kept, issue_tokens-Keeps}
use ai_cloudhub.Auth.Calls.Frames.{refresh-Writes, Keeps-frame}
pub mod Rows

-- uuid.NewString never gives the same identifier twice, and no row of the store holds one that is
-- still to be given.
abbrev pub Distinct : Service → Type 0
Distinct sv = (i j : ℕ) → i < j → (sv.uuid i == sv.uuid j) ≡ false

abbrev pub Fresh : Service → List RefreshToken × ℕ → Type 0
Fresh sv (ts, n) = (k : ℕ) → n ≤ k → find refresh_key (sv.uuid k) ts ≡ none

Fresh-revoked :
    (sv : Service) (id : Text) (r : RefreshToken) (ts : List RefreshToken) (n : ℕ)
    → find refresh_key id ts ≡ some r
    → Fresh sv (ts, n)
    → Fresh sv (put refresh_key (as_revoked r) ts, n)
Fresh-revoked sv id r ts n there fresh k le = ground (
  arith,
  fresh k le,
  find-put refresh_key (sv.uuid k) (as_revoked r) ts,
  find-key refresh_key id ts {r = r} there,
  ==_iff r.id (sv.uuid k),
)

abbrev Spent : Service → Text → List RefreshToken × ℕ → Type 0
Spent sv h x = Fresh sv x × (spent h x.0 ≡ true)

abbrev part : Memory → List RefreshToken × ℕ
part m = (m.refresh, m.drawn)

module _ (sv : Service) (distinct : Distinct sv) (h : Text) where
  draw-Spent : (f : ℕ → Result Text) → Keeps (λ m. Spent sv h (part m)) (draw f)
  unfolding draw
  draw-Spent f = record { kept = λ m (fresh, s). (λ k le. fresh k (omega arith), s) }

  create-Spent : (u : User) → Keeps (λ m. Spent sv h (part m)) (create_user u)
  unfolding create_user
  create-Spent u = Keeps-frame part (Spent sv h) (create_user u) λ s. ground arith

  user-Spent : (n p r : Text) → Keeps (λ m. Spent sv h (part m)) (insert_user sv n p r)
  unfolding insert_user new_uuid
  user-Spent n p r = search (keeps_rules, draw-Spent, create-Spent) depth 16

  add-Spent : (now : ℕ) (u g : Text) → Keeps (λ m. Spent sv h (part m)) (insert_refresh sv now u g)
  unfolding insert_refresh new_uuid draw ◌>>=◌ create_refresh_token
  add-Spent now u g = record {
    kept = λ m (fresh, s).
        let id = sv.uuid m.drawn in
        elim (Bool-cases (is_empty id || is_empty g)) [
          | inl bad ↦ rw (bad, insert_refresh) (λ k le. fresh k (omega arith), s)
          | inr good ↦
              rw (good, insert_refresh)
                (
                  λ k le.
                      rw (find-put refresh_key (sv.uuid k) _ m.refresh, distinct m.drawn k le)
                        (fresh k (omega arith)),
                  spent-new h _ m.refresh (fresh m.drawn (omega arith)) s,
                )
        ];
  }

  revoke-Spent : (id : Text) → Keeps (λ m. Spent sv h (part m)) (revoke_refresh_token id)
  unfolding revoke_refresh_token
  revoke-Spent id = record {
    kept = λ m (fresh, s). elim (Option-cases (find refresh_key id m.refresh)) [
      | inl missing ↦ rw (missing, revoke_refresh_token) (fresh, s)
      | inr (r, there) ↦ elim (Bool-cases r.revoked) [
        | inl twice ↦ rw (there, revoke_refresh_token, twice) (fresh, s)
        | inr live ↦
            rw (there, revoke_refresh_token, live)
              (
                Fresh-revoked sv id r m.refresh m.drawn there fresh,
                spent-revoked h id r m.refresh there s,
              )
      ]
    ];
  }

  revoke_all-Spent :
      (u : Text) → Keeps (λ m. Spent sv h (part m)) (revoke_refresh_tokens_for_user u)
  unfolding revoke_refresh_tokens_for_user
  revoke_all-Spent u = record {
    kept = λ m (fresh, s).
        (λ k le. fresh-all (sv.uuid k) u m.refresh (fresh k le), spent-all h u m.refresh s);
  }

  Spent-Writes : Writes sv (λ now. Unit) (λ m. Spent sv h (part m))
  Spent-Writes =
      refresh-Writes sv (λ now. Unit) (Spent sv h) draw-Spent user-Spent add-Spent revoke-Spent
        revoke_all-Spent

spent_refresh :
    (sv : Service) (now : ℕ) (raw : Text) (m : Memory)
    → spent (hash_refresh sv (trim_space raw)) m.refresh ≡ true
    → (e : Text) × ((refresh sv now raw m).0 ≡ err e)
unfolding refresh ◌>>=◌ or_fail reads fail
spent_refresh sv now raw m s =
    let (e, refused) = spent_get now (hash_refresh sv (trim_space raw)) m s in
    elim (Bool-cases (is_empty (trim_space raw))) [
      | inl empty ↦ rw (empty, refresh) (_, refl)
      | inr given ↦ rw (given, refresh, refused) (_, refl)
    ]

module _ (sv : Service) (distinct : Distinct sv) where
  refresh-Spent :
      (now : ℕ) (raw : Text) (m : Memory) (pair : TokenPair)
      → Fresh sv (part m)
      → Unique refresh_key m.refresh
      → (refresh sv now raw m).0 ≡ ok pair
      → Spent sv (hash_refresh sv (trim_space raw)) (part (refresh sv now raw m).1)
  unfolding refresh ◌>>=◌ or_fail reads fail revoke_refresh_token
  refresh-Spent now raw m pair fresh unique done =
      let h = hash_refresh sv (trim_space raw) in
      elim (Bool-cases (is_empty (trim_space raw))) [
        | inl empty ↦ ground arith
        | inr given ↦ elim (Result-cases (get_refresh_token_by_hash now h m)) [
          | inr (e, refused) ↦ ground arith
          | inl (r, got) ↦ elim (Result-cases (get_user_by_id r.user_id m)) [
            | inr (e, gone) ↦ ground arith
            | inl (u, user) ↦
                let (first, there, live) = Live-row now h m r unique got in
                let w = Spent-Writes sv distinct h in
                rw (given, refresh, got, user, there, live)
                  ((issue_tokens-Keeps w now u.id u.username (role_or_user u.role)
                      u.token_version).kept
                    _
                    (
                      Fresh-revoked sv r.id r m.refresh m.drawn there fresh,
                      spent_self h r m.refresh first there,
                    ))
          ]
        ]
      ]

  -- A refresh token is exchanged once: after an exchange that succeeds, the same text is refused at
  -- every later time, whatever calls follow. The identifiers that uuid.NewString gives are distinct,
  -- none that is still to be given is in the store, and the store has one row under an identifier.
  pub refresh-once :
      (before : ℕ) (raw : Text) (m : Memory) (pair : TokenPair)
      → Fresh sv (m.refresh, m.drawn)
      → Unique refresh_key m.refresh
      → (refresh sv before raw m).0 ≡ ok pair
      → (cs : List (ℕ × AuthCall)) (now : ℕ)
      → (e : Text) × ((refresh sv now raw (perform_all sv cs (refresh sv before raw m).1)).0
          ≡ err e)
  refresh-once before raw m pair fresh unique done cs now =
      let h = hash_refresh sv (trim_space raw) in
      let m1 = (refresh sv before raw m).1 in
      let later : Spent sv h (part (perform_all sv cs m1)) =
        perform_all-Kept (Spent-Writes sv distinct h) cs m1 (always cs)
          (refresh-Spent before raw m pair fresh unique done) in
      spent_refresh sv now raw (perform_all sv cs m1) later.1
