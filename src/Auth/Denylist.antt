-- ===== src/Auth/Denylist.antt =====
-- About Logout of internal/auth/auth.go with the denylist of internal/store/memory.go.
use ai_cloudhub.Common.{
  ℕ, ◌+◌, ◌*◌, ◌≤◌, ◌<◌, ◌≡◌, refl, false, not, List, [], ◌∷◌, some, Bool-cases, inl, inr, arith,
  keep, ltb, All, ap, ◌∙◌,
}
use ai_cloudhub.Text.{Text, ◌==◌, is_empty}
use ai_cloudhub.Text.Laws.{==_iff, ==_refl}
use ai_cloudhub.Table.{find, put}
use ai_cloudhub.Table.Laws.{find-put, find-remove}
use ai_cloudhub.Action.{ok, err, Result-cases, ◌>>=◌, ◌and_then◌}
use ai_cloudhub.Action.Keeps.{Keeps, keeps_rules}
use ai_cloudhub.Memory.{Memory, RevokedJti, jti_key}
use ai_cloudhub.Memory.Tokens.{revoke_jti, is_jti_revoked, revoke_refresh_token}
use ai_cloudhub.Auth.{Service, TokenPayload, second}
use ai_cloudhub.Auth.Tokens.{open_token, parse_payload, check_jti, check_user, check_agent}
use ai_cloudhub.Auth.Tokens.Laws.{parse_payload-Accepted, NotDenied}
use ai_cloudhub.Auth.Sessions.{logout, revoke_refresh}
use ai_cloudhub.Auth.Calls.{AuthCall, perform_all}
use ai_cloudhub.Auth.Calls.Kept.{Writes, perform_all-Kept}
use ai_cloudhub.Auth.Calls.Frames.{jti-Writes}

-- Tokens of the service that carry the same identifier expire at the same second.
abbrev pub OneExpiry : Service → Type 0
OneExpiry sv =
    (s t : Text) (p q : TokenPayload)
    → open_token sv s ≡ ok p
    → open_token sv t ≡ ok q
    → p.jti ≡ q.jti
    → p.exp ≡ q.exp

-- The identifier has an entry that stays until `bound` at least.
abbrev Listed : Text → ℕ → List RevokedJti → Type 0
Listed jti bound rows = (r : RevokedJti) × (find jti_key jti rows ≡ some r) × (bound ≤ r.expires_at)

keep-Listed :
    (now bound : ℕ) (jti : Text) (rows : List RevokedJti)
    → now ≤ bound
    → Listed jti bound rows
    → Listed jti bound (keep (λ r. not (ltb r.expires_at now)) rows)
unfolding find
keep-Listed now bound jti [] early l = l
keep-Listed now bound jti (x ∷ xs) early (r, found, late) = elim (Bool-cases (x.jti == jti)) [
  | inl this ↦ (x, ground arith, ground arith)
  | inr other ↦
      let (r', found', late') = keep-Listed now bound jti xs early (r, ground arith, late) in
      (r', ground arith, late')
]

denies-Listed :
    (now bound exp : ℕ) (jti k : Text) (m : Memory)
    → now ≤ bound
    → (k ≡ jti → exp ≡ bound)
    → Listed jti bound m.revoked_jti
    → Listed jti bound (revoke_jti now k exp m).1.revoked_jti
unfolding revoke_jti
denies-Listed now bound exp jti k m early same l = elim (Bool-cases (is_empty k)) [
  | inl empty ↦ rw (empty, revoke_jti) l
  | inr given ↦
      let entry : RevokedJti = record { jti = k; expires_at = exp } in
      let rows = keep (λ r. not (ltb r.expires_at now)) m.revoked_jti in
      elim (Bool-cases (k == jti)) [
        | inl this ↦
            rw (given, revoke_jti)
              (entry, find-put jti_key jti entry rows ∙ rw this refl, ground (arith, ==_iff k jti))
        | inr other ↦
            let (r, found, late) = keep-Listed now bound jti m.revoked_jti early l in
            rw (given, revoke_jti) (r, find-put jti_key jti entry rows ∙ rw other found, late)
      ]
]

asks-Listed :
    (now bound : ℕ) (jti k : Text) (m : Memory)
    → now ≤ bound
    → Listed jti bound m.revoked_jti
    → Listed jti bound (is_jti_revoked now k m).1.revoked_jti
unfolding is_jti_revoked
asks-Listed now bound jti k m early (r, found, late) =
    (r, ground (arith, find-remove jti_key jti k m.revoked_jti, ==_iff k jti), late)

module _ (sv : Service) (once : OneExpiry sv) (token : Text) (p : TokenPayload)
    (opened : open_token sv token ≡ ok p) where
  abbrev Early : ℕ → Type 0
  Early now = now ≤ p.exp * second

  Listed-Writes : Writes sv Early (λ m. Listed p.jti (p.exp * second) m.revoked_jti)
  Listed-Writes =
      jti-Writes sv Early (Listed p.jti (p.exp * second))
        (λ now early t q o. record {
          kept = λ m l.
              denies-Listed now (p.exp * second) (q.exp * second) p.jti q.jti m early
                (λ e. ap (λ x. x * second) (once t token q p o opened e)) l;
        })
        (λ now early k. record { kept = λ m l. asks-Listed now (p.exp * second) p.jti k m early l })

  -- While its entry stands, the token is refused.
  Listed-refused :
      (now : ℕ) (m : Memory)
      → is_empty p.jti ≡ false
      → Early now
      → Listed p.jti (p.exp * second) m.revoked_jti
      → (e : Text) × ((parse_payload sv now token m).0 ≡ err e)
  Listed-refused now m named early (r, found, late) =
      elim (Result-cases (parse_payload sv now token m).0) [
        | inr refused ↦ refused
        | inl (q, accepted) ↦ ground (arith, (parse_payload-Accepted sv now token m q).0 accepted)
      ]

-- The accounts and the agents stand as they stood in `a`.
abbrev SameRows : Memory → Memory → Type 0
SameRows a s = (s.users ≡ a.users) × (s.agents ≡ a.agents)

module _ (a : Memory) where
  asks-SameRows : (now : ℕ) (jti : Text) → Keeps (SameRows a) (is_jti_revoked now jti)
  unfolding is_jti_revoked
  asks-SameRows now jti = record { kept = λ s same. ground arith }

  ends-SameRows : (id : Text) → Keeps (SameRows a) (revoke_refresh_token id)
  unfolding revoke_refresh_token
  ends-SameRows id = record { kept = λ s same. ground arith }

  check_jti-SameRows : (now : ℕ) (jti : Text) → Keeps (SameRows a) (check_jti now jti)
  unfolding check_jti
  check_jti-SameRows now jti = search (keeps_rules, asks-SameRows) depth 16

  parse-SameRows :
      (sv : Service) (now : ℕ) (token : Text) → Keeps (SameRows a) (parse_payload sv now token)
  unfolding parse_payload check_user check_agent
  parse-SameRows sv now token = search (keeps_rules, check_jti-SameRows) depth 16

  revoke_refresh-SameRows :
      (sv : Service) (now : ℕ) (raw : Text) → Keeps (SameRows a) (revoke_refresh sv now raw)
  unfolding revoke_refresh
  revoke_refresh-SameRows sv now raw = search (keeps_rules, ends-SameRows) depth 16

-- What Logout leaves in the store, of a token that it accepts.
logged_out :
    (sv : Service) (before : ℕ) (token raw : Text) (m : Memory) (p : TokenPayload)
    → (parse_payload sv before token m).0 ≡ ok p
    → is_empty p.jti ≡ false
    → (rest : Memory) × ((logout sv before token raw m).1 ≡ record rest {
      revoked_jti =
          put jti_key
            (record { jti = p.jti; expires_at = p.exp * second })
            (keep (λ r. not (ltb r.expires_at before)) rest.revoked_jti);
    })
      × SameRows m rest
unfolding logout ◌>>=◌ ◌and_then◌ revoke_jti
logged_out sv before token raw m p accepted named =
    let m1 = (parse_payload sv before token m).1 in
    let m2 = (revoke_refresh sv before raw m1).1 in
    (
      m2,
      rw (accepted, logout, named, revoke_jti) refl,
      (revoke_refresh-SameRows m sv before raw).kept m1
          ((parse-SameRows m sv before token).kept m (refl, refl)),
    )

-- A token that is accepted is refused once its holder has logged out with it: at every time up to
-- the start of the second that it expires at, whatever calls are made until then. The token has
-- an identifier, and tokens of the same identifier expire at the same second.
pub logout-refuses :
    (sv : Service)
    → OneExpiry sv
    → (before : ℕ) (token raw : Text) (m : Memory) (p : TokenPayload)
    → (parse_payload sv before token m).0 ≡ ok p
    → is_empty p.jti ≡ false
    → (cs : List (ℕ × AuthCall)) (now : ℕ) → All (λ c. c.0 ≤ p.exp * second) cs
    → now ≤ p.exp * second
    → (e : Text) × ((parse_payload sv now token
          (perform_all sv cs (logout sv before token raw m).1)).0
        ≡ err e)
logout-refuses sv once before token raw m p accepted named cs now times early =
    let opened = ((parse_payload-Accepted sv before token m p).0 accepted).0 in
    let (rest, left, same) = logged_out sv before token raw m p accepted named in
    let entry : RevokedJti = record { jti = p.jti; expires_at = p.exp * second } in
    let m1 = (logout sv before token raw m).1 in
    let listed : Listed p.jti (p.exp * second) m1.revoked_jti =
      rw left (entry, find-put jti_key p.jti entry _ ∙ rw (==_refl p.jti) refl, omega arith) in
    Listed-refused sv once token p opened now (perform_all sv cs m1) named early
      (perform_all-Kept (Listed-Writes sv once token p opened) cs m1 times listed)

-- Within the second that a token expires at, the denylist no longer holds it and its expiry has
-- not passed yet: a token that its holder has logged out with is accepted again.
pub logout-gap :
    (sv : Service) (before : ℕ) (token raw : Text) (m : Memory) (p : TokenPayload)
    → (parse_payload sv before token m).0 ≡ ok p
    → is_empty p.jti ≡ false
    → (now : ℕ) → p.exp * second < now
    → now < (p.exp + 1) * second
    → (parse_payload sv now token (logout sv before token raw m).1).0 ≡ ok p
logout-gap sv before token raw m p accepted named now late early =
    let (opened, fresh, free, user, agent) =
      (parse_payload-Accepted sv before token m p).0 accepted in
    let (rest, left, same) = logged_out sv before token raw m p accepted named in
    let entry : RevokedJti = record { jti = p.jti; expires_at = p.exp * second } in
    let m1 = (logout sv before token raw m).1 in
    let dropped : NotDenied now p.jti m1 =
      inr (inr (entry, rw left (find-put jti_key p.jti entry _ ∙ rw (==_refl p.jti) refl), late)) in
    (parse_payload-Accepted sv now token m1 p).1
      (opened, omega arith, dropped, ground arith, ground arith)
