-- ===== src/Auth/Tokens/Issued.antt =====
-- About the access tokens that issue of internal/auth/auth.go signs.
use ai_cloudhub.Common.{
  ℕ, suc, ◌/◌, ◌≤◌, ◌≡◌, refl, subst, false, List, [], ◌∷◌, ◌++◌, ◌==◌ as nat_eq, All, arith, inl,
  inr,
}
use ai_cloudhub.Text.{Text, codes}
use ai_cloudhub.Text.Laws.{==_refl}
use ai_cloudhub.Text.Runes.{split_at, add_first}
use ai_cloudhub.Action.{ok, err, Result-cases, return, lift, ◌>>=◌}
use ai_cloudhub.Memory.{Memory}
use ai_cloudhub.Auth.{Service, TokenPayload, second, draw, new_uuid}
use ai_cloudhub.Auth.Tokens.{sign, payload, issue, open_token, open_parts, parse_payload}
use ai_cloudhub.Auth.Tokens.Laws.{parse_payload-Accepted, NotDenied, UserCurrent, AgentCurrent}

-- What encoding/base64 promises of the raw URL alphabet: decoding undoes encoding, and no encoding
-- holds a dot.
pub record Base64 (sv : Service) : Type 0 where
  pub decodes : (x : Text) → sv.decode64 (sv.encode64 x) ≡ ok x
  pub dotless : (x : Text) → All (λ c. nat_eq c 46 ≡ false) (sv.encode64 x)

split_at-whole : (s : Text) → All (λ c. nat_eq c 46 ≡ false) s → split_at 46 s ≡ s ∷ []
unfolding split_at add_first
split_at-whole [] clean = refl
split_at-whole (c ∷ cs) clean = ground (arith, split_at-whole cs)

split_at-parts :
    (s t : Text)
    → All (λ c. nat_eq c 46 ≡ false) s
    → All (λ c. nat_eq c 46 ≡ false) t
    → split_at 46 (s ++ codes "." ++ t) ≡ s ∷ t ∷ []
unfolding split_at add_first
split_at-parts [] t clean clean_t = ground (arith, split_at-whole t clean_t)
split_at-parts (c ∷ cs) t clean clean_t = ground (arith, split_at-parts cs t)

pub open-sign :
    (sv : Service) → Base64 sv → (raw : Text) → open_token sv (sign sv raw) ≡ sv.unmarshal raw
unfolding open_token sign open_parts
open-sign sv b raw =
    let mac = sv.hmac_sha256 sv.secret raw in
    rw
      (
        split_at-parts (sv.encode64 raw) (sv.encode64 mac) (b.dotless raw) (b.dotless mac),
        open_parts,
        b.decodes raw,
        b.decodes mac,
        ==_refl mac,
      )
      refl

-- A token that the service issues is accepted, with the payload that was signed, until the second
-- of its expiry has passed: where the account is at the version it was issued for, its agent, if
-- any, is active and at its version, its identifier is not in the denylist, and json.Unmarshal reads
-- back what json.Marshal wrote of it.
pub issue-parse :
    (sv : Service)
    → Base64 sv
    → (now : ℕ) (user_id username role : Text) (version ttl : ℕ) (agent_id : Text)
      (agent_version : ℕ) (scopes : List Text) (m : Memory) (token : Text)
    → (issue sv now user_id username role version ttl agent_id agent_version scopes m).0 ≡ ok token
    → (p : TokenPayload)
    → p
      ≡ payload now user_id username role version ttl agent_id agent_version scopes
          (sv.uuid m.drawn)
    → ((raw : Text) → sv.marshal p ≡ ok raw → sv.unmarshal raw ≡ ok p)
    → (later : ℕ) → later / second ≤ p.exp
    → NotDenied later p.jti m
    → UserCurrent p m
    → AgentCurrent p m
    → (parse_payload sv later token
        (issue sv now user_id username role version ttl agent_id agent_version scopes m).1).0
      ≡ ok p
unfolding issue new_uuid draw ◌>>=◌ lift return
issue-parse sv b now user_id username role version ttl agent_id agent_version scopes m token issued
      p same reads_back later fresh free user agent =
    let q =
      payload now user_id username role version ttl agent_id agent_version scopes
        (sv.uuid m.drawn) in
    elim (Result-cases (sv.marshal p)) [
      | inr (e, failed) ↦
          let failed' : sv.marshal q ≡ err e = subst (λ x. sv.marshal x ≡ err e) same failed in
          ground arith
      | inl (raw, written) ↦
          let written' : sv.marshal q ≡ ok raw = subst (λ x. sv.marshal x ≡ ok raw) same written in
          let signed : token ≡ sign sv raw = ground arith in
          let opened : open_token sv token ≡ ok p =
            rw (signed, open-sign sv b raw) (reads_back raw written) in
          let m1 : Memory = record m { drawn = suc m.drawn } in
          rw (issue, written')
            ((parse_payload-Accepted sv later token m1 p).1 (opened, fresh, free, user, agent))
    ]
