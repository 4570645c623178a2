-- ===== src/Auth/Rotation/Rows.antt =====
-- About the rows of refresh tokens in internal/store/memory.go, and the row that decides on a hash.
use ai_cloudhub.Common.{
  ◌≡◌, refl, Bool, true, false, List, [], ◌∷◌, none, some, Bool-cases, inl, inr, arith,
  if◌then◌else◌, map, Has, Option-cases, ℕ,
}
use ai_cloudhub.Text.{Text, ◌==◌}
use ai_cloudhub.Text.Laws.{==_iff}
use ai_cloudhub.Table.{find, put, Unique}
use ai_cloudhub.Table.Laws.{find-key, Has-find}
use ai_cloudhub.Memory.{RefreshToken, refresh_key, Memory}
use ai_cloudhub.Memory.Tokens.{find_hash, as_revoked, get_refresh_token_by_hash}
use ai_cloudhub.Action.{ok, err}

-- The row that decides on this hash is revoked.
unfoldable pub spent : Text → List RefreshToken → Bool
spent h [] = false
spent h (t ∷ ts) = let rest = spent h ts in if t.token_hash == h then t.revoked else rest

pub spent-new :
    (h : Text) (r : RefreshToken) (ts : List RefreshToken)
    → find refresh_key r.id ts ≡ none
    → spent h ts ≡ true
    → spent h (put refresh_key r ts) ≡ true
unfolding spent find put
spent-new h r [] new s = ground arith
spent-new h r (t ∷ ts) new s = ground (arith, spent-new h r ts)

pub spent-revoked :
    (h id : Text) (r : RefreshToken) (ts : List RefreshToken)
    → find refresh_key id ts ≡ some r
    → spent h ts ≡ true
    → spent h (put refresh_key (as_revoked r) ts) ≡ true
unfolding spent find put
spent-revoked h id r [] there s = ground arith
spent-revoked h id r (t ∷ ts) there s = ground (
  arith,
  find-key refresh_key id (t ∷ ts) {r = r} there,
  ==_iff t.id id,
  ==_iff t.id r.id,
  spent-revoked h id r ts,
)

pub spent-find :
    (h : Text) (ts : List RefreshToken)
    → spent h ts ≡ true
    → (r : RefreshToken) × (find_hash h ts ≡ some r) × (r.revoked ≡ true)
unfolding spent find_hash
spent-find h [] s = ground arith
spent-find h (t ∷ ts) s = elim (Bool-cases (t.token_hash == h)) [
  | inl this ↦ (t, rw this refl, ground arith)
  | inr other ↦ rw other (spent-find h ts (ground arith))
]

pub find_hash-key :
    (h : Text) (ts : List RefreshToken) {r : RefreshToken}
    → find_hash h ts ≡ some r
    → (r.token_hash == h) ≡ true
unfolding find_hash
find_hash-key h [] first = ground arith
find_hash-key h (t ∷ ts) {r} first = ground (arith, find_hash-key h ts {r = r})

-- Revoking the row that decides.
pub spent_self :
    (h : Text) (r : RefreshToken) (ts : List RefreshToken)
    → find_hash h ts ≡ some r
    → find refresh_key r.id ts ≡ some r
    → spent h (put refresh_key (as_revoked r) ts) ≡ true
unfolding spent find put find_hash
spent_self h r [] first there = ground arith
spent_self h r (t ∷ ts) first there =
    ground (arith, ==_iff t.id r.id, find_hash-key h (t ∷ ts) {r = r} first, spent_self h r ts)

pub spent-all :
    (h u : Text) (ts : List RefreshToken)
    → spent h ts ≡ true
    → spent h (map (λ t. if t.user_id == u then as_revoked t else t) ts) ≡ true
unfolding spent
spent-all h u [] s = s
spent-all h u (t ∷ ts) s = ground (arith, spent-all h u ts)

pub fresh-all :
    (k u : Text) (ts : List RefreshToken)
    → find refresh_key k ts ≡ none
    → find refresh_key k (map (λ t. if t.user_id == u then as_revoked t else t) ts) ≡ none
unfolding find
fresh-all k u [] n = refl
fresh-all k u (t ∷ ts) n = ground (arith, fresh-all k u ts)

pub find_hash-Has :
    (h : Text) (ts : List RefreshToken) {r : RefreshToken} → find_hash h ts ≡ some r → Has r ts
unfolding find_hash
find_hash-Has h [] first = ground arith
find_hash-Has h (t ∷ ts) {r} first = ground (arith, find_hash-Has h ts {r = r})

-- A live row decides on the hash, and it is the row under its identifier.
abbrev pub Live : ℕ → Text → Memory → RefreshToken → Type 0
Live now h m r =
    (find_hash h m.refresh ≡ some r)
    × (find refresh_key r.id m.refresh ≡ some r)
    × (r.revoked ≡ false)

pub Live-row :
    (now : ℕ) (h : Text) (m : Memory) (r : RefreshToken)
    → Unique refresh_key m.refresh
    → get_refresh_token_by_hash now h m ≡ ok r
    → Live now h m r
unfolding get_refresh_token_by_hash
Live-row now h m r unique got = elim (Option-cases (find_hash h m.refresh)) [
  | inl missing ↦ ground arith
  | inr (t, first) ↦
      let there =
        Has-find refresh_key m.refresh t unique (find_hash-Has h m.refresh {r = t} first) in
      ground arith
]

pub spent_get :
    (now : ℕ) (h : Text) (m : Memory)
    → spent h m.refresh ≡ true
    → (e : Text) × (get_refresh_token_by_hash now h m ≡ err e)
unfolding get_refresh_token_by_hash
spent_get now h m s =
    let (r, first, ended) = spent-find h m.refresh s in
    rw (first, get_refresh_token_by_hash, ended) (_, refl)
