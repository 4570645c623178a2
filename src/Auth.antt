-- ===== src/Auth.antt =====
-- internal/auth/auth.go, refresh.go, policy.go and scope.go: accounts, access tokens and refresh
-- tokens over the store. An operation is an action on the store; `now` is its reading of the clock,
-- in nanoseconds since 1970.
use ai_cloudhub.Common.{
  ℕ, zero, suc, ◌+◌, ◌*◌, Bool, true, false, not, ◌&&◌, ◌||◌, List, [], ◌∷◌, ltb, leb,
  ◌==◌ as nat_eq, if◌then◌else◌, Option, none, some,
}
use ai_cloudhub.Text.{Text, codes, ◌==◌, is_empty, trim_space, has_prefix}
use ai_cloudhub.Text.Runes.{rune_count}
use ai_cloudhub.Int.{ℤ, pos, negsuc}
use ai_cloudhub.Action.{Result, ok, err, Action, return, fail, or_wrap, ◌>>=◌}
use ai_cloudhub.Memory.{Memory}
pub mod Scopes
pub mod Tokens
pub mod Accounts
pub mod Sessions
pub mod Calls
pub mod Revocation
pub mod Rotation
pub mod LastAdmin
pub mod Denylist

-- What a signed token says. The service signs no negative number.
pub record TokenPayload : Type 0 where
  pub user_id : Text
  pub username : Text
  pub role : Text
  pub exp : ℕ
  pub jti : Text
  pub token_version : ℕ
  pub agent_id : Text
  pub agent_token_version : ℕ
  pub scopes : List Text

-- The service, and what it takes from elsewhere: the n-th values of uuid.NewString and of
-- rand.Read with 32 bytes, HMAC-SHA256 and the hexadecimal SHA-256, the raw URL alphabet of
-- base64, encoding/json, bcrypt (whose n-th hash has the n-th salt), and `%q`.
pub record Service : Type 0 where
  pub secret : Text
  pub token_ttl : ℤ
  pub refresh_ttl : ℤ
  pub uuid : ℕ → Text
  pub random : ℕ → Result Text
  pub hmac_sha256 : Text → Text → Text
  pub sha256_hex : Text → Text
  pub encode64 : Text → Text
  pub decode64 : Text → Result Text
  pub marshal : TokenPayload → Result Text
  pub unmarshal : Text → Result TokenPayload
  pub bcrypt_hash : ℕ → Text → Result Text
  pub bcrypt_matches : Text → Text → Bool
  pub quote : Text → Text

pub record AuthUser : Type 0 where
  pub id : Text
  pub username : Text
  pub role : Text

-- The next random value: a store's counter stands for the generator's state.
unfoldable pub draw : {A : Type 0} → (ℕ → Result A) → Action Memory A
draw f m = (f m.drawn, record m { drawn = suc m.drawn })

unfoldable pub new_uuid : Service → Action Memory Text
unfolding draw
new_uuid sv = draw (λ n. ok (sv.uuid n))

-- A time.Duration that is positive, or the default.
unfoldable pub ttl_or : ℕ → ℤ → ℕ
ttl_or d (pos zero) = d
ttl_or d (pos (suc n)) = suc n
ttl_or d (negsuc n) = d

abbrev pub second : ℕ
second = 1000000000

abbrev pub hour : ℕ
hour = 3600 * second

-- 24 hours and 7 days
unfoldable pub token_ttl_or_default : Service → ℕ
unfolding ttl_or
token_ttl_or_default sv = ttl_or (24 * hour) sv.token_ttl

unfoldable pub refresh_ttl_or_default : Service → ℕ
unfolding ttl_or
refresh_ttl_or_default sv = ttl_or (7 * 24 * hour) sv.refresh_ttl

unfoldable pub is_bcrypt_hash : Text → Bool
is_bcrypt_hash s =
    has_prefix s (codes "$2a$") || has_prefix s (codes "$2b$") || has_prefix s (codes "$2y$")

unfoldable pub hash_password : Service → Text → Action Memory Text
unfolding draw
hash_password sv password =
    or_wrap (codes "hash password: ") (draw (λ n. sv.bcrypt_hash n password))

unfoldable pub hash_refresh : Service → Text → Text
hash_refresh sv raw = sv.sha256_hex raw

is_alphanumeric : ℕ → Bool
is_alphanumeric c = (leb 97 c && leb c 122) || (leb 65 c && leb c 90) || (leb 48 c && leb c 57)

-- `[a-zA-Z0-9._-]*`
all_username_bytes : Text → Bool
unfolding is_alphanumeric
all_username_bytes [] = true
all_username_bytes (c ∷ cs) =
    (is_alphanumeric c || nat_eq c 46 || nat_eq c 95 || nat_eq c 45) && all_username_bytes cs

matches_username : Text → Bool
unfolding is_alphanumeric all_username_bytes
matches_username [] = false
matches_username (c ∷ cs) = is_alphanumeric c && all_username_bytes cs

unfoldable pub validate_username : Text → Result {0} Unit
unfolding matches_username
validate_username s =
    let name = trim_space s in
    if ltb (rune_count name) 3
    then err (codes "username too short (min 3)")
    else if ltb 64 (rune_count name)
    then err (codes "username too long (max 64)")
    else if not (matches_username name)
    then err (codes "username must start with alphanumeric and contain only [a-zA-Z0-9._-]")
    else ok tt

unfoldable pub validate_password : Text → Result {0} Unit
validate_password s =
    if ltb (rune_count s) 8
    then err (codes "password too short (min 8)")
    else if ltb 128 (rune_count s)
    then err (codes "password too long (max 128)")
    else ok tt
