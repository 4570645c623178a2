-- ===== src/Drives.antt =====
-- internal/drive/service.go and internal/policy/quota.go: the drives of a user, under a quota, with
-- an optional alias that is unique per user.
use ai_cloudhub.Common.{
  ℕ, zero, suc, ◌+◌, ◌-◌, Bool, true, false, not, ◌&&◌, ◌||◌, List, [], ◌∷◌, ◌++◌, Option, none,
  some, map, length, ltb, leb, ◌==◌ as nat_eq, if◌then◌else◌,
}
use ai_cloudhub.Text.{Text, codes, ◌==◌, is_empty, trim_space, has_prefix, itoa}
use ai_cloudhub.Policy.Rules.{trim_slashes}
use ai_cloudhub.Int.{ℤ}
use ai_cloudhub.Action.{
  Result, ok, err, on_ok, Action, return, fail, lift, reads, or_fail, or_wrap, ◌>>=◌, ◌>>◌,
}
use ai_cloudhub.Memory.{Memory, Drive}
use ai_cloudhub.Memory.Agents.{
  create_drive, get_drive, get_drive_by_alias, list_drives, update_drive, delete_drive,
}
use ai_cloudhub.Auth.{Service, new_uuid, ttl_or}
pub mod Laws
pub mod Writes
pub mod Bindings
pub mod Frames
pub mod Calls
pub mod Limits

pub record CreateInput : Type 0 where
  pub name : Text
  pub alias : Text
  pub provider_id : Text
  pub bucket : Text
  pub prefix : Text
  pub mount_point : Text
  pub region : Text

pub record UpdateInput : Type 0 where
  pub name : Text
  pub alias : Text
  pub set_alias : Bool
  pub prefix : Option Text
  pub mount_point : Text
  pub region : Option Text

-- 20 drives, where no positive number is given.
unfoldable pub max_drives : ℤ → ℕ
unfolding ttl_or
max_drives q = ttl_or 20 q

unfoldable pub check_drives : ℤ → ℕ → Result {0} Unit
unfolding max_drives
check_drives q current =
    if leb (max_drives q) current
    then err (codes "drive quota exceeded: max " ++ itoa (max_drives q) ++ codes " drives per user")
    else ok tt

is_letter : ℕ → Bool
is_letter c = (leb 65 c && leb c 90) || (leb 97 c && leb c 122)

all_alias_bytes : Text → Bool
unfolding is_letter
all_alias_bytes [] = true
all_alias_bytes (c ∷ cs) =
    (is_letter c || (leb 48 c && leb c 57) || nat_eq c 95 || nat_eq c 45) && all_alias_bytes cs

-- A letter, then 15 letters, digits, `_` and `-` at most.
matches_alias : Text → Bool
unfolding is_letter all_alias_bytes
matches_alias [] = false
matches_alias (c ∷ cs) = is_letter c && all_alias_bytes cs && leb (length cs) 15

-- strings.ToUpper on a text that matches the pattern.
upper : ℕ → ℕ
upper c = if leb 97 c && leb c 122 then c - 32 else c

unfoldable pub normalize_alias : Text → Result Text
unfolding matches_alias upper
normalize_alias raw =
    let s = trim_space raw in
    if is_empty s
    then ok []
    else if matches_alias s
    then ok (map upper s)
    else err (codes "invalid alias: must match ^[A-Za-z][A-Za-z0-9_-]{0,15}$")

second_is_colon : Text → Bool
second_is_colon (c ∷ d ∷ cs) = nat_eq d 58
second_is_colon _ = false

unfoldable pub validate_mount_point : Text → Result {0} Unit
unfolding second_is_colon has_prefix
validate_mount_point mp =
    if is_empty mp
    then err (codes "mount_point required")
    else if has_prefix mp (codes "/") || has_prefix mp (codes "~/") || second_is_colon mp
    then ok tt
    else err (codes "mount_point should look like G: or /workspace")

-- No other drive of the user may have a given alias.
unfoldable pub free_alias : Text → Text → Memory → Result {0} Unit
unfolding get_drive_by_alias
free_alias user_id alias m =
    if is_empty alias then ok tt else elim (get_drive_by_alias user_id alias m) [
      | ok d ↦ err (codes "alias already in use")
      | err e ↦ ok tt
    ]

-- What the service takes from elsewhere: the quotas, the lookup of a provider, and the platform.
pub record Drives : Type 0 where
  pub auth : Service
  pub quota : ℤ
  pub binding_quota : ℤ
  pub get_provider : Text → Text → Result {0} Unit
  pub default_mount_point : Text

module _ (sv : Drives) where
  unfoldable pub mount_or_default : Text → Text
  mount_or_default mp = if is_empty (trim_space mp) then sv.default_mount_point else trim_space mp

  unfoldable pub new_drive : ℕ → Text → CreateInput → Text → Text → Drive
  unfolding mount_or_default
  new_drive now user_id input alias id = record {
    id = id;
    user_id = user_id;
    name = trim_space input.name;
    alias = alias;
    provider_id = trim_space input.provider_id;
    bucket = trim_space input.bucket;
    prefix = trim_slashes input.prefix;
    mount_point = mount_or_default input.mount_point;
    region = trim_space input.region;
    created_at = now;
  }

  unfoldable pub create : ℕ → Text → CreateInput → Action Memory Drive
  unfolding check_drives validate_mount_point normalize_alias free_alias mount_or_default new_drive
      new_uuid
  create now user_id input =
      if is_empty (trim_space input.name)
        || is_empty (trim_space input.bucket)
        || is_empty (trim_space input.provider_id)
      then fail (codes "name, provider_id, bucket required")
      else (do
        or_wrap (codes "provider: ") (lift (sv.get_provider user_id (trim_space input.provider_id)))
        reads (λ m. check_drives sv.quota (length (list_drives user_id m)))
        lift (validate_mount_point (mount_or_default input.mount_point))
        alias ← lift (normalize_alias input.alias)
        reads (free_alias user_id alias)
        id ← new_uuid sv.auth
        create_drive (new_drive now user_id input alias id)
        return (new_drive now user_id input alias id))

abbrev pub text_or : Text → Text → Text
text_or old s = if is_empty (trim_space s) then old else trim_space s

unfoldable pub set_alias : Text → UpdateInput → Drive → Memory → Result Drive
unfolding normalize_alias free_alias
set_alias user_id input d m =
    if not input.set_alias
    then ok d
    else on_ok (normalize_alias input.alias) λ alias.
      on_ok (if alias == d.alias then ok tt else free_alias user_id alias m)
        λ free. ok (record d { alias = alias })

unfoldable pub set_mount_point : Text → Drive → Result Drive
unfolding validate_mount_point
set_mount_point mp d =
    if is_empty (trim_space mp)
    then ok d
    else on_ok (validate_mount_point (trim_space mp))
        λ t. ok (record d { mount_point = trim_space mp })

abbrev pub prefix_or : Text → Option Text → Text
prefix_or old none = old
prefix_or old (some p) = trim_slashes p

abbrev region_or : Text → Option Text → Text
region_or old none = old
region_or old (some r) = trim_space r

-- The row as the request changes it.
unfoldable pub requested : Text → UpdateInput → Drive → Memory → Result Drive
unfolding set_alias set_mount_point
requested user_id input old m =
    on_ok (set_alias user_id input (record old { name = text_or old.name input.name }) m) λ d.
      on_ok
        (set_mount_point input.mount_point (record d { prefix = prefix_or d.prefix input.prefix }))
        λ e. ok (record e { region = region_or e.region input.region })

unfoldable pub update : Text → Text → UpdateInput → Action Memory Drive
unfolding get_drive requested update_drive
update user_id id input = do
  cur ← or_fail (codes "drive not found") (reads (get_drive user_id id))
  d ← reads (requested user_id input cur)
  update_drive d
  return d

unfoldable pub delete : Text → Text → Action Memory Unit
unfolding delete_drive
delete user_id id = or_fail (codes "drive not found") (delete_drive user_id id)

by_name : Text → List Drive → Result Drive
by_name q [] = err (codes "drive not found")
by_name q (d ∷ ds) = if d.name == q then ok d else by_name q ds

-- By alias, else by name.
unfoldable pub resolve : Text → Text → Memory → Result Drive
unfolding normalize_alias get_drive_by_alias list_drives by_name
resolve user_id asked m =
    let q = trim_space asked in
    let named = by_name q (list_drives user_id m) in
    if is_empty q then err (codes "alias or name required") else elim (normalize_alias q) [
      | err e ↦ named
      | ok alias ↦ elim (get_drive_by_alias user_id alias m) [ ok d ↦ ok d | err e ↦ named ]
    ]
