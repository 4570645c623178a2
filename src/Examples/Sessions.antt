-- ===== src/Examples/Sessions.antt =====
-- The theorems on accounts, tokens and sessions, at a store with one account and one agent.
use ai_cloudhub.Common.{
  suc, ◌+◌, ◌-◌, ◌*◌, ◌≡◌, ◌↔◌, refl, false, [], ◌∷◌, ◌++◌, arith, inl, inr, map, All,
  ◌==◌ as nat_eq,
}
use ai_cloudhub.Text.{Text, codes, ◌==◌}
use ai_cloudhub.Table.{find}
use ai_cloudhub.Int.{pos}
use ai_cloudhub.Action.{ok, ◌>>=◌, lift, return}
use ai_cloudhub.Memory.{Memory, User, Agent, find_user}
use ai_cloudhub.Auth.{Service, TokenPayload, second}
use ai_cloudhub.Auth.Tokens.{sign, issue, open_token, parse_payload}
use ai_cloudhub.Auth.Tokens.Laws.{parse_payload-Accepted, Accepted}
use ai_cloudhub.Auth.Tokens.Issued.{Base64, issue-parse, open-sign}

abbrev pub claims : TokenPayload
claims = record {
  user_id = codes "u";
  username = codes "ann";
  role = codes "admin";
  exp = 90;
  jti = 1 ∷ [];
  token_version = 0;
  agent_id = codes "g";
  agent_token_version = 2;
  scopes = [];
}

abbrev pub auth_service : Service
auth_service = record {
  secret = codes "s";
  token_ttl = pos 0;
  refresh_ttl = pos 0;
  uuid = λ n. suc n ∷ [];
  random = λ n. ok (n ∷ []);
  hmac_sha256 = λ k x. 9 ∷ [];
  sha256_hex = λ x. 5 ∷ x;
  encode64 = map (λ c. c + 47);
  decode64 = λ x. ok (map (λ c. c - 47) x);
  marshal = λ p. ok (7 ∷ []);
  unmarshal = λ x. ok claims;
  bcrypt_hash = λ n x. ok (codes "$2a$" ++ x);
  bcrypt_matches = λ s x. s == codes "$2a$" ++ x;
  quote = λ x. x;
}

abbrev pub ann : User
ann = record {
  id = codes "u";
  username = codes "ann";
  password = codes "$2a$secret";
  role = codes "admin";
  token_version = 0;
}

abbrev pub helper : Agent
helper = record {
  id = codes "g";
  owner_user_id = codes "u";
  name = codes "helper";
  description = [];
  status = codes "active";
  default_scopes = codes "drive.read" ∷ [];
  allowed_drive_ids = codes "d" ∷ codes "e" ∷ [];
  read_prefixes = [];
  write_prefixes = [];
  token_version = 2;
  created_at = 0;
}

abbrev pub store : Memory
store = record {
  users = ann ∷ [];
  refresh = [];
  revoked_jti = [];
  agents = helper ∷ [];
  drives = [];
  bindings = [];
  audits = [];
  drawn = 0;
}

map-back : (x : Text) → map (λ c. c - 47) (map (λ c. c + 47) x) ≡ x
map-back [] = refl
map-back (c ∷ cs) = ground (arith, map-back cs)

map-dotless : (x : Text) → All (λ c. nat_eq c 46 ≡ false) (map (λ c. c + 47) x)
map-dotless [] = tt
map-dotless (c ∷ cs) = (ground arith, map-dotless cs)

base64 : Base64 auth_service
base64 = record { decodes = λ x. ground (arith, map-back x); dotless = map-dotless }

abbrev pub token : Text
token = sign auth_service (7 ∷ [])

pub token-open : open_token auth_service token ≡ ok claims
token-open = open-sign auth_service base64 (7 ∷ [])

parse_payload-Accepted_example :
    ((parse_payload auth_service 80 token store).0 ≡ ok claims)
    ↔ Accepted auth_service 80 token store claims
parse_payload-Accepted_example = parse_payload-Accepted auth_service 80 token store claims

pub accepted : (parse_payload auth_service 80 token store).0 ≡ ok claims
unfolding find find_user ◌==◌
accepted =
    (parse_payload-Accepted auth_service 80 token store claims).1
      (token-open, omega arith, inr (inl refl), (ann, refl, refl), inr (helper, refl, refl, refl))

issue-parse_example :
    (parse_payload auth_service
      (30 * second)
      token
      (issue auth_service 0
        (codes "u")
        (codes "ann")
        (codes "admin")
        0
        (90 * second)
        (codes "g")
        2
        []
        store).1).0
    ≡ ok claims
unfolding issue ◌>>=◌ lift return find find_user ◌==◌
issue-parse_example =
    issue-parse auth_service base64 0 (codes "u") (codes "ann") (codes "admin") 0 (90 * second)
      (codes "g") 2 [] store token refl claims refl (λ raw w. refl) (30 * second) (omega arith)
      (inr (inl refl)) (ann, refl, refl) (inr (helper, refl, refl, refl))
