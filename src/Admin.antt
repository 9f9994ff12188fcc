-- ===== src/Admin.antt =====
-- internal/admin: the users (users.go), the session tokens (session.go) and the checks ahead of a
-- handler (authMiddleware and requirePerm of admin.go). Time is in seconds.
pub mod Sessions
pub mod Entry
pub mod Access
pub mod Panel
pub mod Backends
pub mod Models
pub mod Keys
pub mod Serve
pub mod Accounts
pub mod Written
pub mod Audited
pub mod Modes
pub mod Untouched
pub mod Kept
pub mod Known
mod Tests
use Prim.Native.Char.{code}
use llmgateway.Prelude.{
  ℕ, suc, ◌+◌, ◌==◌, Bool, true, false, not, ◌&&◌, ◌||◌, List, [], ◌∷◌, Option, none, some, String,
  str_eq, str_append, ltb, if◌then◌else◌,
}
use llmgateway.Prelude.Dict.{Dict, lookup, insert, delete}
use llmgateway.Auth.{strip}
use llmgateway.Time.{Time}

-- A role is the text of its constant; a text that is none of them is a role without permissions.
abbrev pub Role : Type 0
Role = String

-- `HasPermission(r, action)`
unfoldable pub has_permission : Role → String → Bool
has_permission r action =
    if str_eq r "super_admin"
    then true
    else if str_eq r "admin"
    then not (str_eq action "manage_users")
    else if str_eq r "operator"
    then str_eq action "read" || str_eq action "backend_toggle" || str_eq action "view_logs"
    else if str_eq r "viewer"
    then str_eq action "read" || str_eq action "view_logs"
    else if str_eq r "auditor"
    then str_eq action "read" || str_eq action "view_logs" || str_eq action "view_audit"
    else false

pub record User : Type 0 where
  pub username : String
  pub email : String
  pub password_hash : String
  pub role : Role

-- `Users`, by their names.
abbrev pub Users : Type 0
Users = Dict User

pub record AdminUserConfig : Type 0 where
  pub username : String
  pub email : String
  pub password : String
  pub password_hash : String
  pub role : String

pub record SessionClaim : Type 0 where
  pub id : String
  pub username : String
  pub role : Role
  pub expires_at : Time

-- What the packages of Go provide: bcrypt, whose hash takes the number of its salt, sha256 in hex,
-- hmac with sha256, json on claims, base64.RawURLEncoding, and `BasicAuth` of a request's header.
pub record AdminPackage : Type 0 where
  pub generate_from_password : ℕ → String → String
  pub compare_hash_and_password : String → String → Bool
  pub sha256_hex : String → String
  pub hmac : String → String → List ℕ
  pub marshal : SessionClaim → List ℕ
  pub unmarshal : List ℕ → Option SessionClaim
  pub encode_to_string : List ℕ → String
  pub decode_string : String → Option (List ℕ)
  pub basic_auth : String → Option (String × String)

-- `SessionManager`
pub record SessionManager : Type 0 where
  pub secret : String
  pub revoke : Dict Time

-- What the checks read of `Server`: the section `admin` of the configuration, users and sessions.
pub record Server : Type 0 where
  pub enabled : Bool
  pub bind_token : String
  pub username : String
  pub password : String
  pub users : Option Users
  pub sessions : Option SessionManager

-- `strings.SplitN(token, ".", 2)`, or nothing if there is no dot.
unfoldable pub split_dot : String → Option (String × String)
split_dot String.[] = none
split_dot (String.◌∷◌ c s) =
    let rest = split_dot s in
    if code c == 46
    then some ("", s)
    else elim rest [ none ↦ none | some (a, b) ↦ some (String.◌∷◌ c a, b) ]

-- `strings.HasPrefix(s, prefix)`
unfoldable pub has_prefix : String → String → Bool
unfolding strip
has_prefix s prefix = elim (strip prefix s) [ none ↦ false | some rest ↦ true ]

-- `Revoke(id)`
unfoldable pub revoke_id : String → Time → SessionManager → SessionManager
revoke_id id now m = record m { revoke = insert id now m.revoke }

module _ (P : AdminPackage) where
  -- `HashPassword(password)`
  unfoldable pub hash_password : ℕ → String → String
  hash_password salt password = P.generate_from_password salt password

  -- `VerifyPassword(password, stored)`
  unfoldable pub verify_password : String → String → Bool
  unfolding has_prefix
  verify_password password stored =
      if has_prefix stored "$2a$" || has_prefix stored "$2b$" || has_prefix stored "$2y$"
      then P.compare_hash_and_password stored password
      else str_eq (P.sha256_hex password) stored

  -- The body of the loop of `LoadFromConfig`.
  unfoldable pub user_of : ℕ → AdminUserConfig → User
  unfolding hash_password
  user_of salt c = record {
    username = c.username;
    email = c.email;
    password_hash =
        if str_eq c.password_hash "" && not (str_eq c.password "")
        then hash_password salt c.password
        else c.password_hash;
    role = if str_eq c.role "" then "viewer" else c.role;
  }

  -- `LoadFromConfig(cfgs)`, with the salts numbered from `salt`.
  unfoldable pub load_from_config : ℕ → List AdminUserConfig → Users → Users
  unfolding user_of
  load_from_config salt [] u = u
  load_from_config salt (c ∷ cs) u =
      load_from_config (suc salt) cs (insert c.username (user_of salt c) u)

  -- The signature of a text.
  unfoldable pub sign : SessionManager → String → String
  sign m text = P.encode_to_string (P.hmac m.secret text)

  -- `Mint(username, role, ttl)`, with the random id.
  unfoldable pub mint : String → String → Role → ℕ → Time → SessionManager → String
  unfolding sign
  mint id username role ttl now m =
      let claim : SessionClaim = record {
        id = id;
        username = username;
        role = role;
        expires_at = now + ttl;
      } in
      let enc = P.encode_to_string (P.marshal claim) in str_append enc (str_append "." (sign m enc))

  -- `Verify(token)` behind the check of the signature.
  unfoldable pub read_claim : Time → SessionManager → String → Option SessionClaim
  read_claim now m text = elim (P.decode_string text) [
    | none ↦ none
    | some payload ↦ elim (P.unmarshal payload) [
      | none ↦ none
      | some c ↦
          if ltb c.expires_at now
          then none
          else elim (lookup c.id m.revoke) [ none ↦ some c | some at ↦ none ]
    ]
  ]

  -- `Verify(token)`
  unfoldable pub verify : Time → SessionManager → String → Option SessionClaim
  unfolding split_dot sign read_claim
  verify now m token = elim (split_dot token) [
    | none ↦ none
    | some (text, signature) ↦
        if not (str_eq (sign m text) signature) then none else read_claim now m text
  ]

  -- `logoutHandler`, on the header `Authorization`.
  unfoldable pub logout : Time → String → SessionManager → SessionManager
  unfolding strip verify revoke_id
  logout now header m = elim (strip "Bearer " header) [
    | none ↦ m
    | some token ↦ elim (verify now m token) [ none ↦ m | some c ↦ revoke_id c.id now m ]
  ]
