-- ===== src/Admin/Entry.antt =====
-- `authMiddleware` and `requirePerm` of internal/admin/admin.go.
use llmgateway.Prelude.{ℕ, not, ◌&&◌, Option, none, some, String, str_eq, if◌then◌else◌}
use llmgateway.Prelude.Dict.{lookup}
use llmgateway.Auth.{strip}
use llmgateway.Time.{Time}
use llmgateway.Admin.{
  AdminPackage, Server, SessionManager, User, Users, has_permission, verify_password, verify,
}

-- The request goes on with a user in its context, or a status is written.
pub data Entry : Type 0 where
  entered : User → Entry
  refused : ℕ → Entry

-- A user with a name and a role alone.
unfoldable pub bare_user : String → String → User
bare_user name role = record { username = name; email = ""; password_hash = ""; role = role }

-- The second only if the first has found nobody.
unfoldable pub or_else : Option User → Option User → Option User
or_else (some u) other = some u
or_else none other = other

module _ (P : AdminPackage) where
  -- 1a. The admin token.
  unfoldable pub by_bind_token : Server → String → Option User
  unfolding strip bare_user
  by_bind_token s header = if str_eq s.bind_token "" then none else elim (strip "Bearer " header) [
    | none ↦ none
    | some provided ↦
        if str_eq provided s.bind_token then some (bare_user "token" "super_admin") else none
  ]

  -- 1b. A session token.
  unfoldable pub by_session : Time → Option SessionManager → String → Option User
  unfolding strip verify bare_user
  by_session now none header = none
  by_session now (some m) header = elim (strip "Bearer " header) [
    | none ↦ none
    | some token ↦ elim (verify P now m token) [
      | none ↦ none
      | some c ↦ some (bare_user c.username c.role)
    ]
  ]

  -- `found && user.PasswordHash != "" && VerifyPassword(p, user.PasswordHash)`
  unfoldable pub find_user : String → String → Users → Option User
  unfolding verify_password
  find_user name password users = elim (lookup name users) [
    | none ↦ none
    | some user ↦
        if not (str_eq user.password_hash "") && verify_password P password user.password_hash
        then some user
        else none
  ]

  -- 2. Basic authentication of a user.
  unfoldable pub by_password : Option Users → String → Option User
  unfolding find_user
  by_password none header = none
  by_password (some users) header = elim (P.basic_auth header) [
    | none ↦ none
    | some (name, password) ↦ find_user name password users
  ]

  -- 3. The name and the password of the configuration.
  unfoldable pub by_legacy : Server → String → Option User
  unfolding bare_user
  by_legacy s header = if str_eq s.username "" then none else elim (P.basic_auth header) [
    | none ↦ none
    | some (name, password) ↦
        if str_eq name s.username && str_eq password s.password
        then some (bare_user name "admin")
        else none
  ]

  -- `authMiddleware(next)`
  unfoldable pub auth_middleware : Time → Server → String → Entry
  unfolding by_bind_token by_session by_password by_legacy or_else
  auth_middleware now s header =
      if not s.enabled
      then refused 403
      else elim (or_else (by_bind_token s header) (
          or_else (by_session now s.sessions header)
            (or_else (by_password s.users header) (by_legacy s header)))) [
              | some u ↦ entered u
              | none ↦ refused 401
            ]

-- `requirePerm(action, w, r)` ahead of the body of a handler.
unfoldable pub require_perm : String → Entry → Entry
unfolding has_permission
require_perm action (refused status) = refused status
require_perm action (entered u) = if has_permission u.role action then entered u else refused 403
