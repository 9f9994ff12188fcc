-- ===== src/Admin/Access.antt =====
-- Who gets to a handler of the admin API.
use llmgateway.Prelude.{
  ◌≡◌, ◌≢◌, ◌⊎◌, ap, ◌∙◌, inl, inr, Bool, true, not, if◌then◌else◌, Option, none, some, String,
  arith, eq_iff, Bool-cases, Option-cases,
}
use mathlib.Core.Path.{subst}
use llmgateway.Prelude.Dict.{lookup}
use llmgateway.Auth.{strip}
use llmgateway.Time.{Time}
use llmgateway.Admin.{
  AdminPackage, Server, SessionManager, SessionClaim, User, Users, has_permission, verify_password,
  verify,
}
use llmgateway.Admin.Entry.{
  Entry, entered, refused, bare_user, by_bind_token, by_session, find_user, by_password, by_legacy,
  or_else, auth_middleware, require_perm,
}

-- What a request proves of its user by its header `Authorization`.
pub data Entitled (P : AdminPackage) (now : Time) (s : Server) (header : String) (u : User)
    : Type 0 where
  has_token :
      s.bind_token ≢ ""
      → strip "Bearer " header ≡ some s.bind_token
      → u ≡ bare_user "token" "super_admin"
      → Entitled P now s header u
  has_session :
      (m : SessionManager) (token : String) (c : SessionClaim)
      → s.sessions ≡ some m
      → strip "Bearer " header ≡ some token
      → verify P now m token ≡ some c
      → u ≡ bare_user c.username c.role
      → Entitled P now s header u
  has_password :
      (users : Users) (name password : String)
      → s.users ≡ some users
      → P.basic_auth header ≡ some (name, password)
      → lookup name users ≡ some u
      → u.password_hash ≢ ""
      → verify_password P password u.password_hash ≡ true
      → Entitled P now s header u
  is_legacy :
      s.username ≢ ""
      → P.basic_auth header ≡ some (s.username, s.password)
      → u ≡ bare_user s.username "admin"
      → Entitled P now s header u

or_else-cases : (a b : Option User) (u : User) → or_else a b ≡ some u → (a ≡ some u) ⊎ (b ≡ some u)
unfolding or_else
or_else-cases none b u h = inr h
or_else-cases (some v) b u h = inl h

answer-entered :
    (b : Bool) (o : Option User) (u : User)
    → (if not b then refused 403 else elim o [ some v ↦ entered v | none ↦ refused 401 ])
      ≡ entered u
    → (b ≡ true) × (o ≡ some u)
answer-entered b none u h = (ground (arith, h), ground (arith, h))
answer-entered b (some v) u h = (ground (arith, h), ground (arith, h))

require_perm-entered :
    (action : String) (e : Entry) (u : User)
    → require_perm action e ≡ entered u
    → (has_permission u.role action ≡ true) × (e ≡ entered u)
unfolding require_perm
require_perm-entered action (refused n) u h = absurd (ground (arith, h))
require_perm-entered action (entered v) u h = elim (Bool-cases (has_permission v.role action)) [
  | inl p ↦
      let same : v ≡ u = ground (arith, h, p) in
      (subst (λ x. has_permission x.role action ≡ true) same p, ap entered same)
  | inr p ↦ absurd (ground (arith, h, p))
]

module _ (P : AdminPackage) (now : Time) (s : Server) (header : String) where
  by_bind_token-Entitled :
      (u : User) → by_bind_token P s header ≡ some u → Entitled P now s header u
  unfolding by_bind_token
  by_bind_token-Entitled u h = elim (Option-cases (strip "Bearer " header)) [
    | inl e ↦ absurd (ground (arith, h, e))
    | inr (provided, e) ↦
        let bound : s.bind_token ≢ "" = ground (arith, h, e, eq_iff s.bind_token "") in
        let same : provided ≡ s.bind_token = ground (arith, h, e, eq_iff provided s.bind_token) in
        has_token bound (e ∙ ap some same) (ground (arith, h, e))
  ]

  by_session-Entitled :
      (u : User) → by_session P now s.sessions header ≡ some u → Entitled P now s header u
  unfolding by_session
  by_session-Entitled u h = elim (Option-cases s.sessions) [
    | inl e ↦ cc
    | inr (m, e) ↦ elim (Option-cases (strip "Bearer " header)) [
      | inl f ↦ cc
      | inr (token, f) ↦ elim (Option-cases (verify P now m token)) [
        | inl g ↦ cc
        | inr (c, g) ↦ has_session m token c e f g (ground (arith, h, e, f, g))
      ]
    ]
  ]

  by_password-Entitled :
      (u : User) → by_password P s.users header ≡ some u → Entitled P now s header u
  unfolding by_password find_user
  by_password-Entitled u h = elim (Option-cases s.users) [
    | inl e ↦ cc
    | inr (users, e) ↦ elim (Option-cases (P.basic_auth header)) [
      | inl f ↦ cc
      | inr ((name, password), f) ↦ elim (Option-cases (lookup name users)) [
        | inl g ↦ cc
        | inr (v, g) ↦
            let same : v ≡ u = ground (arith, h, e, f, g) in
            let filled : v.password_hash ≢ "" =
              ground (arith, h, e, f, g, eq_iff v.password_hash "") in
            let good : verify_password P password v.password_hash ≡ true =
              ground (arith, h, e, f, g) in
            subst (λ x. Entitled P now s header x) same
              (has_password users name password e f g filled good)
      ]
    ]
  ]

  by_legacy-Entitled : (u : User) → by_legacy P s header ≡ some u → Entitled P now s header u
  unfolding by_legacy
  by_legacy-Entitled u h = elim (Option-cases (P.basic_auth header)) [
    | inl e ↦ absurd (ground (arith, h, e))
    | inr ((name, password), e) ↦
        let bound : s.username ≢ "" = ground (arith, h, e, eq_iff s.username "") in
        let own : name ≡ s.username = ground (arith, h, e, eq_iff name s.username) in
        let secret : password ≡ s.password = ground (arith, h, e, eq_iff password s.password) in
        let named : u ≡ bare_user name "admin" = ground (arith, h, e) in
        is_legacy bound (e ∙ (λ i. some (own i, secret i)))
          (named ∙ ap (λ x. bare_user x "admin") own)
  ]

  auth_middleware-Entitled :
      (u : User)
      → auth_middleware P now s header ≡ entered u
      → (s.enabled ≡ true) × Entitled P now s header u
  unfolding auth_middleware
  auth_middleware-Entitled u h =
      let last = or_else (by_password P s.users header) (by_legacy P s header) in
      let later = or_else (by_session P now s.sessions header) last in
      let (on, found) = answer-entered s.enabled (or_else (by_bind_token P s header) later) u h in
      (
        on,
        elim (or_else-cases (by_bind_token P s header) later u found) [
          | inl e ↦ by_bind_token-Entitled u e
          | inr e ↦ elim (or_else-cases (by_session P now s.sessions header) last u e) [
            | inl f ↦ by_session-Entitled u f
            | inr f ↦
                elim (or_else-cases (by_password P s.users header) (by_legacy P s header) u f) [
                  | inl g ↦ by_password-Entitled u g
                  | inr g ↦ by_legacy-Entitled u g
                ]
          ]
        ],
      )

  -- Whoever gets to a handler that asks for a permission has proved who they are, and their role
  -- has the permission: by the admin token of the configuration, by a session token that is signed,
  -- in time and not revoked, by the name and the password of a user, or by the name and the password
  -- of the configuration. No handler is reached while the admin API is switched off.
  pub require_perm-Entitled :
      (action : String) (u : User)
      → require_perm action (auth_middleware P now s header) ≡ entered u
      → (s.enabled ≡ true) × ((has_permission u.role action ≡ true) × Entitled P now s header u)
  require_perm-Entitled action u h =
      let (may, reached) = require_perm-entered action (auth_middleware P now s header) u h in
      let (on, proved) = auth_middleware-Entitled u reached in (on, (may, proved))
