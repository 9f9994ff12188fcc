-- ===== src/Admin/Keys.antt =====
-- The handlers of internal/admin/admin.go and admin_keys.go that change API keys, and those of
-- admin_extra.go that change users, behind the check of the permission. A key is its pointer.
use llmgateway.Prelude.{ℕ, Bool, ◌||◌, List, Option, none, some, String, str_eq, if◌then◌else◌}
use llmgateway.Prelude.Dict.{lookup, insert, delete}
use llmgateway.Prelude.Int.{ℤ, pos}
use llmgateway.NetUtil.{trim_space}
use llmgateway.Config.{ApiKeyRateLimit, ApiKeyQuota, ApiKeyLogging}
use llmgateway.Time.{Time}
use llmgateway.Store.Keys.{ApiKey}
use llmgateway.Store.Catalog.{Store, Pointer, write, upsert_api_key, delete_api_key, rotate_api_key}
use llmgateway.Admin.{Role, User, AdminPackage, hash_password}
use llmgateway.Admin.Panel.{
  Panel, Answer, turned_away, finish_with, patch, patch_option, or_enabled,
}

pub record ApiKeyBody : Type 0 where
  pub id : String
  pub name : String
  pub key : String
  pub enabled : Option Bool
  pub allowed_models : List String
  pub denied_models : List String
  pub allowed_client_ips : List String
  pub denied_client_ips : List String
  pub rate_limit : Option ApiKeyRateLimit
  pub quota : Option ApiKeyQuota
  pub delay_ms : ℤ
  pub logging : Option ApiKeyLogging
  pub expires_at : String

pub record ApiKeyPatch : Type 0 where
  pub name : Option String
  pub enabled : Option Bool
  pub allowed_models : Option (List String)
  pub denied_models : Option (List String)
  pub allowed_client_ips : Option (List String)
  pub denied_client_ips : Option (List String)
  pub rate_limit : Option ApiKeyRateLimit
  pub quota : Option ApiKeyQuota
  pub delay_ms : Option ℤ
  pub logging : Option ApiKeyLogging
  pub expires_at : Option String

pub record UserBody : Type 0 where
  pub username : String
  pub password : String
  pub email : String
  pub role : String

-- `HashKey` of the store, `time.Parse` for RFC 3339, and `strings.ToLower`.
pub record TextPackage : Type 0 where
  pub hash_key : String → String
  pub parse_time : String → Option Time
  pub to_lower : String → String

-- `NormalizeRole(s)` of users.go.
unfoldable pub role_of : String → Role
role_of s =
    if str_eq s "super_admin" || str_eq s "superadmin"
    then "super_admin"
    else if str_eq s "admin"
    then "admin"
    else if str_eq s "operator"
    then "operator"
    else if str_eq s "viewer"
    then "viewer"
    else if str_eq s "auditor"
    then "auditor"
    else ""

module _ (X : TextPackage) where
  unfoldable pub normalize_role : String → Role
  unfolding role_of
  normalize_role s = role_of (X.to_lower (trim_space s))

  -- The expiry of a body: a text that cannot be parsed changes nothing.
  unfoldable pub expiry : String → Time → Time
  expiry text old =
      if str_eq text "" then old else elim (X.parse_time text) [ none ↦ old | some t ↦ t ]

  -- The `store.APIKey` of a new key.
  unfoldable pub new_key : ApiKeyBody → ApiKey
  unfolding expiry or_enabled
  new_key b = record {
    id = b.id;
    name = b.name;
    key_prefix = "";
    key_hash = "";
    enabled = or_enabled b.enabled;
    allowed_models = b.allowed_models;
    denied_models = b.denied_models;
    allowed_client_ips = b.allowed_client_ips;
    denied_client_ips = b.denied_client_ips;
    rate_limit = b.rate_limit;
    quota = b.quota;
    delay_ms = b.delay_ms;
    logging = b.logging;
    expires_at = expiry b.expires_at 0;
    last_used_at = 0;
    total_requests = pos 0;
    total_tokens = pos 0;
  }

  -- `createAPIKey`, with the pointer of the new key and the text that `generateAPIKey` would make.
  unfoldable pub create_api_key :
      User → Pointer → String → Option ApiKeyBody → Panel → Panel × Answer
  unfolding new_key write upsert_api_key finish_with
  create_api_key u at generated none p = (p, turned_away 400 "invalid_json")
  create_api_key u at generated (some b) p =
      let raw = if str_eq b.key "" then generated else b.key in
      let made =
        upsert_api_key X.hash_key at raw
          (record p.store { heap = write at (new_key b) p.store.heap }) in
      finish_with u "api_key.create" "api_key" (made.heap at).id 201 (record p { store = made })

  unfoldable pub patched_expiry : Option String → Time → Time
  unfolding expiry
  patched_expiry none old = old
  patched_expiry (some text) old = if str_eq text "" then 0 else expiry text old

  unfoldable pub patched_key : ApiKeyPatch → ApiKey → ApiKey
  unfolding patch patch_option patched_expiry
  patched_key body k = record k {
    name = patch body.name k.name;
    enabled = patch body.enabled k.enabled;
    allowed_models = patch body.allowed_models k.allowed_models;
    denied_models = patch body.denied_models k.denied_models;
    allowed_client_ips = patch body.allowed_client_ips k.allowed_client_ips;
    denied_client_ips = patch body.denied_client_ips k.denied_client_ips;
    rate_limit = patch_option body.rate_limit k.rate_limit;
    quota = patch_option body.quota k.quota;
    delay_ms = patch body.delay_ms k.delay_ms;
    logging = patch_option body.logging k.logging;
    expires_at = patched_expiry body.expires_at k.expires_at;
  }

  -- The key behind a pointer, changed, and `UpsertAPIKey(k, "")`.
  unfoldable pub change_key : Pointer → (ApiKey → ApiKey) → Store → Store
  unfolding write upsert_api_key
  change_key at f s =
      upsert_api_key X.hash_key at "" (record s { heap = write at (f (s.heap at)) s.heap })

  -- `patchAPIKey`
  unfoldable pub patch_api_key : User → String → Option ApiKeyPatch → Panel → Panel × Answer
  unfolding patched_key change_key finish_with
  patch_api_key u id body p = elim (lookup id p.store.api_keys) [
    | none ↦ (p, turned_away 404 "api_key_not_found")
    | some at ↦ elim body [
      | none ↦ (p, turned_away 400 "invalid_json")
      | some body ↦
          let changed = change_key at (patched_key body) p.store in
          finish_with u "api_key.update" "api_key" (changed.heap at).id 200
            (record p { store = changed })
    ]
  ]

  -- `setAPIKeyEnabled`, for `enableAPIKey` and `disableAPIKey`.
  unfoldable pub set_api_key_enabled : User → Bool → String → Panel → Panel × Answer
  unfolding change_key finish_with
  set_api_key_enabled u on id p = elim (lookup id p.store.api_keys) [
    | none ↦ (p, turned_away 404 "api_key_not_found")
    | some at ↦
        finish_with u (if on then "api_key.enable" else "api_key.disable") "api_key" id 200
          (record p { store = change_key at (λ k. record k { enabled = on }) p.store })
  ]

  -- `rotateAPIKey`, with the field `key` of the body, which is empty if there is none, and what
  -- `generateAPIKey` would make.
  unfoldable pub rotate_key : User → String → String → String → Panel → Panel × Answer
  unfolding rotate_api_key finish_with
  rotate_key u given generated id p = elim (lookup id p.store.api_keys) [
    | none ↦ (p, turned_away 404 "api_key_not_found")
    | some at ↦
        let raw = if str_eq given "" then generated else given in
        finish_with u "api_key.rotate" "api_key" id 200
          (record p { store = rotate_api_key X.hash_key at raw p.store })
  ]

  -- `createUser`, with the number of the salt.
  unfoldable pub create_user : AdminPackage → User → ℕ → Option UserBody → Panel → Panel × Answer
  unfolding normalize_role hash_password finish_with
  create_user P u salt none p = (p, turned_away 400 "invalid_json")
  create_user P u salt (some b) p =
      if str_eq b.username "" || str_eq b.password ""
      then (p, turned_away 400 "missing_fields")
      else finish_with u "user.create" "user" b.username 201 (record p {
        users =
            insert b.username
              (record {
                username = b.username;
                email = b.email;
                password_hash = hash_password P salt b.password;
                role =
                    if str_eq (normalize_role b.role) "" then "viewer" else normalize_role b.role;
              })
              p.users;
      })

-- `deleteAPIKey`
unfoldable pub remove_api_key : User → String → Panel → Panel × Answer
unfolding delete_api_key finish_with
remove_api_key u id p =
    finish_with u "api_key.delete" "api_key" id 204 (record p { store = delete_api_key id p.store })

-- `deleteUser`
unfoldable pub remove_user : User → String → Panel → Panel × Answer
unfolding finish_with
remove_user u name p =
    finish_with u "user.delete" "user" name 204 (record p { users = delete name p.users })
