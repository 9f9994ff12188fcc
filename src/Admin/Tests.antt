-- ===== src/Admin/Tests.antt =====
-- A session of one user, from its login on.
use llmgateway.Prelude.{
  ◌≡◌, refl, true, false, ℕ, [], ◌∷◌, none, some, str_eq, str_append, any, arith, if◌then◌else◌,
  ltb, ◌+◌,
}
use llmgateway.Prelude.Dict.{lookup}
use llmgateway.Auth.{strip}
use llmgateway.Admin.{
  AdminPackage, SessionClaim, SessionManager, Server, User, split_dot, mint, verify, logout,
  has_permission,
}
use llmgateway.Admin.Entry.{auth_middleware, entered, require_perm}
use llmgateway.Admin.Sessions.{claim_of, verify-mint, log_out_all, logout-refused}
use llmgateway.Prelude.Int.{pos}
use llmgateway.Store.Keys.{ApiKey}
use llmgateway.Store.Samples.{a_key}
use llmgateway.Store.Catalog.{Pointer}
use llmgateway.Store.Load.{load_from_config}
use llmgateway.Config.Validate.{ModelConfig, OrchestrationConfig, Config, validate}
use llmgateway.Admin.Panel.{Panel}
use llmgateway.Admin.Models.{ModelPatch}
use llmgateway.Admin.Keys.{TextPackage}
use llmgateway.Admin.Serve.{patches_model, serve, serve_all}
use llmgateway.Admin.Modes.{HasModes}
use llmgateway.Admin.Known.{new_store, serve_all-HasModes}
use llmgateway.Admin.Audited.{Served, serve-Served}
use llmgateway.Admin.Access.{Entitled, require_perm-Entitled}

abbrev the_claim : SessionClaim
the_claim = claim_of "s1" "ann" "operator" 43200 1000

-- A package that knows one claim, one signature and one password.
abbrev toy : AdminPackage
toy = record {
  generate_from_password = λ salt p. p;
  compare_hash_and_password = str_eq;
  sha256_hex = λ p. p;
  hmac = λ secret text. [];
  marshal = λ c. 1 ∷ [];
  unmarshal = λ b. some the_claim;
  encode_to_string = λ b. "x";
  decode_string = λ t. some (1 ∷ []);
  basic_auth = λ h. none;
}

abbrev sessions : SessionManager
sessions = record { secret = "k"; revoke = ("s0", 900) ∷ [] }

verify-mint_example :
    verify toy 2000 sessions (mint toy "s1" "ann" "operator" 43200 1000 sessions) ≡ (
      if ltb (1000 + 43200) 2000 then none else elim (lookup "s1" sessions.revoke) [
        | none ↦ some (claim_of "s1" "ann" "operator" 43200 1000)
        | some at ↦ none
      ])
unfolding split_dot
verify-mint_example =
    verify-mint toy "s1" "ann" "operator" 43200 1000 2000 sessions
      (record { json = refl; base64 = refl; no_dot = refl })

logout-refused_example :
    verify toy 3000
      (log_out_all toy ((2500, "Bearer x.x") ∷ []) (logout toy 2000 "Bearer x.x" sessions))
      "x.x"
    ≡ none
unfolding strip
logout-refused_example =
    logout-refused toy 2000 3000 "Bearer x.x" "x.x" ((2500, "Bearer x.x") ∷ []) sessions refl
      (omega arith)

abbrev server : Server
server = record {
  enabled = true;
  bind_token = "";
  username = "";
  password = "";
  users = none;
  sessions = some sessions;
}

abbrev ann : User
ann = record { username = "ann"; email = ""; password_hash = ""; role = "operator" }

require_perm-Entitled_example :
    (server.enabled ≡ true)
    × ((has_permission ann.role "backend_toggle" ≡ true)
        × Entitled toy 2000 server "Bearer x.x" ann)
unfolding require_perm auth_middleware lookup
require_perm-Entitled_example =
    require_perm-Entitled toy 2000 server "Bearer x.x" "backend_toggle" ann refl

abbrev no_backend : Pointer → ApiKey
no_backend p = a_key

abbrev the_texts : TextPackage
the_texts = record { hash_key = str_append "h:"; parse_time = λ s. none; to_lower = λ s. s }

abbrev strict_model : ModelConfig
strict_model = record {
  name = "m";
  type = "";
  enabled = true;
  context_length = pos 0;
  capability_mode = "";
  capabilities = [];
  routing_policy = "";
}

abbrev a_pool : OrchestrationConfig ℕ (λ x. false) (λ x. false)
a_pool = record {
  enabled = false;
  router_model = "";
  conductor_model = "";
  workers = [];
  confidence_threshold = 55;
  max_steps = pos 0;
  request_timeout_ms = pos 0;
  secret_level_header = "";
}

abbrev a_config : Config ℕ (λ x. false) (λ x. false)
a_config = record {
  port = pos 8080;
  request_body_limit_mb = pos 50;
  backends = [];
  models = strict_model ∷ [];
  aliases = [];
  api_keys = [];
  orchestration = a_pool;
}

abbrev a_panel : Panel
a_panel = record {
  store =
      load_from_config the_texts.hash_key the_texts.parse_time 1 a_config.backends a_config.models
        a_config.aliases a_config.api_keys (new_store no_backend);
  health = none;
  users = [];
  audit_log = [];
}

abbrev admin_user : User
admin_user = record { username = "bob"; email = ""; password_hash = ""; role = "admin" }

-- A patch that is refused for its mode.
abbrev bad_patch : ModelPatch
bad_patch = record {
  type = none;
  enabled = some false;
  context_length = none;
  capability_mode = some "lenient";
  capabilities = none;
  routing_policy = none;
}

serve_all-HasModes_example :
    HasModes
      (serve_all toy the_texts
        ((entered admin_user, patches_model "m" (some bad_patch)) ∷ [])
        a_panel).store
unfolding validate any
serve_all-HasModes_example =
    serve_all-HasModes ℕ (λ x. false) (λ x. false) toy the_texts a_config a_config no_backend 1
      ((entered admin_user, patches_model "m" (some bad_patch)) ∷ []) a_panel refl refl

serve-Served_example :
    Served the_texts
      (entered admin_user)
      (patches_model "m" (some bad_patch))
      a_panel
      (serve toy the_texts (entered admin_user) (patches_model "m" (some bad_patch)) a_panel)
serve-Served_example =
    serve-Served the_texts toy (entered admin_user) (patches_model "m" (some bad_patch)) a_panel
