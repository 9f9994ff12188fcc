-- ===== src/Config/Validate.antt =====
-- `Validate` of internal/config/config.go. The records of backends, models, aliases
-- and keys are whole, the others hold the fields that it reads or writes. The
-- confidence threshold is a floating-point number, whose two comparisons are arguments. The texts of
-- the messages are left out.
use llmgateway.Prelude.{
  Bool, true, false, not, ◌&&◌, ◌||◌, List, [], ◌∷◌, ◌++◌, Option, String, str_eq, any, map,
  if◌then◌else◌,
}
use llmgateway.Prelude.Dict.{Dict}
use llmgateway.Config.{HealthCheckConfig, ApiKeyRateLimit, ApiKeyQuota, ApiKeyLogging}
use llmgateway.Prelude.Int.{ℤ, pos, ltb_ℤ, is_pos}

pub data ConfigError : Type 0 where
  invalid_port backend_missing_id backend_missing_base_url backend_without_models : ConfigError
  invalid_capability_mode invalid_forwarding_mode no_virtual_model same_virtual_model : ConfigError
  no_workers invalid_threshold too_many_steps worker_missing_id worker_missing_model : ConfigError
  duplicate_worker virtual_model_collides worker_not_served : ConfigError

pub record BackendConfig : Type 0 where
  pub id : String
  pub name : String
  pub base_url : String
  pub api_key : String
  pub enabled : Bool
  pub models : List String
  pub weight : ℤ
  pub max_concurrent_requests : ℤ
  pub timeout_ms : ℤ
  pub stream_idle_timeout_ms : ℤ
  pub health_check : Option HealthCheckConfig
  pub tags : List String

pub record ModelConfig : Type 0 where
  pub name : String
  pub type : String
  pub enabled : Bool
  pub context_length : ℤ
  pub capability_mode : String
  pub capabilities : Dict Bool
  pub routing_policy : String

pub record AliasConfig : Type 0 where
  pub alias : String
  pub internal_model : String
  pub forwarding_mode : String
  pub enabled : Bool

pub record ApiKeyConfig : Type 0 where
  pub id : String
  pub name : String
  pub key : String
  pub key_prefix : String
  pub key_hash : String
  pub enabled : Bool
  pub allowed_models : List String
  pub denied_models : List String
  pub allowed_client_ips : List String
  pub denied_client_ips : List String
  pub rate_limit : Option ApiKeyRateLimit
  pub quota : Option ApiKeyQuota
  pub delay_ms : ℤ
  pub logging : Option ApiKeyLogging
  pub expires_at : String

pub record WorkerConfig : Type 0 where
  pub id : String
  pub model : String

-- The value goes on, or `Validate` returns an error.
pub data Validated (A : Type 0) : Type 0 where
  valid : A → Validated A
  invalid : ConfigError → Validated A

infixl 30 ◌>>=◌
unfoldable pub ◌>>=◌ : {A B : Type 0} → Validated A → (A → Validated B) → Validated B
valid a >>= f = f a
invalid e >>= f = invalid e

-- `if test { return err }`
unfoldable pub refuse_if : Bool → ConfigError → Validated Unit
refuse_if test e = if test then invalid e else valid tt

unfoldable pub is_none : {A : Type 0} → List A → Bool
is_none [] = true
is_none (x ∷ xs) = false

unfoldable pub has : List String → String → Bool
has names name = any (λ n. str_eq n name) names

-- The loop over the backends.
unfoldable pub check_backends : List BackendConfig → Validated Unit
unfolding refuse_if ◌>>=◌ is_none
check_backends [] = valid tt
check_backends (b ∷ bs) = do
  u ← refuse_if (str_eq b.id "") backend_missing_id
  u ← refuse_if (str_eq b.base_url "") backend_missing_base_url
  u ← refuse_if (is_none b.models) backend_without_models
  check_backends bs

unfoldable pub is_capability_mode : String → Bool
is_capability_mode mode = has ("" ∷ "passthrough" ∷ "declared" ∷ "strict" ∷ []) mode

unfoldable pub is_forwarding_mode : String → Bool
is_forwarding_mode mode = has ("" ∷ "use_internal" ∷ "keep_external" ∷ []) mode

-- The loops over the models and the aliases.
unfoldable pub check_models : List ModelConfig → Validated Unit
unfolding refuse_if ◌>>=◌ is_capability_mode
check_models [] = valid tt
check_models (m ∷ ms) = do
  u ← refuse_if (not (is_capability_mode m.capability_mode)) invalid_capability_mode
  check_models ms

unfoldable pub check_aliases : List AliasConfig → Validated Unit
unfolding refuse_if ◌>>=◌ is_forwarding_mode
check_aliases [] = valid tt
check_aliases (a ∷ aliases) = do
  u ← refuse_if (not (is_forwarding_mode a.forwarding_mode)) invalid_forwarding_mode
  check_aliases aliases

-- The loop over the workers; `ids` holds the ids passed.
unfoldable pub check_workers : List String → List WorkerConfig → Validated Unit
unfolding refuse_if ◌>>=◌ has
check_workers ids [] = valid tt
check_workers ids (w ∷ ws) = do
  u ← refuse_if (str_eq w.id "") worker_missing_id
  u ← refuse_if (str_eq w.model "") worker_missing_model
  u ← refuse_if (has ids w.id) duplicate_worker
  check_workers (w.id ∷ ids) ws

-- The second loop over them, of `validateOrchestrationRefs`.
unfoldable pub check_served : List String → List WorkerConfig → Validated Unit
unfolding refuse_if ◌>>=◌ has
check_served backend_models [] = valid tt
check_served backend_models (w ∷ ws) = do
  u ← refuse_if (not (has backend_models w.model)) worker_not_served
  check_served backend_models ws

-- `backendModels`
unfoldable pub backend_models : List BackendConfig → List String
backend_models [] = []
backend_models (b ∷ bs) = b.models ++ backend_models bs

module _ (F : Type 0) (is_below_zero is_above_one : F → Bool) where
  pub record OrchestrationConfig : Type 0 where
    pub enabled : Bool
    pub router_model : String
    pub conductor_model : String
    pub workers : List WorkerConfig
    pub confidence_threshold : F
    pub max_steps : ℤ
    pub request_timeout_ms : ℤ
    pub secret_level_header : String

  pub record Config : Type 0 where
    pub port : ℤ
    pub request_body_limit_mb : ℤ
    pub backends : List BackendConfig
    pub models : List ModelConfig
    pub aliases : List AliasConfig
    pub api_keys : List ApiKeyConfig
    pub orchestration : OrchestrationConfig

  -- The three defaults of `validate`.
  unfoldable pub with_defaults : OrchestrationConfig → OrchestrationConfig
  with_defaults o = record o {
    max_steps = if is_pos o.max_steps then o.max_steps else pos 5;
    request_timeout_ms = if is_pos o.request_timeout_ms then o.request_timeout_ms else pos 120000;
    secret_level_header =
        if str_eq o.secret_level_header "" then "X-Secret-Level" else o.secret_level_header;
  }

  -- `validate()` of the orchestration, where it is enabled. The defaults are set behind the
  -- threshold; no test ahead of them reads what they set.
  unfoldable pub validate_enabled : OrchestrationConfig → Validated OrchestrationConfig
  unfolding refuse_if ◌>>=◌ is_none check_workers with_defaults
  validate_enabled o = do
    u ← refuse_if (str_eq o.router_model "" && str_eq o.conductor_model "") no_virtual_model
    u ←
        refuse_if (not (str_eq o.router_model "") && str_eq o.router_model o.conductor_model)
          same_virtual_model
    u ← refuse_if (is_none o.workers) no_workers
    u ←
        refuse_if (is_below_zero o.confidence_threshold || is_above_one o.confidence_threshold)
          invalid_threshold
    u ← refuse_if (ltb_ℤ (pos 5) (with_defaults o).max_steps) too_many_steps
    u ← check_workers [] o.workers
    valid (with_defaults o)

  unfoldable pub validate_orchestration : OrchestrationConfig → Validated OrchestrationConfig
  unfolding validate_enabled
  validate_orchestration o = if not o.enabled then valid o else validate_enabled o

  -- `realModels`
  unfoldable pub real_models : Config → List String
  unfolding backend_models
  real_models c =
      map (λ m. m.name) c.models ++ (map (λ a. a.alias) c.aliases ++ backend_models c.backends)

  -- The test of one virtual name.
  unfoldable pub collides : List String → String → Bool
  unfolding has
  collides real name = not (str_eq name "") && has real name

  -- `validateOrchestrationRefs`, where the orchestration is enabled.
  unfoldable pub check_refs : Config → Validated Unit
  unfolding refuse_if ◌>>=◌ collides real_models check_served backend_models
  check_refs c = do
    u ← refuse_if (collides (real_models c) c.orchestration.router_model) virtual_model_collides
    u ← refuse_if (collides (real_models c) c.orchestration.conductor_model) virtual_model_collides
    check_served (backend_models c.backends) c.orchestration.workers

  unfoldable pub validate_refs : Config → Validated Unit
  unfolding check_refs
  validate_refs c = if not c.orchestration.enabled then valid tt else check_refs c

  -- `Validate()` behind the test of the port.
  unfoldable pub validate_body : Config → Validated Config
  unfolding ◌>>=◌ check_backends check_models check_aliases validate_orchestration validate_refs
  validate_body c = do
    let limited = record c {
      request_body_limit_mb =
          if is_pos c.request_body_limit_mb then c.request_body_limit_mb else pos 50;
    }
    u ← check_backends c.backends
    u ← check_models c.models
    u ← check_aliases c.aliases
    o ← validate_orchestration c.orchestration
    let checked = record limited { orchestration = o }
    u ← validate_refs checked
    valid checked

  -- `Validate()`
  unfoldable pub validate : Config → Validated Config
  unfolding refuse_if ◌>>=◌ validate_body
  validate c = refuse_if (not (is_pos c.port) || ltb_ℤ (pos 65535) c.port) invalid_port >>= λ u.
      validate_body c
