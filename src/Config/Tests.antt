-- ===== src/Config/Tests.antt =====
-- A configuration with one backend and a pool of one worker.
use llmgateway.Prelude.{ℕ, refl, Bool, true, false, [], ◌∷◌, none, ltb, any}
use llmgateway.Prelude.Int.{pos}
use llmgateway.Config.Validate.{
  BackendConfig, ModelConfig, AliasConfig, Config, OrchestrationConfig, validate,
}
use llmgateway.Config.Accepted.{IsConsistent, validate-IsConsistent}

-- Thresholds in percent.
abbrev below_zero : ℕ → Bool
below_zero x = false

abbrev above_one : ℕ → Bool
above_one x = ltb 100 x

abbrev a_pool : OrchestrationConfig ℕ below_zero above_one
a_pool = record {
  enabled = true;
  router_model = "auto";
  conductor_model = "";
  workers = record { id = "w"; model = "m" } ∷ [];
  confidence_threshold = 55;
  max_steps = pos 0;
  request_timeout_ms = pos 7;
  secret_level_header = "";
}

abbrev a_backend : BackendConfig
a_backend = record {
  id = "b";
  name = "";
  base_url = "http://b";
  api_key = "";
  enabled = true;
  models = "m" ∷ [];
  weight = pos 1;
  max_concurrent_requests = pos 0;
  timeout_ms = pos 0;
  stream_idle_timeout_ms = pos 0;
  health_check = none;
  tags = [];
}

abbrev a_model : ModelConfig
a_model = record {
  name = "m";
  type = "";
  enabled = true;
  context_length = pos 0;
  capability_mode = "strict";
  capabilities = [];
  routing_policy = "";
}

abbrev an_alias : AliasConfig
an_alias = record { alias = "a"; internal_model = "m"; forwarding_mode = ""; enabled = true }

abbrev a_config : Config ℕ below_zero above_one
a_config = record {
  port = pos 8080;
  request_body_limit_mb = pos 0;
  backends = a_backend ∷ [];
  models = a_model ∷ [];
  aliases = an_alias ∷ [];
  api_keys = [];
  orchestration = a_pool;
}

-- The configuration with its defaults.
abbrev accepted : Config ℕ below_zero above_one
accepted = record a_config {
  request_body_limit_mb = pos 50;
  orchestration = record a_pool { max_steps = pos 5; secret_level_header = "X-Secret-Level" };
}

validate-IsConsistent_example : IsConsistent ℕ below_zero above_one accepted
unfolding validate any
validate-IsConsistent_example = validate-IsConsistent ℕ below_zero above_one a_config accepted refl
