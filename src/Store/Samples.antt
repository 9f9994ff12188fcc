-- ===== src/Store/Samples.antt =====
-- A backend and a key for the tests.
use llmgateway.Prelude.{true, [], ◌∷◌, none}
use llmgateway.Prelude.Int.{pos}
use llmgateway.Store.Backend.{Backend, healthy}
use llmgateway.Store.Keys.{ApiKey}

abbrev pub a_backend : Backend
a_backend = record {
  id = "b1";
  name = "one";
  base_url = "http://one";
  api_key = "";
  enabled = true;
  models = "m" ∷ [];
  weight = pos 1;
  max_concurrent_requests = pos 2;
  timeout_ms = pos 0;
  stream_idle_timeout_ms = pos 0;
  health_check = none;
  tags = [];
  status = healthy;
  failure_streak = pos 0;
  success_streak = pos 0;
  active_requests = pos 0;
  total_requests = pos 0;
  total_errors = pos 0;
  last_health_check_at = 0;
  last_error = "";
  last_latency_ms = pos 0;
}

abbrev pub a_key : ApiKey
a_key = record {
  id = "k1";
  name = "key";
  key_prefix = "sk-12345";
  key_hash = "h:old";
  enabled = true;
  allowed_models = "qwen-*" ∷ [];
  denied_models = "*-large" ∷ [];
  allowed_client_ips = [];
  denied_client_ips = [];
  rate_limit = none;
  quota = none;
  delay_ms = pos 0;
  logging = none;
  expires_at = 0;
  last_used_at = 0;
  total_requests = pos 0;
  total_tokens = pos 0;
}
