-- ===== src/Config.antt =====
-- The parts of internal/config/config.go that the other modules read: the health-check settings,
-- the limits of an API key, and the orchestration pool.
pub mod Validate
pub mod Consistent
pub mod Accepted
mod Tests
use llmgateway.Prelude.{Bool, Option, String}
use llmgateway.Prelude.Int.{ℤ}

-- `*bool` is an `Option Bool`.
pub record HealthCheckConfig : Type 0 where
  pub enabled : Option Bool
  pub type : String
  pub interval_ms : ℤ
  pub timeout_ms : ℤ
  pub failure_threshold : ℤ
  pub success_threshold : ℤ
  pub path : String
  pub method : String
  pub body : String

pub record ApiKeyRateLimit : Type 0 where
  pub enabled : Bool
  pub requests_per_minute : ℤ
  pub tokens_per_minute : ℤ
  pub requests_per_day : ℤ
  pub tokens_per_day : ℤ
  pub concurrent_requests : ℤ

pub record ApiKeyQuota : Type 0 where
  pub daily_requests : ℤ
  pub daily_tokens : ℤ
  pub monthly_requests : ℤ
  pub monthly_tokens : ℤ

pub record ApiKeyLogging : Type 0 where
  pub log_metadata : Bool
  pub log_input : Bool
  pub log_output : Bool
  pub log_raw_request : Bool
  pub log_raw_response : Bool
  pub log_stream_chunks : Bool
