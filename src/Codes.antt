-- ===== src/Codes.antt =====
-- The texts by which the gateway names why a request was turned away (internal/ratelimit,
-- internal/quota, and `admit` and `isQuotaCode` of internal/handlers/handlers.go). `accepted` is
-- the empty string.
use llmgateway.Prelude.{Bool, true, false}

pub data Code : Type 0 where
  accepted rate_limit_exceeded token_rate_limit_exceeded : Code
  daily_request_limit_exceeded daily_token_limit_exceeded : Code
  daily_request_quota_exceeded monthly_request_quota_exceeded : Code
  daily_token_quota_exceeded monthly_token_quota_exceeded : Code
  concurrent_limit client_canceled queue_timeout queue_full : Code

-- `code == ""`
unfoldable pub is_accepted : Code → Bool
is_accepted accepted = true
is_accepted _ = false

-- `isQuotaCode(code)`
unfoldable pub is_quota_code : Code → Bool
is_quota_code daily_request_limit_exceeded = true
is_quota_code daily_token_limit_exceeded = true
is_quota_code daily_request_quota_exceeded = true
is_quota_code daily_token_quota_exceeded = true
is_quota_code monthly_request_quota_exceeded = true
is_quota_code monthly_token_quota_exceeded = true
is_quota_code _ = false
