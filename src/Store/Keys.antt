-- ===== src/Store/Keys.antt =====
-- `APIKey` of internal/store/store.go: its usage counters and its model permissions. The mutex of a
-- key makes each method one step. `time.Time{}` is the time 0.
use llmgateway.Prelude.{
  Bool, true, false, not, ◌&&◌, ◌||◌, List, [], ◌∷◌, Option, String, str_eq, any, if◌then◌else◌,
}
use llmgateway.Prelude.Bytes.{bytes}
use llmgateway.Prelude.Int.{ℤ, is_pos, inc, add_int64}
use llmgateway.Config.{ApiKeyRateLimit, ApiKeyQuota, ApiKeyLogging}
use llmgateway.Store.Pattern.{match_pattern}
use llmgateway.Time.{Time}

pub record ApiKey : Type 0 where
  pub id : String
  pub name : String
  pub key_prefix : String
  pub key_hash : String
  pub enabled : Bool
  pub allowed_models : List String
  pub denied_models : List String
  pub allowed_client_ips : List String
  pub denied_client_ips : List String
  pub rate_limit : Option ApiKeyRateLimit
  pub quota : Option ApiKeyQuota
  pub delay_ms : ℤ
  pub logging : Option ApiKeyLogging
  pub expires_at : Time
  pub last_used_at : Time
  pub total_requests : ℤ
  pub total_tokens : ℤ

unfoldable pub touch_request : Time → ApiKey → ApiKey
touch_request now k = record k { last_used_at = now; total_requests = inc k.total_requests }

unfoldable pub add_tokens : ℤ → Time → ApiKey → ApiKey
add_tokens tokens now k =
    if not (is_pos tokens)
    then k
    else record k { last_used_at = now; total_tokens = add_int64 k.total_tokens tokens }

unfoldable pub touch : ℤ → Time → ApiKey → ApiKey
touch tokens now k = record k {
  last_used_at = now;
  total_requests = inc k.total_requests;
  total_tokens = add_int64 k.total_tokens tokens;
}

-- `matchPattern(pattern, value)` on strings.
unfoldable pub matches : String → String → Bool
matches pattern_ value = match_pattern (bytes pattern_) (bytes value)

unfoldable pub is_empty : List String → Bool
is_empty [] = true
is_empty (x ∷ xs) = false

unfoldable pub model_allowed : String → ApiKey → Bool
unfolding is_empty
model_allowed model k =
    if any (λ d. matches d model) k.denied_models
    then false
    else if is_empty k.allowed_models
    then true
    else any (λ a. matches a model) k.allowed_models

-- The test of both loops of `ModelAllowedResolved` on one pattern.
unfoldable pub matches_either : String → String → String → Bool
matches_either requested internal p =
    matches p requested || (not (str_eq internal requested) && matches p internal)

unfoldable pub model_allowed_resolved : String → String → ApiKey → Bool
unfolding is_empty
model_allowed_resolved requested internal k =
    if any (matches_either requested internal) k.denied_models
    then false
    else if is_empty k.allowed_models
    then true
    else any (matches_either requested internal) k.allowed_models
