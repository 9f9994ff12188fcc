-- ===== src/Handlers/Usage.antt =====
-- What `Forward` of internal/handlers/handlers.go does once the backend has answered: the slot, the
-- counters of the key, the tokens charged to it, and the release of what `admit` took. The key is
-- the record behind the pointer of the request.
use llmgateway.Prelude.{
  ℕ, ◌/◌, Bool, true, false, not, ◌&&◌, List, [], ◌∷◌, Option, none, some, String, leb, length,
  if◌then◌else◌,
}
use llmgateway.Prelude.Bytes.{bytes}
use llmgateway.Prelude.Int.{ℤ, pos, is_pos, ltb_ℤ, leb_ℤ, add_int64}
use llmgateway.Json.{JsonPackage}
use llmgateway.Time.{Time}
use llmgateway.Store.Keys
use llmgateway.Store.Keys.{ApiKey}
use llmgateway.RateLimit.Limiter
use llmgateway.Quota
use llmgateway.Handlers.Admission.{Gateway, api_key_id, key_name}

-- `proxy.Usage`
pub record Usage : Type 0 where
  pub prompt_tokens : ℤ
  pub completion_tokens : ℤ
  pub total_tokens : ℤ
  pub reasoning_tokens : ℤ

-- The state that the charges change: the gateway, and the key of the request.
pub record Account : Type 0 where
  pub gateway : Gateway
  pub key : Option ApiKey

-- The readings of the clock: of the key, of the limiter, and of the quota manager.
pub record Clock : Type 0 where
  pub key_now : Time
  pub limiter_born : Time
  pub limiter_now : Time
  pub quota_born : Time
  pub quota_now : Time

-- A quarter of the bytes of the body, at least 1.
abbrev pub approx : String → ℕ
approx raw = let quarter = length (bytes raw) / 4 in if leb 1 quarter then quarter else 1

-- `estimateTokens(rawReq, maxTokensFromBody)`
unfoldable pub estimate_tokens : String → ℤ → ℤ
estimate_tokens raw max_tokens =
    add_int64 (pos (approx raw)) (if is_pos max_tokens then max_tokens else pos 256)

-- `proxy.Usage{TotalTokens: est}`
abbrev pub estimated : ℤ → Usage
estimated n = record {
  prompt_tokens = pos 0;
  completion_tokens = pos 0;
  total_tokens = n;
  reasoning_tokens = pos 0;
}

unfoldable pub positive : Option ℤ → Option ℤ
positive none = none
positive (some n) = if is_pos n then some n else none

-- `extractMaxTokens(raw)`
unfoldable pub extract_max_tokens : JsonPackage → String → ℤ
unfolding positive
extract_max_tokens J raw = elim (J.token_limits raw) [
  | none ↦ pos 0
  | some limits ↦ elim (positive limits.max_completion_tokens) [
    | some n ↦ n
    | none ↦ elim (positive limits.max_tokens) [ none ↦ pos 0 | some n ↦ n ]
  ]
]

-- The charge of `recordUsage` to the key and to the limiter.
unfoldable pub charge_key : Clock → ℤ → Account → Account
charge_key t n a = elim a.key [
  | none ↦ a
  | some k ↦ record {
    key = some (Keys.add_tokens n t.key_now k);
    gateway = record a.gateway {
      limiter = Limiter.add_tokens (key_name k) n t.limiter_born t.limiter_now a.gateway.limiter;
    };
  }
]

-- Its charge to the monthly quota, under `apiKeyLabel`.
unfoldable pub charge_quota : Clock → ℤ → Account → Account
charge_quota t n a = elim a.gateway.quota [
  | none ↦ a
  | some m ↦
      if is_pos n
      then record a {
        gateway = record a.gateway {
          quota = some (Quota.add_tokens (api_key_id a.key) n t.quota_born t.quota_now m);
        };
      }
      else a
]

-- `recordUsage(u, …)` behind the counters of the metrics.
unfoldable pub record_usage : Clock → Option Usage → Account → Account
unfolding charge_key charge_quota
record_usage t none a = a
record_usage t (some u) a = charge_quota t u.total_tokens (charge_key t u.total_tokens a)

-- What the proxy came to: the status, whether there is an error, and the usage blocks in the order
-- in which `OnUsage` and `OnStreamUsage` got them, with the readings of the clock.
pub record Reply : Type 0 where
  pub status : ℤ
  pub failed : Bool
  pub reports : List (Clock × Option Usage)

unfoldable pub is_success : Reply → Bool
is_success r = not r.failed && (leb_ℤ (pos 200) r.status && ltb_ℤ r.status (pos 400))

-- `usageSeen`
unfoldable pub usage_seen : List (Clock × Option Usage) → Bool
usage_seen [] = false
usage_seen ((t, none) ∷ us) = usage_seen us
usage_seen ((t, some u) ∷ us) = true

unfoldable pub record_all : List (Clock × Option Usage) → Account → Account
unfolding record_usage
record_all [] a = a
record_all ((t, u) ∷ us) a = record_all us (record_usage t u a)

-- `apiKey.TouchRequest()`
unfoldable pub touch : Time → Account → Account
touch now a = elim a.key [ none ↦ a | some k ↦ record a { key = some (Keys.touch_request now k) } ]

-- `apiKey != nil`
abbrev pub has_key : Option ApiKey → Bool
has_key none = false
has_key (some k) = true

-- The charge of the estimate, where a key got a successful reply without a usage block.
unfoldable pub charge_estimate : JsonPackage → Clock → String → Reply → Account → Account
unfolding is_success usage_seen estimate_tokens extract_max_tokens record_usage
charge_estimate J t raw r a =
    if is_success r && (not (usage_seen r.reports) && has_key a.key)
    then record_usage t (some (estimated (estimate_tokens raw (extract_max_tokens J raw)))) a
    else a

-- The accounting of one reply.
unfoldable pub account_for : JsonPackage → Clock → String → Reply → Account → Account
unfolding record_all touch charge_estimate
account_for J t raw r a = charge_estimate J t raw r (touch t.key_now (record_all r.reports a))
