-- ===== src/Handlers/Admission.antt =====
-- `admit` of internal/handlers/handlers.go: the policies that a request passes before it is routed,
-- with the functions that give back what they took. The gateway's state is the state of the
-- components that `admit` calls, and the two counters of rejections in the metrics. A call of
-- `admit` runs from its start to its end with no other request between.
use llmgateway.Prelude.{
  Bool, ◌&&◌, List, [], ◌∷◌, Option, none, some, String, str_append, ℕ, if◌then◌else◌,
}
use llmgateway.Prelude.Int.{ℤ, pos, is_pos}
use llmgateway.Codes.{
  Code, concurrent_limit, client_canceled, queue_timeout, queue_full, is_accepted, is_quota_code,
}
use llmgateway.Time.{Time}
use llmgateway.Config.{ApiKeyRateLimit, ApiKeyQuota}
use llmgateway.Store.Keys.{ApiKey}
use llmgateway.RateLimit.Limiter.{Limiter, Limits, check_and_reserve}
use llmgateway.RateLimit.Concurrency
use llmgateway.Quota
use llmgateway.Queue
use llmgateway.Queue.{granted, full, gave_up}

-- One increment of `RateLimitHits` or `QuotaHits`, with its labels.
pub data Hit : Type 0 where
  rate_limit_hit quota_hit : String → Code → Hit

pub record Gateway : Type 0 where
  pub limiter : Limiter
  pub quota : Option Quota.Manager
  pub concurrency : Concurrency.Concurrency
  pub queue : Option Queue.Manager
  pub hits : List Hit

-- What `admit` reads of the configuration, and what happens to it: the readings of the clock, the
-- end of the client's context during the delay, and the end of the wait for a place.
pub record Surroundings : Type 0 where
  pub default_rpm : ℤ
  pub queue_enabled : Bool
  pub limiter_born : Time
  pub limiter_now : Time
  pub check_born : Time
  pub check_now : Time
  pub add_born : Time
  pub add_now : Time
  pub canceled : Bool
  pub expires : Bool

-- `if v > 0 { x = v }`
unfoldable pub override : ℤ → ℤ → ℤ
override v x = if is_pos v then v else x

abbrev no_limits : ℤ → Limits
no_limits rpm = record { rpm = rpm; tpm = pos 0; daily_req = pos 0; daily_tok = pos 0 }

-- The limits of a key, before its quota is looked at.
unfoldable pub rate_limits : ℤ → Option ApiKeyRateLimit → Limits
unfolding override
rate_limits default_rpm none = no_limits default_rpm
rate_limits default_rpm (some r) =
    if r.enabled
    then record {
      rpm = override r.requests_per_minute default_rpm;
      tpm = r.tokens_per_minute;
      daily_req = override r.requests_per_day (pos 0);
      daily_tok = override r.tokens_per_day (pos 0);
    }
    else no_limits default_rpm

unfoldable pub apply_quota : Option ApiKeyQuota → Limits → Limits
unfolding override
apply_quota none m = m
apply_quota (some q) m = record m {
  daily_req = override q.daily_requests m.daily_req;
  daily_tok = override q.daily_tokens m.daily_tok;
}

unfoldable pub limits_of : ℤ → ApiKey → Limits
unfolding rate_limits apply_quota
limits_of default_rpm k = apply_quota k.quota (rate_limits default_rpm k.rate_limit)

-- The functions that `releases` collects.
pub data Release : Type 0 where
  release_concurrency : String → ℤ → Release
  release_place : String → Release

unfoldable pub release_one : Release → Gateway → Gateway
release_one (release_concurrency key limit) g = record g {
  concurrency = Concurrency.release key limit g.concurrency;
}
release_one (release_place id) g = elim g.queue [
  | none ↦ g
  | some q ↦ record g { queue = some (Queue.release id q) }
]

-- `doRelease()`. The list holds the function appended last first, as it runs first.
unfoldable pub do_release : List Release → Gateway → Gateway
unfolding release_one
do_release [] g = g
do_release (r ∷ rs) g = do_release rs (release_one r g)

-- Where a call of `admit` stands: it goes on, or it has returned a code and a status.
pub data Progress : Type 0 where
  going : List Release → Gateway → Progress
  rejected : Code → ℕ → Gateway → Progress

infixl 30 ◌>>=◌
unfoldable pub ◌>>=◌ : Progress → (List Release → Gateway → Progress) → Progress
going rs g >>= f = f rs g
rejected code status g >>= f = rejected code status g

-- `doRelease()` with the return behind it.
unfoldable pub reject : Code → ℕ → List Release → Gateway → Progress
unfolding do_release
reject code status rs g = rejected code status (do_release rs g)

unfoldable pub count_hit : Hit → Gateway → Gateway
count_hit h g = record g { hits = h ∷ g.hits }

-- `if reject != "" { … return }`, behind which `admit` goes on.
unfoldable pub settle : Code → Hit → List Release → Gateway → Progress
unfolding reject count_hit
settle code h rs g = if is_accepted code then going rs g else reject code 429 rs (count_hit h g)

-- The bucket and the entry of a key: `"key:" + k.ID`.
abbrev pub key_name : ApiKey → String
key_name k = str_append "key:" k.id

abbrev pub scope_name : String → String
scope_name model = str_append "model:" model

unfoldable pub concurrency_limit : ApiKey → ℤ
concurrency_limit k = elim k.rate_limit [ none ↦ pos 0 | some r ↦ r.concurrent_requests ]

-- The arguments of the call of `Check`: the daily limits are the limiter's.
abbrev monthly : ApiKeyQuota → Quota.Quotas
monthly q = record {
  daily_req = pos 0;
  daily_tok = pos 0;
  monthly_req = q.monthly_requests;
  monthly_tok = q.monthly_tokens;
}

-- `apiKeyID(k)`
unfoldable pub api_key_id : Option ApiKey → String
api_key_id none = "anonymous"
api_key_id (some k) = k.id

-- What follows the answer of the queue. The gauge `QueueDepth` is left out.
unfoldable pub answered : Queue.Answer → Option ApiKey → String → List Release → Gateway → Progress
unfolding api_key_id reject count_hit
answered granted k model rs g = going (release_place (scope_name model) ∷ rs) g
answered full k model rs g =
    reject queue_full 429 rs (count_hit (rate_limit_hit (api_key_id k) queue_full) g)
answered gave_up k model rs g =
    reject queue_timeout 429 rs (count_hit (rate_limit_hit (api_key_id k) queue_timeout) g)

module _ (e : Surroundings) where
  -- 1. The limits per minute and per day.
  unfoldable pub pass_limiter : ApiKey → List Release → Gateway → Progress
  unfolding limits_of settle
  pass_limiter k rs g =
      let (l, code) =
        check_and_reserve (key_name k) (limits_of e.default_rpm k) e.limiter_born e.limiter_now
          g.limiter in
      let h = if is_quota_code code then quota_hit k.id code else rate_limit_hit k.id code in
      settle code h rs (record g { limiter = l })

  -- 2. The monthly quota.
  unfoldable pub pass_quota : ApiKey → List Release → Gateway → Progress
  unfolding settle
  pass_quota k rs g = elim g.quota [
    | none ↦ going rs g
    | some m ↦ elim k.quota [
      | none ↦ going rs g
      | some q ↦
          let (m', code) = Quota.check k.id (monthly q) e.check_born e.check_now m in
          settle code (quota_hit k.id code) rs (record g { quota = some m' })
    ]
  ]

  -- 3. The requests in flight.
  unfoldable pub pass_concurrency : ApiKey → List Release → Gateway → Progress
  unfolding concurrency_limit reject count_hit
  pass_concurrency k rs g =
      let limit = concurrency_limit k in
      let (c, ok) = Concurrency.acquire (key_name k) limit g.concurrency in
      let g' = record g { concurrency = c } in
      if ok
      then going (release_concurrency (key_name k) limit ∷ rs) g'
      else reject concurrent_limit 429 rs (count_hit (rate_limit_hit k.id concurrent_limit) g')

  -- 4. The delay.
  unfoldable pub pass_delay : ApiKey → List Release → Gateway → Progress
  unfolding reject
  pass_delay k rs g =
      if is_pos k.delay_ms && e.canceled then reject client_canceled 499 rs g else going rs g

  -- 5. The queue of the model.
  unfoldable pub pass_queue : Option ApiKey → String → List Release → Gateway → Progress
  unfolding answered
  pass_queue k model rs g = elim (if e.queue_enabled then g.queue else none) [
    | none ↦ going rs g
    | some q ↦
        let (q', answer) = Queue.acquire e.expires (scope_name model) q in
        answered answer k model rs (record g { queue = some q' })
  ]

  -- 6. The request is counted against the monthly quota.
  unfoldable pub count_request : Option ApiKey → List Release → Gateway → Progress
  count_request (some k) rs g = elim g.quota [
    | none ↦ going rs g
    | some m ↦ going rs (record g { quota = some (Quota.add_request k.id e.add_born e.add_now m) })
  ]
  count_request none rs g = going rs g

  -- The steps that only a request with a key takes.
  unfoldable pub pass_key : Option ApiKey → List Release → Gateway → Progress
  unfolding pass_limiter pass_quota pass_concurrency pass_delay ◌>>=◌
  pass_key none rs g = going rs g
  pass_key (some k) rs g =
      pass_limiter k rs g >>= pass_quota k >>= pass_concurrency k >>= pass_delay k

  -- `admit(ctx, k, internalModel)`: `going` holds the functions that `release` runs.
  unfoldable pub admit : Option ApiKey → String → Gateway → Progress
  unfolding pass_key pass_queue count_request ◌>>=◌
  admit k model g = pass_key k [] g >>= pass_queue k model >>= count_request k
