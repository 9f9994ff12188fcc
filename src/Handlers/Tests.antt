-- ===== src/Handlers/Tests.antt =====
-- Runs of the theorems about a request on a gateway with one backend.
use llmgateway.Prelude.{
  ◌+◌, ◌%◌, ◌≡◌, ◌↔◌, refl, inl, inr, true, false, [], ◌∷◌, none, some, str_eq, arith, ltb,
  if◌then◌else◌, Bool-cases, any, keep_if,
}
use native.Mathlib.Nat.{mod-lt}
use llmgateway.Prelude.Bytes.{bytes, utf8}
use llmgateway.Prelude.Dict.{lookup, values}
use llmgateway.Prelude.Int.{pos, add_int64}
use llmgateway.Json.{JsonPackage}
use llmgateway.Store.Backend.{Backend, supports_model, filter_routable, acquire_slot, release_slot}
use llmgateway.Store.Keys
use llmgateway.Store.Keys.{ApiKey}
use llmgateway.Store.Catalog.{Store}
use llmgateway.Store.Samples.{a_backend, a_key}
use llmgateway.Balancer.{new_balancer, choose}
use llmgateway.RateLimit.Limiter
use llmgateway.Queue
use llmgateway.Codes
use llmgateway.Time.{utc_day_start}
use llmgateway.RateLimit.Concurrency
use llmgateway.Store.Pattern
use llmgateway.Store.Catalog
use llmgateway.Handlers.Screen
use llmgateway.Handlers.Forward
use llmgateway.Handlers.Admission.{Gateway, Surroundings, admit}
use llmgateway.Handlers.Holdings.{Same, InRange}
use llmgateway.Handlers.Screen.{Screened, content, direct, passed, screen}
use llmgateway.Handlers.Vetted.{Vetted}
use llmgateway.Handlers.Gate.{screen-Vetted}
use llmgateway.Handlers.Route.{Between, route, routing_policy}
use llmgateway.Handlers.Attempt.{IsSound, chosen, chosen_again}
use llmgateway.Handlers.Safe.{route-IsSound}
use llmgateway.Handlers.Usage.{
  Account, Clock, Reply, approx, estimated, charge_estimate, extract_max_tokens, positive,
  is_success, usage_seen,
}
use llmgateway.Handlers.Charge.{completion, charge_estimate-completion}
use llmgateway.Handlers.Settled.{Settles, forward-settled}
use llmgateway.Proxy.{HttpPackage}
use llmgateway.Proxy.Forward.{Response, answered}
use llmgateway.Handlers.Forward.{Setting, World, forward, replied}
use llmgateway.Handlers.Whole.{forward-Same}
use llmgateway.Handlers.Reached.{Reached, forward-Reached}

-- Every text is a request for the model "m" that allows 100 tokens.
abbrev a_json : JsonPackage
a_json = record {
  peek = λ raw. some (record { model = "m"; stream = none; secret_level = none });
  members = λ raw. some [];
  messages = λ raw. some [];
  token_limits = λ raw. some (record { max_tokens = some (pos 100); max_completion_tokens = none });
}

abbrev a_store : Store
a_store = record {
  backends = ("b1", a_backend) ∷ [];
  models = [];
  model_aliases = [];
  api_keys = [];
  key_by_hash = [];
  heap = λ p. a_key;
}

abbrev limited : ApiKey
limited = record a_key {
  allowed_models = "m" ∷ [];
  rate_limit = some (record {
    enabled = true;
    requests_per_minute = pos 5;
    tokens_per_minute = pos 0;
    requests_per_day = pos 0;
    tokens_per_day = pos 0;
    concurrent_requests = pos 2;
  });
}

abbrev some_where : Surroundings
some_where = record {
  default_rpm = pos 60;
  queue_enabled = true;
  limiter_born = 10;
  limiter_now = 10;
  check_born = 10;
  check_now = 10;
  add_born = 10;
  add_now = 10;
  canceled = false;
  expires = false;
}

-- One request of the key is in flight, and one place of the model's queue is taken.
abbrev a_gateway : Gateway
a_gateway = record {
  limiter = [];
  quota = none;
  concurrency = ("key:k1", pos 1) ∷ [];
  queue = some (record {
    scopes =
        (
          "model:m",
          record { sem = 1; max_size = pos 3; queued = pos 0; max_conc = 2; default_wait = pos 9 },
        )
        ∷ [];
    default_timeout = pos 9;
    default_max_size = pos 3;
    default_max_conc = pos 2;
  });
  hits = [];
}

a_gateway-InRange : InRange a_gateway
unfolding lookup
a_gateway-InRange = record {
  flights = λ key. elim (Bool-cases (str_eq "key:k1" key)) [
    | inl e ↦ (1, omega arith, rw e refl)
    | inr e ↦ (0, omega arith, rw e refl)
  ];
  waiting = λ id. (0, omega arith, ground arith);
}

abbrev still : Between
still = record { slot = λ b. b; look = λ b. b; retry = λ b. b }

abbrev a_clock : Clock
a_clock = record {
  key_now = 20;
  limiter_born = 20;
  limiter_now = 20;
  quota_born = 20;
  quota_now = 20;
}

abbrev a_reply : Reply
a_reply = record { status = pos 200; failed = false; reports = [] }

abbrev a_setting : Setting
a_setting = record {
  surroundings = some_where;
  allow_degraded = false;
  default_policy = "round_robin";
  random_index = λ n. 7 % n;
  between = still;
  orchestration = none;
  proxy = λ b raw name. a_reply;
  rewrite = λ raw name. raw;
  meanwhile = λ b. b;
  clock = a_clock;
}

abbrev a_world : World
a_world = record { gateway = a_gateway; balancer = new_balancer; key = some limited }

abbrev a_request : Screened
a_request = record {
  raw = "hello";
  peek = record { model = "m"; stream = none; secret_level = none };
  internal_model = "m";
  forward_name = "m";
  target = direct (a_backend ∷ []);
}

screen-Vetted_example :
    (screen a_json none (some limited) (content "hello") a_store ≡ passed a_request)
    ↔ Vetted a_json none (some limited) (content "hello") a_store a_request
screen-Vetted_example = screen-Vetted a_json none (some limited) (content "hello") a_store a_request

route-IsSound_example :
    IsSound false still
      (a_backend ∷ [])
      (chosen
        (λ n. 7 % n)
        false
        (some limited)
        (routing_policy "sticky" "m" a_store)
        "m"
        new_balancer
        (a_backend ∷ [])).0
      (chosen_again
        (λ n. 7 % n)
        false
        still
        (some limited)
        (a_backend ∷ [])
        (routing_policy "sticky" "m" a_store)
        "m"
        new_balancer)
      (route
        (λ n. 7 % n)
        false
        still
        (some limited)
        "sticky"
        "m"
        (a_backend ∷ [])
        a_store
        new_balancer).0
route-IsSound_example =
    route-IsSound (λ n. 7 % n) (λ n p. mod-lt 7 {m = n} p) false still (some limited)
      (a_backend ∷ []) (omega arith) "sticky" "m" a_store new_balancer

forward-Same_example :
    Same a_gateway (forward a_json a_setting (content "hello") a_store a_world).1.gateway
forward-Same_example =
    forward-Same a_json a_setting a_store a_world a_gateway-InRange (content "hello")

abbrev paid : Account
paid = record { gateway = a_gateway; key = some limited }

-- A quarter of the 5 bytes is 1.
charge_estimate-completion_example :
    ((charge_estimate a_json a_clock "hello" a_reply paid).gateway.limiter ≡ (
      let n = approx "hello" + completion (extract_max_tokens a_json "hello") in
      if ltb n 0x8000_0000_0000_0000 then Limiter.add_tokens "key:k1" (pos n) 20 20 [] else []))
    × ((charge_estimate a_json a_clock "hello" a_reply paid).key ≡ (
        let n = approx "hello" + completion (extract_max_tokens a_json "hello") in
        if ltb n 0x8000_0000_0000_0000
        then some (Keys.add_tokens (pos n) 20 limited)
        else some limited))
unfolding bytes utf8 extract_max_tokens positive is_success usage_seen
charge_estimate-completion_example =
    charge_estimate-completion a_json a_clock "hello" a_reply paid limited refl refl refl
      (omega arith) (omega arith)

-- Every body has a usage block of seven tokens.
abbrev a_http : HttpPackage
a_http = record {
  canonical = λ s. s;
  encode_error = λ e. [];
  decode_usage = λ b. some (estimated (pos 7));
  itoa = λ n. "0";
}

abbrev a_response : Response
a_response = record { status_code = pos 200; headers = [] }

forward-settled_example :
    Settles a_json a_http
      (record { trim_space = λ b. b; decode_usage = λ b. none })
      (λ n. a_clock)
      a_clock
      "hello"
      false
      true
      []
      (answered a_response ([], none) [])
      paid
forward-settled_example =
    forward-settled a_json a_http (record { trim_space = λ b. b; decode_usage = λ b. none })
      (λ n. a_clock) a_clock "hello" false true [] (answered a_response ([], none) []) paid refl

-- The backend behind a slot that was taken and released.
abbrev used : Backend
used = record a_backend { total_requests = pos 1 }

forward-Reached_example : Reached a_json a_setting a_store a_world (content "hello") a_reply used
unfolding values forward Screen.screen Keys.model_allowed_resolved any Keys.matches_either
    Keys.matches Pattern.match_pattern bytes Catalog.resolve_alias Catalog.keep_external
    Catalog.live_alias lookup Catalog.hops Screen.handles Catalog.model Catalog.backends_for_model
    keep_if supports_model Screen.◌>>=◌ Forward.after_screen admit Codes.is_accepted
    Limiter.check_and_reserve Limiter.reserve Limiter.is_over Limiter.roll_locked utc_day_start
    Limiter.get_bucket Limiter.new_bucket Concurrency.acquire Queue.acquire Queue.acquire_place
    Queue.get_scope add_int64 Queue.try_send route filter_routable Forward.after_admit choose
    acquire_slot release_slot
forward-Reached_example =
    forward-Reached a_json a_setting a_store a_world (λ n p. mod-lt 7 {m = n} p) (omega arith)
      (content "hello") a_reply used refl
