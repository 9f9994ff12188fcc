-- ===== src/Handlers/Forward.antt =====
-- `Forward` of internal/handlers/handlers.go from the body to the end of the reply. The proxy is an
-- argument: it gives the reply for the backend, the body and the name sent upstream. `rewrite` is
-- `rewriteModelInBody`. A call runs from its start to its end with no other request between, except
-- where `Between` lets others act on a backend. Log records and the other metrics are left out.
use llmgateway.Prelude.{ℕ, Bool, List, Option, String, str_eq, if◌then◌else◌}
use llmgateway.Codes.{Code, is_quota_code}
use llmgateway.Json.{JsonPackage}
use llmgateway.Store.Backend.{Backend, release_slot}
use llmgateway.Store.Keys.{ApiKey}
use llmgateway.Store.Catalog.{Store}
use llmgateway.Balancer.{Balancer}
use llmgateway.Handlers.Admission.{
  Gateway, Surroundings, quota_hit, Release, do_release, Progress, going, rejected, count_hit,
  api_key_id, admit,
}
use llmgateway.Handlers.Screen.{
  ErrorCode, not_admitted, Checked, passed, refused, Read, Orchestration, Target, orchestrated,
  direct, Screened, screen,
}
use llmgateway.Handlers.Route.{Between, Routed, routed, unavailable, route}
use llmgateway.Handlers.Usage.{Clock, Reply, is_success, account_for}

-- What `Forward` reads of the configuration, and what happens to it.
pub record Setting : Type 0 where
  pub surroundings : Surroundings
  pub allow_degraded : Bool
  pub default_policy : String
  pub random_index : ℕ → ℕ
  pub between : Between
  pub orchestration : Option Orchestration
  pub proxy : Backend → String → String → Reply
  pub rewrite : String → String → String
  pub meanwhile : Backend → Backend
  pub clock : Clock

pub record World : Type 0 where
  pub gateway : Gateway
  pub balancer : Balancer
  pub key : Option ApiKey

-- How the call ended: an error response, the orchestrator's turn, or a reply, with the backend
-- behind `ReleaseSlot`.
pub data Outcome : Type 0 where
  failed : ℕ → ErrorCode → Outcome
  handed_over : Screened → Outcome
  replied : Reply → Backend → Outcome

-- The second count of a quota rejection, by the caller of `admit`.
unfoldable pub count_rejection : Option ApiKey → Code → Gateway → Gateway
unfolding count_hit api_key_id
count_rejection k code g =
    if is_quota_code code then count_hit (quota_hit (api_key_id k) code) g else g

module _ (J : JsonPackage) (e : Setting) where
  -- The body sent upstream.
  unfoldable pub forward_body : Screened → String
  forward_body t =
      if str_eq t.forward_name t.peek.model then t.raw else e.rewrite t.raw t.forward_name

  -- The reply, its accounting, and the deferred release.
  unfoldable pub finish : Screened → List Release → Backend → World → Outcome × World
  unfolding forward_body is_success account_for do_release
  finish t rs taken w =
      let reply = e.proxy taken (forward_body t) t.forward_name in
      let a = account_for J e.clock t.raw reply (record { gateway = w.gateway; key = w.key }) in
      (
        replied reply (release_slot (is_success reply) (e.meanwhile taken)),
        record { gateway = do_release rs a.gateway; balancer = w.balancer; key = a.key },
      )

  unfoldable pub after_route : Screened → List Release → Routed × Balancer → World → Outcome × World
  unfolding finish
  after_route t rs (routed taken, b) w = finish t rs taken (record w { balancer = b })
  after_route t rs (unavailable code, b) w =
      (failed 503 code, record w { gateway = do_release rs w.gateway; balancer = b })

  unfoldable pub after_admit : Screened → List Backend → Store → Progress → World → Outcome × World
  unfolding count_rejection after_route
  after_admit t cs s (rejected code status g) w =
      (failed status (not_admitted code), record w { gateway = count_rejection w.key code g })
  after_admit t cs s (going rs g) w =
      after_route t rs
        (route e.random_index e.allow_degraded e.between w.key e.default_policy t.internal_model cs
          s w.balancer)
        (record w { gateway = g })

  unfoldable pub serve : Screened → Store → Target → World → Outcome × World
  unfolding after_admit
  serve t s orchestrated w = (handed_over t, w)
  serve t s (direct cs) w =
      after_admit t cs s (admit e.surroundings w.key t.internal_model w.gateway) w

  unfoldable pub after_screen : Store → Checked Screened → World → Outcome × World
  unfolding serve
  after_screen s (refused status code) w = (failed status code, w)
  after_screen s (passed t) w = serve t s t.target w

  -- `Forward(upstreamPath)`
  unfoldable pub forward : Read → Store → World → Outcome × World
  unfolding after_screen
  forward read s w = after_screen s (screen J e.orchestration w.key read s) w
