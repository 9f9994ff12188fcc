-- ===== src/Handlers/Route.antt =====
-- `Forward` of internal/handlers/handlers.go from the admission to the backend: the filter, the
-- policy, the choice and the slot, with the second attempt for a request that lost the race. What
-- other requests and probes make of a backend between two looks at it is an argument, `Between`.
use llmgateway.Prelude.{
  ℕ, Bool, List, [], ◌∷◌, Option, none, some, String, str_eq, map, if◌then◌else◌,
}
use llmgateway.Store.Backend.{Backend, filter_routable, acquire_slot}
use llmgateway.Store.Keys.{ApiKey}
use llmgateway.Store.Catalog.{Store, model}
use llmgateway.Balancer.{
  Policy, round_robin, weighted_round_robin, least_connections, least_latency, random, hash, sticky,
  other, Balancer, choose,
}
use llmgateway.Handlers.Admission.{api_key_id}
use llmgateway.Handlers.Screen.{ErrorCode, no_healthy_backend, backend_at_capacity}

-- `balancer.Policy(text)`
unfoldable pub policy_of : String → Policy
policy_of text =
    if str_eq text "round_robin"
    then round_robin
    else if str_eq text "weighted_round_robin"
    then weighted_round_robin
    else if str_eq text "least_connections"
    then least_connections
    else if str_eq text "least_latency"
    then least_latency
    else if str_eq text "random"
    then random
    else if str_eq text "hash"
    then hash
    else if str_eq text "sticky"
    then sticky
    else other

-- The policy of the model's registry entry, if it has one.
unfoldable pub routing_policy : String → String → Store → Policy
unfolding policy_of
routing_policy default_policy name s = elim (model name s) [
  | none ↦ policy_of default_policy
  | some m ↦
      if str_eq m.routing_policy "" then policy_of default_policy else policy_of m.routing_policy
]

-- The changes of a backend by others, up to the first call of `AcquireSlot`, up to the second
-- filter, and between that and the second call.
pub record Between : Type 0 where
  pub slot : Backend → Backend
  pub look : Backend → Backend
  pub retry : Backend → Backend

-- A backend with a slot taken, or the code that is sent with the status 503.
pub data Routed : Type 0 where
  routed : Backend → Routed
  unavailable : ErrorCode → Routed

-- `AcquireSlot` on a backend as others have left it; `none` is its `false`.
unfoldable pub try_slot : (Backend → Backend) → Backend → Option Backend
try_slot change c = let (taken, ok) = acquire_slot (change c) in if ok then some taken else none

module _ (rnd : ℕ → ℕ) (allow_degraded : Bool) (w : Between) where
  -- The second attempt.
  unfoldable pub pick_again :
      Option ApiKey → Policy → String → List Backend → Balancer → Routed × Balancer
  unfolding try_slot api_key_id
  pick_again k policy name candidates b =
      let ready = filter_routable allow_degraded (map w.look candidates) in
      let (picked, b') =
        choose rnd b name policy ready (record { api_key_id = api_key_id k; user = "" }) in
      elim picked [
        | none ↦ (unavailable backend_at_capacity, b')
        | some c ↦ elim (try_slot w.retry c) [
          | none ↦ (unavailable backend_at_capacity, b')
          | some taken ↦ (routed taken, b')
        ]
      ]

  -- The choice among the backends that are ready.
  unfoldable pub pick :
      Option ApiKey → Policy → String → List Backend → List Backend → Balancer → Routed × Balancer
  unfolding try_slot api_key_id
  pick k policy name candidates ready b =
      let (picked, b') =
        choose rnd b name policy ready (record { api_key_id = api_key_id k; user = "" }) in
      elim picked [
        | none ↦ (unavailable no_healthy_backend, b')
        | some c ↦ elim (try_slot w.slot c) [
          | none ↦ pick_again k policy name candidates b'
          | some taken ↦ (routed taken, b')
        ]
      ]

  -- `Forward` behind `admit`, for the candidates as the filter finds them.
  unfoldable pub route :
      Option ApiKey → String → String → List Backend → Store → Balancer → Routed × Balancer
  unfolding routing_policy pick
  route k default_policy name candidates s b = elim (filter_routable allow_degraded candidates) [
    | [] ↦ (unavailable no_healthy_backend, b)
    | c ∷ cs ↦ pick k (routing_policy default_policy name s) name candidates (c ∷ cs) b
  ]
