-- ===== src/Orchestrator/Pick.antt =====
-- `pickBackend` of internal/orchestrator/worker.go: the backend of a worker's model, by the rules of
-- the store and the balancer. `none` is an error.
use llmgateway.Prelude.{
  ℕ, ◌<◌, ◌≡◌, Bool, true, false, not, List, [], ◌∷◌, Option, none, some, String, length, In,
  keep_if, keep_if-In, In-keep_if, if◌then◌else◌,
}
use llmgateway.Prelude.Dict.{values}
use llmgateway.Store.Backend.{Backend, supports_model, filter_routable, acquire_slot}
use llmgateway.Store.Routable.{MayRoute, filter_routable-MayRoute, acquire_slot-filter_routable}
use llmgateway.Store.Catalog.{Store, model, backends_for_model}
use llmgateway.Balancer.{Balancer, weighted_round_robin, choose, uint32_mod}
use llmgateway.Balancer.Members.{Picks, choose-Picks}

-- The registry has the model, and it is switched off.
unfoldable pub is_disabled : String → Store → Bool
is_disabled name s = elim (model name s) [ none ↦ false | some m ↦ not m.enabled ]

-- The choice among the backends that are ready.
unfoldable pub pick_ready : (ℕ → ℕ) → String → List Backend → Balancer → Option Backend × Balancer
pick_ready rnd name [] b = (none, b)
pick_ready rnd name (c ∷ cs) b =
    choose rnd b name weighted_round_robin (c ∷ cs) (record { api_key_id = ""; user = "" })

-- `pickBackend(model)`. `rnd` is `rand.Intn`, which the balancer takes.
unfoldable pub pick_backend : (ℕ → ℕ) → Bool → String → Store → Balancer → Option Backend × Balancer
unfolding is_disabled pick_ready
pick_backend rnd allow_degraded name s b =
    if is_disabled name s
    then (none, b)
    else pick_ready rnd name (filter_routable allow_degraded (backends_for_model name s)) b

pick_ready-Picks :
    (rnd : ℕ → ℕ) (name : String) (ready : List Backend) (b : Balancer) (w : Backend)
    → ((n : ℕ) → 0 < n → rnd n < n)
    → length ready < uint32_mod
    → In w ready
    → Picks ready (pick_ready rnd name ready b).0
unfolding pick_ready
pick_ready-Picks rnd name [] b w r l i = absurd i
pick_ready-Picks rnd name (c ∷ cs) b w r l i =
    choose-Picks rnd b name weighted_round_robin c cs (record { api_key_id = ""; user = "" }) r l

-- Where the model is not switched off and one of its backends may be routed to, `pickBackend` picks
-- a backend of the store that serves the model and may be routed to, and this backend grants a slot,
-- if no other request comes between. There are fewer than 2^32 such backends, and the random index
-- lies in the range that it is asked for.
pub pick_backend-MayRoute :
    (rnd : ℕ → ℕ) (allow : Bool) (name : String) (s : Store) (b : Balancer) (w : Backend)
    → ((n : ℕ) → 0 < n → rnd n < n)
    → length (filter_routable allow (backends_for_model name s)) < uint32_mod
    → is_disabled name s ≡ false
    → In w (values s.backends)
    → supports_model name w ≡ true
    → MayRoute allow w
    → (be : Backend) × ((pick_backend rnd allow name s b).0 ≡ some be)
      × In be (values s.backends)
      × (supports_model name be ≡ true)
      × MayRoute allow be
      × ((acquire_slot be).1 ≡ true)
unfolding pick_backend backends_for_model
pick_backend-MayRoute rnd allow name s b w r l on i sup may =
    let all = keep_if (supports_model name) (values s.backends) in
    let ready = filter_routable allow all in
    let there =
      (filter_routable-MayRoute allow w all).1
        (In-keep_if (supports_model name) w (values s.backends) i sup, may) in
    let (be, e, m) = pick_ready-Picks rnd name ready b w r l there in
    let (inside, ok) = (filter_routable-MayRoute allow be all).0 m in
    let (stored, serves) = keep_if-In (supports_model name) be (values s.backends) inside in
    (be, rw on e, stored, serves, ok, acquire_slot-filter_routable allow be all m)
