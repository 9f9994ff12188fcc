-- ===== src/Handlers/Reached.antt =====
-- Which requests `Forward` lets through to which backend.
use llmgateway.Prelude.{
  ℕ, ◌<◌, ◌≤◌, ◌≡◌, ◌⊎◌, inl, inr, refl, ap, List, Option, String, arith, length, map,
}
use mathlib.Core.Path.{subst}
use llmgateway.Prelude.Dict.{values}
use llmgateway.Json.{JsonPackage}
use llmgateway.Store.Backend.{Backend, release_slot, supports_model}
use llmgateway.Store.Catalog.{Store, backends_for_model}
use llmgateway.Balancer.{Balancer, uint32_mod}
use llmgateway.Handlers.Admission.{Gateway, Release, Progress, going, rejected, admit}
use llmgateway.Handlers.Screen.{
  Checked, passed, refused, Read, Target, orchestrated, direct, Screened, screen,
}
use llmgateway.Handlers.Vetted.{Vetted, IsTarget}
use llmgateway.Handlers.Gate.{screen-Vetted}
use llmgateway.Handlers.Route.{Routed, routed, unavailable}
use llmgateway.Handlers.Attempt.{Served, IsSound, length-keep_if}
use llmgateway.Handlers.Safe.{route-IsSound}
use llmgateway.Handlers.Usage.{Reply, is_success}
use llmgateway.Handlers.Forward.{
  forward_body, Setting, World, replied, finish, after_route, after_admit, serve, after_screen,
  forward,
}

length-backends_for_model :
    (name : String) (s : Store) → length (backends_for_model name s) ≤ length (values s.backends)
unfolding backends_for_model
length-backends_for_model name s = length-keep_if (supports_model name) (values s.backends)

-- The slot of a request that is routed, from whichever attempt.
either : {A B C : Type 0} → A ⊎ (B × C) → A ⊎ C
either (inl a) = inl a
either (inr (b, c)) = inr c

module _ (J : JsonPackage) (e : Setting) (s : Store) (w : World) where
  -- The request passed every check, `taken` is a backend of its model that could be routed to and
  -- had a free slot, and the slot was released behind the reply.
  pub record Reached (read : Read) (reply : Reply) (b : Backend) : Type 0 where
    pub request : Screened
    pub vetted : Vetted J e.orchestration w.key read s request
    pub candidates : List Backend
    pub aimed : request.target ≡ direct candidates
    pub taken : Backend
    pub served :
        Served e.allow_degraded candidates e.between.slot taken
        ⊎ Served e.allow_degraded (map e.between.look candidates) e.between.retry taken
    pub answered : reply ≡ e.proxy taken (forward_body J e request) request.forward_name
    pub released : b ≡ release_slot (is_success reply) (e.meanwhile taken)

  module _ (range : (n : ℕ) → 0 < n → e.random_index n < n)
      (few : length (values s.backends) < uint32_mod) (read : Read) (reply : Reply) (b : Backend)
      (t : Screened) (vetted : Vetted J e.orchestration w.key read s t) where
    after_route-Reached :
        (cs : List Backend) (rs : List Release) (first second : Option Backend)
        (r : Routed × Balancer) (g : Gateway)
        → t.target ≡ direct cs
        → IsSound e.allow_degraded e.between cs first second r.0
        → (after_route J e t rs r (record w { gateway = g })).0 ≡ replied reply b
        → Reached read reply b
    unfolding after_route finish
    after_route-Reached cs rs first second (routed taken, x) g aim sound h = record {
      request = t;
      vetted = vetted;
      candidates = cs;
      aimed = aim;
      taken = taken;
      served = either sound;
      answered = cc;
      released = cc;
    }
    after_route-Reached cs rs first second (unavailable code, x) g aim sound h = cc

    after_admit-Reached :
        (cs : List Backend) (p : Progress)
        → t.target ≡ direct cs
        → (after_admit J e t cs s p w).0 ≡ replied reply b
        → Reached read reply b
    unfolding after_admit
    after_admit-Reached cs (rejected code status g) aim h = cc
    after_admit-Reached cs (going rs g) aim h =
        let (off, on, same, some') =
          subst (IsTarget J e.orchestration s t.internal_model t.raw) aim vetted.allowed in
        let l : length cs < uint32_mod =
          omega (arith, ap length same, length-backends_for_model t.internal_model s, few) in
        after_route-Reached cs rs _ _ _ g aim
          (route-IsSound e.random_index range e.allow_degraded e.between w.key cs l e.default_policy
            t.internal_model s w.balancer)
          h

  -- `Forward` sends the reply of a backend only to a request that passed every check ahead of the
  -- admission. The backend that was asked is one of those of the request's model; it could be routed
  -- to, it had a free slot, and the slot that was taken is released behind the reply. There are fewer
  -- than 2^32 backends, and the random index lies in the range that it is asked for.
  pub forward-Reached :
      ((n : ℕ) → 0 < n → e.random_index n < n)
      → length (values s.backends) < uint32_mod
      → (read : Read) (reply : Reply) (b : Backend) → (forward J e read s w).0 ≡ replied reply b
      → Reached read reply b
  unfolding forward after_screen
  forward-Reached range few read reply b h =
      by_screen (screen J e.orchestration w.key read s) refl h
    where
      by_target :
          (t : Screened) (target : Target)
          → Vetted J e.orchestration w.key read s t
          → t.target ≡ target
          → (serve J e t s target w).0 ≡ replied reply b
          → Reached read reply b
      by_target t orchestrated v aim r = unfold serve in cc
      by_target t (direct cs) v aim r =
          after_admit-Reached range few read reply b t v cs
            (admit e.surroundings w.key t.internal_model w.gateway) aim (unfold serve in r)

      by_screen :
          (c : Checked Screened)
          → screen J e.orchestration w.key read s ≡ c
          → (after_screen J e s c w).0 ≡ replied reply b
          → Reached read reply b
      by_screen (refused status code) e1 r = cc
      by_screen (passed t) e1 r =
          by_target t t.target ((screen-Vetted J e.orchestration w.key read s t).0 e1) refl r
