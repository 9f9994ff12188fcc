-- ===== src/Handlers/Whole.antt =====
-- `Forward` as a whole: it leaks nothing, and it reaches only a backend that it may reach.
use llmgateway.Prelude.{inl, inr, refl, ap, ◌∙◌, List, Bool-cases}
use llmgateway.Prelude.Dict.{lookup}
use llmgateway.Codes.{is_quota_code}
use llmgateway.Json.{JsonPackage}
use llmgateway.Store.Backend.{Backend}
use llmgateway.Store.Catalog.{Store}
use llmgateway.Handlers.Admission.{
  Gateway, Release, do_release, Progress, going, rejected, count_hit,
}
use llmgateway.Handlers.Holdings.{queue_places, Same, InRange, Untouched}
use llmgateway.Handlers.Leaks.{Returned, do_release-cong, admit-Returned}
use llmgateway.Handlers.Screen.{
  Checked, passed, refused, Read, Target, orchestrated, direct, Screened, screen,
}
use llmgateway.Handlers.Route.{Routed, routed, unavailable}
use llmgateway.Handlers.Usage.{Account}
use llmgateway.Handlers.Accounting.{account_for-Untouched}
use llmgateway.Handlers.Forward.{
  Setting, World, count_rejection, forward_body, finish, after_route, after_admit, serve,
  after_screen, forward,
}
use llmgateway.Balancer.{Balancer}

-- What `do_release` restores, it restores of an untouched gateway too.
do_release-Same :
    (f g h : Gateway) (rs : List Release)
    → Same f (do_release rs g)
    → Untouched g h
    → Same f (do_release rs h)
do_release-Same f g h rs s u =
    let (c, q) = do_release-cong rs g h u.concurrency u.queue in
    record {
      flights = λ key. ap (lookup key) c ∙ s.flights key;
      waiting = λ id. ap (queue_places id) q ∙ s.waiting id;
    }

Same-refl : (g : Gateway) → Same g g
Same-refl g = record { flights = λ key. refl; waiting = λ id. refl }

module _ (J : JsonPackage) (e : Setting) (s : Store) (w : World) (v : InRange w.gateway) where
  after_route-Same :
      (t : Screened) (rs : List Release) (r : Routed × Balancer) (g : Gateway)
      → Same w.gateway (do_release rs g)
      → Same w.gateway (after_route J e t rs r (record w { gateway = g })).1.gateway
  unfolding after_route finish
  after_route-Same t rs (routed taken, b) g h =
      let reply = e.proxy taken (forward_body J e t) t.forward_name in
      let a : Account = record { gateway = g; key = w.key } in
      do_release-Same w.gateway g _ rs h (account_for-Untouched J e.clock t.raw reply a)
  after_route-Same t rs (unavailable code, b) g h = h

  after_admit-Same :
      (t : Screened) (cs : List Backend) (p : Progress)
      → Returned w.gateway p
      → Same w.gateway (after_admit J e t cs s p w).1.gateway
  unfolding after_admit
  after_admit-Same t cs (going rs g) h = after_route-Same t rs _ g h
  after_admit-Same t cs (rejected code status g) h = elim (Bool-cases (is_quota_code code)) [
    | inl q ↦
        rw (after_admit, count_rejection, q)
          (unfold count_hit in record { flights = h.flights; waiting = h.waiting })
    | inr q ↦ rw (after_admit, count_rejection, q) h
  ]

  after_screen-Same : (c : Checked Screened) → Same w.gateway (after_screen J e s c w).1.gateway
  unfolding after_screen serve
  after_screen-Same (refused status code) = Same-refl w.gateway
  after_screen-Same (passed t) = by_target t.target
    where
      by_target : (target : Target) → Same w.gateway (serve J e t s target w).1.gateway
      by_target orchestrated = Same-refl w.gateway
      by_target (direct cs) =
          after_admit-Same t cs _ (admit-Returned e.surroundings w.key t.internal_model w.gateway v)

  -- A call of `Forward` leaks nothing, however it ends: refused by a check, rejected by `admit`,
  -- without a backend, or with a reply of the backend, whatever that reply is. The requests in
  -- flight of every key and the places of every queue are afterwards what they were before. The
  -- counters have to be in the range that the calls of the components keep them in.
  pub forward-Same : (read : Read) → Same w.gateway (forward J e read s w).1.gateway
  unfolding forward
  forward-Same read = after_screen-Same (screen J e.orchestration w.key read s)
