-- ===== src/Handlers/Safe.antt =====
-- Which backend a request reaches.
use llmgateway.Prelude.{
  ◌∙◌, ◌≢◌, ℕ, ◌<◌, ◌≡◌, inl, inr, refl, sym, ap, Bool, List, [], ◌∷◌, Option, none, some, String,
  map, length, In, arith, Option-cases,
}
use mathlib.Core.Path.{subst}
use llmgateway.Store.Backend.{Backend, filter_routable}
use llmgateway.Store.Routable.{filter_routable-MayRoute}
use llmgateway.Store.Keys.{ApiKey}
use llmgateway.Store.Catalog.{Store}
use llmgateway.Balancer.{Policy, Balancer, Hint, choose, uint32_mod}
use llmgateway.Balancer.Members.{choose-Picks}
use llmgateway.Handlers.Route.{Between, try_slot, pick_again, pick, route, routing_policy}
use llmgateway.Handlers.Attempt.{
  Full, IsSound, chosen, chosen_again, length-filter_routable, try_slot-Served, try_slot-none,
  length-map,
}

module _ (rnd : ℕ → ℕ) (range : (n : ℕ) → 0 < n → rnd n < n) where
  choose-In :
      (b : Balancer) (name : String) (policy : Policy) (ready : List Backend) (h : Hint)
      (c : Backend)
      → length ready < uint32_mod
      → (choose rnd b name policy ready h).0 ≡ some c
      → In c ready
  choose-In b name policy [] h c l e = unfold choose in cc
  choose-In b name policy (x ∷ xs) h c l e =
      let (d, f, i) = choose-Picks rnd b name policy x xs h range l in
      let q : d ≡ c = cc in subst (λ y. In y (x ∷ xs)) q i

  choose-some :
      (b : Balancer) (name : String) (policy : Policy) (x : Backend) (xs : List Backend) (h : Hint)
      → length (x ∷ xs) < uint32_mod
      → (choose rnd b name policy (x ∷ xs) h).0 ≢ none
  choose-some b name policy x xs h l e =
      let (d, f, i) = choose-Picks rnd b name policy x xs h range l in cc

  module _ (allow : Bool) (w : Between) (k : Option ApiKey) (candidates : List Backend)
      (few : length candidates < uint32_mod) where
    -- A choice that takes no more requests.
    chosen-Full :
        (policy : Policy) (name : String) (b : Balancer) (seen : List Backend)
        (change : Backend → Backend) (c : Backend) (it : Option Backend)
        → length seen < uint32_mod
        → (chosen rnd allow k policy name b seen).0 ≡ some c
        → it ≡ some c
        → try_slot change c ≡ none
        → Full allow seen change it
    chosen-Full policy name b seen change c it l e q f =
        let small : length (filter_routable allow seen) < uint32_mod =
          omega (arith, length-filter_routable allow seen, l) in
        let i = choose-In b name policy (filter_routable allow seen) _ c small e in
        let (m, v) = (filter_routable-MayRoute allow c seen).0 i in
        record {
          backend = c;
          is_chosen = q;
          candidate = m;
          may_route = v;
          full = try_slot-none change c f;
        }

    chosen-none :
        (policy : Policy) (name : String) (b : Balancer) (seen : List Backend)
        → length seen < uint32_mod
        → (chosen rnd allow k policy name b seen).0 ≡ none
        → filter_routable allow seen ≡ []
    chosen-none policy name b seen l e = by_ready (filter_routable allow seen) refl
      where
        by_ready :
            (ready : List Backend)
            → filter_routable allow seen ≡ ready
            → filter_routable allow seen ≡ []
        by_ready [] q = q
        by_ready (x ∷ xs) q = absurd (
            choose-some b name policy x xs _
              (omega (arith, length-filter_routable allow seen, ap length q, l)) (rw q at e))

    pick_again-IsSound :
        (policy : Policy) (name : String) (b : Balancer) (first : Option Backend)
        → Full allow candidates w.slot first
        → IsSound allow w candidates first
            (chosen rnd allow k policy name b (map w.look candidates)).0
            (pick_again rnd allow w k policy name candidates b).0
    unfolding pick_again
    pick_again-IsSound policy name b first lost =
        let seen = map w.look candidates in
        let l : length seen < uint32_mod = omega (arith, length-map w.look candidates, few) in
        elim (Option-cases (chosen rnd allow k policy name b seen).0) [
          | inl e ↦ rw (pick_again, e) (inr (lost, inl (chosen-none policy name b seen l e)))
          | inr (d, e) ↦ elim (Option-cases (try_slot w.retry d)) [
            | inl f ↦
                rw (pick_again, e, f)
                  (inr (lost, inr (chosen-Full policy name b seen w.retry d (some d) l e refl f)))
            | inr (taken, f) ↦
                rw (pick_again, e, f)
                  (inr (
                    lost,
                    try_slot-Served allow seen w.retry d taken
                        (choose-In b name policy (filter_routable allow seen) _ d
                          (omega (arith, length-filter_routable allow seen, l)) e)
                        f,
                  ))
          ]
        ]

    pick-IsSound :
        (policy : Policy) (name : String) (b : Balancer) (x : Backend) (xs : List Backend)
        → filter_routable allow candidates ≡ x ∷ xs
        → IsSound allow w candidates
            (chosen rnd allow k policy name b candidates).0
            (chosen_again rnd allow w k candidates policy name b)
            (pick rnd allow w k policy name candidates (filter_routable allow candidates) b).0
    unfolding pick
    pick-IsSound policy name b x xs ready =
        let full = chosen-Full policy name b candidates w.slot in
        elim (Option-cases (chosen rnd allow k policy name b candidates).0) [
          | inl e ↦
              let clash : x ∷ xs ≡ [] = sym ready ∙ chosen-none policy name b candidates few e in cc
          | inr (d, e) ↦ elim (Option-cases (try_slot w.slot d)) [
            | inl f ↦
                rw (pick, e, f)
                  (pick_again-IsSound policy name (chosen rnd allow k policy name b candidates).1
                    (some d) (full d (some d) few e refl f))
            | inr (taken, f) ↦
                rw (pick, e, f)
                  (inl (
                    try_slot-Served allow candidates w.slot d taken
                      (choose-In b name policy (filter_routable allow candidates) _ d
                        (omega (arith, length-filter_routable allow candidates, few)) e)
                      f))
          ]
        ]

    -- Where `Forward` leaves a request behind the admission. If it is routed, it has taken a slot of one
    -- of its candidates, which could be routed to when it was chosen and was below its limit when the
    -- slot was taken; and if not at the first attempt, then because the backend that the balancer chose
    -- first was full by then. It is refused only if no candidate could be routed to, or if the backend
    -- chosen first was full when its slot was asked for and at the second attempt no candidate could
    -- be routed to any more, or the backend chosen then was full in its turn. What others do between
    -- the looks is arbitrary. There are fewer than 2^32 candidates, and the random index lies in the
    -- range that it is asked for.
    pub route-IsSound :
        (default_policy name : String) (s : Store) (b : Balancer)
        → IsSound allow w candidates
            (chosen rnd allow k (routing_policy default_policy name s) name b candidates).0
            (chosen_again rnd allow w k candidates (routing_policy default_policy name s) name b)
            (route rnd allow w k default_policy name candidates s b).0
    unfolding route
    route-IsSound default_policy name s b = by_ready (filter_routable allow candidates) refl
      where
        by_ready :
            (ready : List Backend)
            → filter_routable allow candidates ≡ ready
            → IsSound allow w candidates
                (chosen rnd allow k (routing_policy default_policy name s) name b candidates).0
                (chosen_again rnd allow w k candidates
                  (routing_policy default_policy name s)
                  name
                  b)
                (route rnd allow w k default_policy name candidates s b).0
        by_ready [] e = rw (route, e) (inl e)
        by_ready (x ∷ xs) e =
            let found = pick-IsSound (routing_policy default_policy name s) name b x xs e in
            rw (route, e) (rw e at found)
