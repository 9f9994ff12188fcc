-- ===== src/Handlers/Attempt.antt =====
-- The two attempts to get a backend for a request: what is chosen, and how an attempt ends.
use llmgateway.Handlers.Admission.{api_key_id}
use llmgateway.Prelude.{
  suc, keep_if, ℕ, ◌≤◌, ◌≡◌, ◌⊎◌, refl, ap, Bool, true, false, List, [], ◌∷◌, Option, none, some,
  String, map, length, In, arith,
}
use llmgateway.Store.Backend.{Backend, filter_routable, acquire_slot, is_routable}
use llmgateway.Store.Routable.{MayRoute, filter_routable-MayRoute}
use llmgateway.Store.Keys.{ApiKey}
use llmgateway.Balancer.{Policy, Balancer, choose}
use llmgateway.Handlers.Route.{Between, Routed, routed, unavailable, try_slot}

-- The candidates, seen through `look`, held `c`; it could be routed to, and its slot was free when
-- it was taken.
pub record Served (allow : Bool) (seen : List Backend) (change : Backend → Backend)
    (taken : Backend) : Type 0 where
  pub backend : Backend
  pub candidate : In backend seen
  pub may_route : MayRoute allow backend
  pub free : (acquire_slot (change backend)).1 ≡ true
  pub slot : taken ≡ (acquire_slot (change backend)).0

-- A backend that was chosen, which could be routed to, took no more requests when its slot was asked
-- for.
pub record Full (allow : Bool) (seen : List Backend) (change : Backend → Backend)
    (chosen : Option Backend) : Type 0 where
  pub backend : Backend
  pub is_chosen : chosen ≡ some backend
  pub candidate : In backend seen
  pub may_route : MayRoute allow backend
  pub full : (acquire_slot (change backend)).1 ≡ false

-- Where routing leaves a request, with the choices of the first and of the second attempt. The second
-- attempt is made if the backend of the first was full; and the request is refused only if no
-- candidate could be routed to, or if both attempts failed.
abbrev pub IsSound :
    Bool → Between → List Backend → Option Backend → Option Backend → Routed → Type 0
IsSound allow w candidates first second (routed taken) =
    Served allow candidates w.slot taken
    ⊎ (Full allow candidates w.slot first × Served allow (map w.look candidates) w.retry taken)
IsSound allow w candidates first second (unavailable code) =
    (filter_routable allow candidates ≡ [])
    ⊎ (Full allow candidates w.slot first
        × ((filter_routable allow (map w.look candidates) ≡ [])
            ⊎ Full allow (map w.look candidates) w.retry second))

pub length-keep_if : (p : Backend → Bool) (cs : List Backend) → length (keep_if p cs) ≤ length cs
unfolding keep_if
length-keep_if p [] = omega arith
length-keep_if p (c ∷ cs) = let rest = length-keep_if p cs in ground (arith, rest)

pub length-filter_routable :
    (allow : Bool) (cs : List Backend) → length (filter_routable allow cs) ≤ length cs
unfolding filter_routable
length-filter_routable allow cs = length-keep_if (is_routable allow) cs

-- A look at a backend that gets its slot.
pub try_slot-Served :
    (allow : Bool) (seen : List Backend) (change : Backend → Backend) (c taken : Backend)
    → In c (filter_routable allow seen)
    → try_slot change c ≡ some taken
    → Served allow seen change taken
unfolding try_slot
try_slot-Served allow seen change c taken i h =
    let (m, v) = (filter_routable-MayRoute allow c seen).0 i in
    record {
      backend = c;
      candidate = m;
      may_route = v;
      free = ground (arith, h);
      slot = ground (arith, h);
    }

pub try_slot-none :
    (change : Backend → Backend) (c : Backend)
    → try_slot change c ≡ none
    → (acquire_slot (change c)).1 ≡ false
unfolding try_slot
try_slot-none change c h = ground (arith, h)

pub length-map : (f : Backend → Backend) (cs : List Backend) → length (map f cs) ≡ length cs
length-map f [] = refl
length-map f (c ∷ cs) = ap suc (length-map f cs)

-- The choice of an attempt.
abbrev pub chosen :
    (ℕ → ℕ)
    → Bool
    → Option ApiKey
    → Policy
    → String
    → Balancer
    → List Backend
    → Option Backend × Balancer
chosen rnd allow k policy name b seen =
    choose rnd b name policy (filter_routable allow seen)
      (record { api_key_id = api_key_id k; user = "" })

-- The choice of the second attempt, behind that of the first.
abbrev pub chosen_again :
    (ℕ → ℕ)
    → Bool
    → Between
    → Option ApiKey
    → List Backend
    → Policy
    → String
    → Balancer
    → Option Backend
chosen_again rnd allow w k candidates policy name b =
    (chosen rnd allow k policy name (chosen rnd allow k policy name b candidates).1
      (map w.look candidates)).0
