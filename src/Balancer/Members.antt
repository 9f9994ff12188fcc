-- ===== src/Balancer/Members.antt =====
-- Every policy picks one of the candidates.
use llmgateway.Prelude.{
  ℕ, zero, suc, ◌-◌, ◌%◌, ◌<◌, ◌≡◌, refl, inl, inr, List, [], ◌∷◌, Option, none, some, String,
  str_eq, str_append, ltb, arith, ◌==◌, length, get_elem?, In, Bool-cases, Option-cases,
}
use native.Mathlib.Nat.{mod-lt}
use llmgateway.Prelude.Dict.{lookup}
use llmgateway.Prelude.Int.{ℤ, pos, ltb_ℤ, is_pos, pos_part}
use llmgateway.Store.Backend.{Backend}
use llmgateway.Balancer.{
  Balancer, Policy, Hint, random, least_connections, least_latency, round_robin, hash, sticky,
  weighted_round_robin, other, loop_weight, total_weight, is_better, walk, choose_weighted_rr,
  least, choose_least, least_lat, choose_least_latency, choose_hash, find_id, weighted, remember,
  sticky_hit, choose_sticky, choose_by, choose, uint32_mod, sticky_key, counter,
}

-- The choice is made, and is one of the candidates.
abbrev pub Picks : List Backend → Option Backend → Type 0
Picks cs o = (b : Backend) × (o ≡ some b) × In b cs

get_elem?-Picks : (cs : List Backend) (i : ℕ) → i < length cs → Picks cs (get_elem? cs i)
get_elem?-Picks [] i h = elim h [ ]
get_elem?-Picks (c ∷ cs) zero h = (c, refl, inl refl)
get_elem?-Picks (c ∷ cs) (suc i) h =
    let (b, e, m) = get_elem?-Picks cs i (omega arith) in (b, e, inr m)

-- The walk ends at the element before it, or at one that it passes.
walk-Picks : (t : ℕ) (x : Backend) (cs : List Backend) → Picks (x ∷ cs) (walk t (some x) cs)
unfolding walk
walk-Picks t x [] = (x, refl, inl refl)
walk-Picks t x (c ∷ cs) =
    let (b, e, m) = walk-Picks t c cs in
    let (b', e', m') = walk-Picks (t - loop_weight c) c cs in
    elim (Bool-cases (loop_weight c == 0)) [
      | inl z ↦ (b, rw (z, walk) e, inr m)
      | inr z ↦ elim (Bool-cases (ltb t (loop_weight c))) [
        | inl l ↦ (c, rw (z, l, walk) refl, inr (inl refl))
        | inr l ↦ (b', rw (z, l, walk) e', inr m')
      ]
    ]

walk-Picks-none : (t : ℕ) (c : Backend) (cs : List Backend) → Picks (c ∷ cs) (walk t none (c ∷ cs))
unfolding walk
walk-Picks-none t c cs =
    let (b, e, m) = walk-Picks t c cs in
    let (b', e', m') = walk-Picks (t - loop_weight c) c cs in
    elim (Bool-cases (loop_weight c == 0)) [
      | inl z ↦ (b, rw (z, walk) e, m)
      | inr z ↦ elim (Bool-cases (ltb t (loop_weight c))) [
        | inl l ↦ (c, rw (z, l, walk) refl, inl refl)
        | inr l ↦ (b', rw (z, l, walk) e', m')
      ]
    ]

choose_weighted_rr-Picks :
    (c : Backend) (cs : List Backend) (n : ℕ) → Picks (c ∷ cs) (choose_weighted_rr (c ∷ cs) n).0
unfolding choose_weighted_rr
choose_weighted_rr-Picks c cs n = elim (Bool-cases (is_pos (total_weight (pos 0) (c ∷ cs)))) [
  | inl p ↦
      let (b, e, m) = walk-Picks-none (n % pos_part (total_weight (pos 0) (c ∷ cs))) c cs in
      (b, rw p e, m)
  | inr p ↦ (c, rw p refl, inl refl)
]

least-Picks : (x : Backend) (a : ℤ) (cs : List Backend) → Picks (x ∷ cs) (least (some x) a cs)
unfolding least
least-Picks x a [] = (x, refl, inl refl)
least-Picks x a (c ∷ cs) = elim (Bool-cases (ltb_ℤ c.active_requests a)) [
  | inl l ↦ let (b, e, m) = least-Picks c c.active_requests cs in (b, rw l e, inr m)
  | inr l ↦ let (b, e, m) = least-Picks x a cs in (b, rw l e, ground arith)
]

least_lat-Picks :
    (x : Backend) (a : ℤ) (cs : List Backend) → Picks (x ∷ cs) (least_lat (some x) a cs)
unfolding least_lat
least_lat-Picks x a [] = (x, refl, inl refl)
least_lat-Picks x a (c ∷ cs) = elim (Bool-cases (is_better c.last_latency_ms a)) [
  | inl l ↦ let (b, e, m) = least_lat-Picks c c.last_latency_ms cs in (b, rw l e, inr m)
  | inr l ↦ let (b, e, m) = least_lat-Picks x a cs in (b, rw l e, ground arith)
]

find_id-Picks : (id : String) (cs : List Backend) (b : Backend) → find_id id cs ≡ some b → In b cs
unfolding find_id
find_id-Picks id [] b h = cc
find_id-Picks id (c ∷ cs) b h = ground (arith, find_id-Picks id cs b)

weighted-Picks :
    (b : Balancer) (model : String) (c : Backend) (cs : List Backend)
    → Picks (c ∷ cs) (weighted b model (c ∷ cs)).0
unfolding weighted
weighted-Picks b model c cs = choose_weighted_rr-Picks c cs (counter b model)

sticky_hit-In :
    (b : Balancer) (key : String) (cs : List Backend) (c : Backend)
    → sticky_hit b key cs ≡ some c
    → In c cs
unfolding sticky_hit
sticky_hit-In b key cs c h = elim (Option-cases (lookup key b.sticky_map)) [
  | inl e ↦ ground (arith, e)
  | inr (id, e) ↦ find_id-Picks id cs c (rw (e, sticky_hit) at h)
]

remember-fst : (key : String) (r : Option Backend × Balancer) → (remember key r).0 ≡ r.0
unfolding remember
remember-fst key (none, b) = refl
remember-fst key (some c, b) = refl

choose_sticky-Picks :
    (b : Balancer) (model : String) (c : Backend) (cs : List Backend) (h : Hint)
    → Picks (c ∷ cs) (choose_sticky b model (c ∷ cs) h).0
unfolding choose_sticky
choose_sticky-Picks b model c cs h = elim (Bool-cases (str_eq h.api_key_id "")) [
  | inl e ↦ rw e (weighted-Picks b model c cs)
  | inr e ↦ elim (Option-cases (sticky_hit b (sticky_key model h) (c ∷ cs))) [
    | inl n ↦ rw (e, n, choose_sticky, remember-fst) (weighted-Picks b model c cs)
    | inr (d, s) ↦ rw (e, s, choose_sticky) (d, refl, sticky_hit-In b _ (c ∷ cs) d s)
  ]
]

index_in : (x : ℕ) {n : ℕ} → suc n < uint32_mod → x % (suc n % uint32_mod) < suc n
index_in x {n} l =
    let e : suc n % uint32_mod ≡ suc n = omega arith in rw e (mod-lt x {m = suc n} (omega arith))

choose_hash-Picks :
    (c : Backend) (cs : List Backend) (h : Hint)
    → suc (length cs) < uint32_mod
    → Picks (c ∷ cs) (choose_hash (c ∷ cs) h)
unfolding choose_hash
choose_hash-Picks c cs h l =
    elim (Bool-cases (str_eq (str_append h.api_key_id (str_append "|" h.user)) "|")) [
      | inl e ↦ rw e (c, refl, inl refl)
      | inr e ↦ rw e (get_elem?-Picks (c ∷ cs) _ (index_in _ l))
    ]

choose_by-Picks :
    (rnd : ℕ → ℕ) (b : Balancer) (model : String) (p : Policy) (c : Backend) (cs : List Backend)
    (h : Hint)
    → ((n : ℕ) → 0 < n → rnd n < n)
    → suc (length cs) < uint32_mod
    → Picks (c ∷ cs) (choose_by rnd b model p (c ∷ cs) h).0
unfolding choose_by choose_least choose_least_latency least least_lat
choose_by-Picks rnd b model random c cs h r l =
    get_elem?-Picks (c ∷ cs) _ (r (suc (length cs)) (omega arith))
choose_by-Picks rnd b model least_connections c cs h r l = least-Picks c c.active_requests cs
choose_by-Picks rnd b model least_latency c cs h r l = least_lat-Picks c _ cs
choose_by-Picks rnd b model round_robin c cs h r l =
    get_elem?-Picks (c ∷ cs) _ (mod-lt _ {m = suc (length cs)} (omega arith))
choose_by-Picks rnd b model hash c cs h r l = choose_hash-Picks c cs h l
choose_by-Picks rnd b model sticky c cs h r l = choose_sticky-Picks b model c cs h
choose_by-Picks rnd b model weighted_round_robin c cs h r l = weighted-Picks b model c cs
choose_by-Picks rnd b model other c cs h r l = weighted-Picks b model c cs

-- `Choose` under every policy picks a backend, and one of its candidates, where there are any
-- candidates and fewer than 2^32. The random index lies in the range that it is asked for.
pub choose-Picks :
    (rnd : ℕ → ℕ) (b : Balancer) (model : String) (p : Policy) (c : Backend) (cs : List Backend)
    (h : Hint)
    → ((n : ℕ) → 0 < n → rnd n < n)
    → suc (length cs) < uint32_mod
    → Picks (c ∷ cs) (choose rnd b model p (c ∷ cs) h).0
unfolding choose
choose-Picks rnd b model p c [] h r l = (c, refl, inl refl)
choose-Picks rnd b model p c (d ∷ cs) h r l = choose_by-Picks rnd b model p c (d ∷ cs) h r l
