-- ===== src/Balancer.antt =====
-- internal/balancer/balancer.go: the policies that pick one backend of the candidates. The
-- counters and the sticky map are the state; `rand.Intn` is an argument. The candidates are the
-- backends as they stand when `Choose` reads them. Indexing the empty list, which `Choose` rules
-- out before, gives `none`.
pub mod Fairness
pub mod Members
pub mod Least
pub mod Sticky
mod Tests
use Prim.Native.Nat.{bit_xor}
use llmgateway.Prelude.{
  ℕ, suc, ◌+◌, ◌-◌, ◌*◌, ◌%◌, ◌==◌, Bool, true, false, ◌&&◌, ◌||◌, List, [], ◌∷◌, Option, none,
  some, String, str_eq, str_append, ltb, length, get_elem?, if◌then◌else◌,
}
use llmgateway.Prelude.Bytes.{bytes}
use llmgateway.Prelude.Dict.{Dict, lookup, insert}
use llmgateway.Prelude.Int.{ℤ, pos, negsuc, ltb_ℤ, is_pos, add_int64, pos_part}
use llmgateway.Store.Backend.{Backend}

-- `Policy`. `other` stands for the empty string and every text that is no policy.
pub data Policy : Type 0 where
  round_robin weighted_round_robin least_connections least_latency : Policy
  random hash sticky other : Policy

pub record Balancer : Type 0 where
  pub counters : Dict ℕ
  pub sticky_map : Dict String

pub record Hint : Type 0 where
  pub api_key_id : String
  pub user : String

unfoldable pub new_balancer : Balancer
new_balancer = record { counters = []; sticky_map = [] }

abbrev pub uint64_mod : ℕ
uint64_mod = 0x1_0000_0000_0000_0000

abbrev pub uint32_mod : ℕ
uint32_mod = 0x1_0000_0000

-- The value of `counter(key)`: a new counter is 0.
unfoldable pub counter : Balancer → String → ℕ
counter b key = elim (lookup key b.counters) [ none ↦ 0 | some c ↦ c ]

-- The counter of `key` with a value written through the pointer.
unfoldable pub set_counter : String → ℕ → Balancer → Balancer
set_counter key c b = record b { counters = insert key c b.counters }

-- `atomic.AddUint64(counter, 1)`
abbrev pub add_one : ℕ → ℕ
add_one c = (c + 1) % uint64_mod

-- The weight that the loops of `chooseWeightedRR` use: a negative weight counts as 1.
unfoldable pub loop_weight : Backend → ℕ
loop_weight c = if ltb_ℤ c.weight (pos 0) then 1 else pos_part c.weight

-- The first loop.
unfoldable pub total_weight : ℤ → List Backend → ℤ
total_weight acc [] = acc
total_weight acc (c ∷ cs) = total_weight (add_int64 acc (pos (loop_weight c))) cs

-- The second loop, with `cs[len(cs)-1]` behind it: `last` is the element last passed.
unfoldable pub walk : ℕ → Option Backend → List Backend → Option Backend
walk target last [] = last
walk target last (c ∷ cs) =
    let w = loop_weight c in
    let skip = walk target (some c) cs in
    let rest = walk (target - w) (some c) cs in
    if w == 0 then skip else if ltb target w then some c else rest

-- `chooseWeightedRR(cs, counter)`: the backend, and the counter afterwards. `idx` is the value
-- before the increment.
unfoldable pub choose_weighted_rr : List Backend → ℕ → Option Backend × ℕ
choose_weighted_rr cs c =
    let total = total_weight (pos 0) cs in
    if is_pos total then (walk (c % pos_part total) none cs, add_one c) else (get_elem? cs 0, c)

-- The loop of `chooseLeast`.
unfoldable pub least : Option Backend → ℤ → List Backend → Option Backend
least best best_active [] = best
least none best_active (c ∷ cs) = least (some c) c.active_requests cs
least (some b) best_active (c ∷ cs) =
    let less = ltb_ℤ c.active_requests best_active in
    least (some (if less then c else b)) (if less then c.active_requests else best_active) cs

unfoldable pub choose_least : List Backend → Option Backend
unfolding least
choose_least cs = least none (negsuc 0) cs

-- The test of `chooseLeastLatency` past its first round: a latency of 0 was never measured.
unfoldable pub is_better : ℤ → ℤ → Bool
is_better lat best_lat = is_pos lat && (ltb_ℤ best_lat (pos 0) || ltb_ℤ lat best_lat)

-- The loop of `chooseLeastLatency`.
unfoldable pub least_lat : Option Backend → ℤ → List Backend → Option Backend
unfolding is_better
least_lat best best_lat [] = best
least_lat none best_lat (c ∷ cs) =
    let lat = c.last_latency_ms in least_lat (some c) (if is_pos lat then lat else best_lat) cs
least_lat (some b) best_lat (c ∷ cs) =
    let lat = c.last_latency_ms in
    let better = is_better lat best_lat in
    least_lat (some (if better then c else b)) (if better then lat else best_lat) cs

unfoldable pub choose_least_latency : List Backend → Option Backend
unfolding least_lat
choose_least_latency cs = least_lat none (negsuc 0) cs

-- `hash/fnv` `New32a`: the sum of the bytes.
unfoldable pub fnv32a : ℕ → List ℕ → ℕ
fnv32a h [] = h
fnv32a h (b ∷ bs) = fnv32a (bit_xor h b * 16777619 % uint32_mod) bs

unfoldable pub choose_hash : List Backend → Hint → Option Backend
unfolding fnv32a bytes
choose_hash cs hint =
    let key = str_append hint.api_key_id (str_append "|" hint.user) in
    if str_eq key "|"
    then get_elem? cs 0
    else get_elem? cs (fnv32a 2166136261 (bytes key) % (length cs % uint32_mod))

-- The loop of `chooseSticky` over the candidates.
unfoldable pub find_id : String → List Backend → Option Backend
find_id id [] = none
find_id id (c ∷ cs) = if str_eq c.id id then some c else find_id id cs

-- `chooseWeightedRR(cs, b.counter(model))`
unfoldable pub weighted : Balancer → String → List Backend → Option Backend × Balancer
weighted b model cs =
    let (picked, c) = choose_weighted_rr cs (counter b model) in (picked, set_counter model c b)

unfoldable pub remember : String → Option Backend × Balancer → Option Backend × Balancer
remember key (none, b) = (none, b)
remember key (some c, b) = (some c, record b { sticky_map = insert key c.id b.sticky_map })

abbrev pub sticky_key : String → Hint → String
sticky_key model hint = str_append model (str_append "|" hint.api_key_id)

-- The candidate that the sticky map names, if it is still there.
unfoldable pub sticky_hit : Balancer → String → List Backend → Option Backend
sticky_hit b key cs = elim (lookup key b.sticky_map) [ none ↦ none | some id ↦ find_id id cs ]

unfoldable pub choose_sticky : Balancer → String → List Backend → Hint → Option Backend × Balancer
unfolding weighted remember sticky_hit
choose_sticky b model cs hint =
    if str_eq hint.api_key_id ""
    then weighted b model cs
    else elim (sticky_hit b (sticky_key model hint) cs) [
      | some c ↦ (some c, b)
      | none ↦ remember (sticky_key model hint) (weighted b model cs)
    ]

-- The `switch` of `Choose`, for two candidates or more.
unfoldable pub choose_by :
    (ℕ → ℕ) → Balancer → String → Policy → List Backend → Hint → Option Backend × Balancer
choose_by rnd b model random cs hint = (get_elem? cs (rnd (length cs)), b)
choose_by rnd b model least_connections cs hint = (choose_least cs, b)
choose_by rnd b model least_latency cs hint = (choose_least_latency cs, b)
choose_by rnd b model round_robin cs hint =
    let c = counter b model in (get_elem? cs (c % length cs), set_counter model (add_one c) b)
choose_by rnd b model hash cs hint = (choose_hash cs hint, b)
choose_by rnd b model sticky cs hint = choose_sticky b model cs hint
choose_by rnd b model weighted_round_robin cs hint = weighted b model cs
choose_by rnd b model other cs hint = weighted b model cs

-- `Choose(model, policy, candidates, hint)`: the backend, or nil, and the new state.
unfoldable pub choose :
    (ℕ → ℕ) → Balancer → String → Policy → List Backend → Hint → Option Backend × Balancer
choose rnd b model policy [] hint = (none, b)
choose rnd b model policy (c ∷ []) hint = (some c, b)
choose rnd b model policy (c ∷ d ∷ cs) hint = choose_by rnd b model policy (c ∷ d ∷ cs) hint
