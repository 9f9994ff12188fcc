-- ===== src/Balancer/Fairness.antt =====
-- The share of each backend under `chooseWeightedRR`.
use llmgateway.Prelude.{
  ℕ, zero, suc, ◌+◌, ◌-◌, ◌*◌, ◌%◌, ◌<◌, ◌≡◌, refl, ap, ◌∙◌, List, [], ◌∷◌, Option, none, some,
  String, str_eq, arith, if◌then◌else◌,
}
use llmgateway.Prelude.Int.{pos, int64_half, add_int64-pos}
use llmgateway.Prelude.Tally.{tally, tally-cong, tally-add, tally_const, tally-mod}
use llmgateway.Store.Backend.{Backend}
use llmgateway.Balancer.{loop_weight, total_weight, walk, choose_weighted_rr, uint64_mod}

-- 1 if the choice is the backend with this id, else 0.
unfoldable pub hit : String → Option Backend → ℕ
hit id none = 0
hit id (some c) = if str_eq c.id id then 1 else 0

-- The number of times that `n` calls of `chooseWeightedRR` in a row, from a counter, pick `id`.
unfoldable pub times_picked : ℕ → String → List Backend → ℕ → ℕ
times_picked zero id cs c = 0
times_picked (suc n) id cs c =
    let (picked, c') = choose_weighted_rr cs c in hit id picked + times_picked n id cs c'

-- The sum of the weights, and the weight of the backends with an id.
unfoldable pub sum_weights : List Backend → ℕ
sum_weights [] = 0
sum_weights (c ∷ cs) = loop_weight c + sum_weights cs

unfoldable pub weight_of : String → List Backend → ℕ
weight_of id [] = 0
weight_of id (c ∷ cs) = loop_weight c * hit id (some c) + weight_of id cs

total_weight-sum :
    (a : ℕ) (cs : List Backend)
    → a + sum_weights cs < int64_half
    → total_weight (pos a) cs ≡ pos (a + sum_weights cs)
unfolding total_weight sum_weights
total_weight-sum a [] h = ap pos (omega arith)
total_weight-sum a (c ∷ cs) h =
    rw (add_int64-pos a (loop_weight c) (omega arith))
      (total_weight-sum (a + loop_weight c) cs (omega arith) ∙ ap pos (omega arith))

-- The walk passes a backend once the target is past its weight.
walk_past :
    (c : Backend) (cs : List Backend) (last : Option Backend) (t : ℕ)
    → walk (loop_weight c + t) last (c ∷ cs) ≡ walk t (some c) cs
unfolding walk
walk_past c cs last t =
    let e : loop_weight c + t - loop_weight c ≡ t = omega arith in
    let z = λ (h : loop_weight c ≡ 0).
      ap (λ k. walk k (some c) cs) {x = loop_weight c + t} {y = t} (omega arith) in
    ground (arith, e, z)

walk_here :
    (c : Backend) (cs : List Backend) (last : Option Backend) (t : ℕ)
    → t < loop_weight c
    → walk t last (c ∷ cs) ≡ some c
unfolding walk
walk_here c cs last t h = ground arith

-- Over the targets below the total, each backend is met as often as its weight says.
tally-walk :
    (id : String) (cs : List Backend) (last : Option Backend)
    → tally (λ t. hit id (walk t last cs)) 0 (sum_weights cs) ≡ weight_of id cs
unfolding sum_weights weight_of
tally-walk id [] last = unfold tally in refl
tally-walk id (c ∷ cs) last =
    tally-add _ 0 (loop_weight c) (sum_weights cs)
    ∙ ap₂_add
        (tally_const _ (hit id (some c)) 0 (loop_weight c)
          (λ k lt. ap (hit id) (walk_here c cs last (0 + k) (omega arith))))
        (tally-cong _ (λ t. hit id (walk t (some c) cs)) (0 + loop_weight c) 0 (sum_weights cs)
            (λ k lt. ap (hit id) (shift k))
          ∙ tally-walk id cs (some c))
  where
    shift : (k : ℕ) → walk (0 + loop_weight c + k) last (c ∷ cs) ≡ walk (0 + k) (some c) cs
    shift k =
        let e : 0 + loop_weight c + k ≡ loop_weight c + (0 + k) = omega arith in
        ap (λ t. walk t last (c ∷ cs)) e ∙ walk_past c cs last (0 + k)

    ap₂_add : {a b x y : ℕ} → a ≡ x → b ≡ y → a + b ≡ x + y
    ap₂_add p q = omega arith

choose_weighted_rr-walk :
    (cs : List Backend) (c : ℕ)
    → 0 < sum_weights cs
    → sum_weights cs < int64_half
    → suc c < uint64_mod
    → choose_weighted_rr cs c ≡ (walk (c % sum_weights cs) none cs, c + 1)
unfolding choose_weighted_rr
choose_weighted_rr-walk cs c p h w =
    let e = total_weight-sum 0 cs (omega arith) in
    let z : 0 + sum_weights cs ≡ sum_weights cs = omega arith in rw (e, z) (ground arith)

times_picked-tally :
    (n : ℕ) (id : String) (cs : List Backend) (c : ℕ)
    → 0 < sum_weights cs
    → sum_weights cs < int64_half
    → c + n < uint64_mod
    → times_picked n id cs c ≡ tally (λ t. hit id (walk (t % sum_weights cs) none cs)) c n
unfolding times_picked tally
times_picked-tally zero id cs c p h w = refl
times_picked-tally (suc n) id cs c p h w = rw (choose_weighted_rr-walk cs c p h (omega arith)) (
    ap (λ r. hit id (walk (c % sum_weights cs) none cs) + r)
      (times_picked-tally n id cs (c + 1) p h (omega arith)))

-- Weighted round robin is exactly fair, for one list of candidates in one order: as many calls in a
-- row with this list as its weights add up to, from any counter, pick the backends of each id exactly as often as their weights (a negative one counted
-- as 1) add up to. The total is positive and below 2^63, and the counter does not wrap meanwhile.
pub times_picked-weight_of :
    (id : String) (cs : List Backend) (c : ℕ)
    → 0 < sum_weights cs
    → sum_weights cs < int64_half
    → c + sum_weights cs < uint64_mod
    → times_picked (sum_weights cs) id cs c ≡ weight_of id cs
times_picked-weight_of id cs c p h w =
    times_picked-tally (sum_weights cs) id cs c p h w
    ∙ tally-mod (λ t. hit id (walk t none cs)) (sum_weights cs) c
    ∙ tally-walk id cs none
