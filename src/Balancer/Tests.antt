-- ===== src/Balancer/Tests.antt =====
-- Runs of the balancer's theorems on a few backends.
use llmgateway.Prelude.{◌≡◌, refl, [], ◌∷◌, some, arith, ne_str_eq}
use llmgateway.Prelude.Int.{pos, add_int64}
use llmgateway.Prelude.Dict.{lookup}
use llmgateway.Store.Backend.{Backend}
use llmgateway.Store.Samples.{a_backend}
use llmgateway.Balancer.{
  Hint, new_balancer, choose_weighted_rr, total_weight, walk, counter, find_id, loop_weight,
  choose_sticky, sticky, choose, choose_by,
}
use llmgateway.Balancer.Fairness.{hit, times_picked, sum_weights, weight_of, times_picked-weight_of}
use llmgateway.Balancer.Sticky.{ChooseCall, choose_run, choose-choose_run}

abbrev one : Backend
one = record a_backend { weight = pos 2; last_latency_ms = pos 9 }

abbrev two : Backend
two = record a_backend { id = "b2"; active_requests = pos 1; last_latency_ms = pos 4 }

abbrev by_client : Hint
by_client = record { api_key_id = "k1"; user = "" }

times_picked-weight_of_example : times_picked 3 "b1" (one ∷ two ∷ []) 5 ≡ 2
unfolding sum_weights weight_of loop_weight hit
times_picked-weight_of_example =
    times_picked-weight_of "b1" (one ∷ two ∷ []) 5 (omega arith) (omega arith) (omega arith)

-- A call of another client between the two.
abbrev between : ChooseCall
between = record {
  random_index = λ n. 0;
  model = "m";
  policy = sticky;
  candidates = two ∷ one ∷ [];
  hint = record { api_key_id = "k2"; user = "" };
}

choose-choose_run_example :
    let b' =
      choose_run
        (between ∷ [])
        (choose (λ n. 0) new_balancer "m" sticky (one ∷ two ∷ []) by_client).1 in
    (choose (λ n. 0) b' "m" sticky (two ∷ one ∷ []) by_client ≡ (some one, b')) × (one.id ≡ one.id)
unfolding lookup new_balancer choose_weighted_rr total_weight add_int64 loop_weight walk counter
    find_id
choose-choose_run_example =
    choose-choose_run (λ n. 0) (λ n. 0) new_balancer "m" one two [] (two ∷ one ∷ []) by_client one
      one (between ∷ []) (ne_str_eq "k1" "" refl) (unfold choose choose_by choose_sticky in refl)
      (ne_str_eq "m|k2" "m|k1" refl, tt) refl
