-- ===== src/Orchestrator/Tests.antt =====
-- A run of a small pool, with numbers in the place of the floating-point ones.
use llmgateway.Prelude.{
  ne_str_eq, ℕ, ◌+◌, ◌-◌, ◌*◌, ◌==◌, ◌≤◌, ◌≡◌, ◌≢◌, ◌⊎◌, refl, inl, inr, Bool, true, false, List,
  [], ◌∷◌, Option, none, some, length, All, In, ltb, keep_if, any, arith,
}
use llmgateway.Prelude.Int.{pos, ◌≤ℤ◌, ◌<ℤ◌}
use llmgateway.Orchestrator.{
  Floats, Worker, task_score, select_worker, solver_of, eligible_workers, verify_score, argmax,
}
use llmgateway.Prelude.Dict.{lookup, values}
use llmgateway.Store.Backend.{Backend, supports_model, filter_routable, acquire_slot}
use llmgateway.Store.Routable.{MayRoute}
use llmgateway.Store.Catalog.{Store, model, backends_for_model}
use llmgateway.Store.Samples.{a_backend, a_key}
use llmgateway.Balancer.{new_balancer}
use llmgateway.Orchestrator.Pick.{is_disabled, pick_backend, pick_backend-MayRoute}
use llmgateway.Orchestrator.Conductor.{
  role_worker, role_verifier, Completion, Asked, Run, GenParams, ChatMessage, budget_of, conduct,
  start_run, run_conductor,
}
use llmgateway.Orchestrator.Promises.{
  run_conductor-budget, run_conductor-eligible, run_conductor-verifier,
}

gt_trans : (x y z : ℕ) → ltb y x ≡ true → ltb z y ≡ true → ltb z x ≡ true
gt_trans x y z g h = ground arith

gt_irrefl : (x : ℕ) → ltb x x ≡ false
gt_irrefl x = ground arith

abbrev toy : Floats
toy = record {
  Carrier = ℕ;
  add = λ x y. x + y;
  sub = λ x y. x - y;
  mul = λ x y. x * y;
  gt = λ x y. ltb y x;
  is_nought = λ x. x == 0;
  half = 50;
  one = 100;
  lowest = 0;
  gt_trans = gt_trans;
  gt_irrefl = gt_irrefl;
}

abbrev coder : Worker toy
coder = record {
  id = "coder";
  model = "m1";
  tasks = "Code" ∷ [];
  strength = 60;
  cost = 5;
  secret_max_level = pos 0;
  tags = [];
}

abbrev cloud : Worker toy
cloud = record {
  id = "cloud";
  model = "m2";
  tasks = "verify" ∷ [];
  strength = 90;
  cost = 1;
  secret_max_level = pos 2;
  tags = [];
}

abbrev pool : List (Worker toy)
pool = coder ∷ cloud ∷ []

abbrev plain : GenParams toy
plain = record { temperature = none; top_p = none; max_tokens = some (pos 100) }

abbrev hello : List ChatMessage
hello = record { role = "user"; content = "hello" } ∷ []

-- Every call is answered, by its number only.
abbrev answers : ℕ → Asked toy → Option Completion
answers n a = some (record {
  text = "text";
  usage = record {
    prompt_tokens = pos 1;
    completion_tokens = pos 2;
    total_tokens = pos 3;
    reasoning_tokens = pos 0;
  };
  worker_id = a.worker.id;
  model = a.worker.model;
  backend_id = "b1";
  latency_ms = pos n;
})

run_conductor-budget_example :
    (r : Run toy × Bool) × (run_conductor toy answers (pos 3) 1 hello plain pool "code" 80 false
      ≡ some r)
    × (pos (length r.0.asked) ≤ℤ budget_of (pos 3))
    × (length r.0.asked ≤ 4)
unfolding task_score any
run_conductor-budget_example =
    run_conductor-budget toy answers (pos 3) 1 hello plain "code" 80 false coder (cloud ∷ []) refl

-- The run at level 1, in which the coder thinks, drafts and synthesizes.
abbrev run_1 : Run toy × Bool
unfolding conduct
run_1 =
    conduct toy answers (pos 5) 1 hello plain (eligible_workers toy (pos 1) pool) coder
      (start_run toy "code" 80 false)

ran :
    run_conductor toy answers
      (pos 5)
      1
      hello
      plain
      (eligible_workers toy (pos 1) pool)
      "code"
      80
      false
    ≡ some run_1
unfolding run_conductor solver_of select_worker task_score argmax eligible_workers keep_if any
ran = refl

run_conductor-eligible_example :
    All
      (λ a.
        In a.worker pool
        × ((a.worker.secret_max_level ≤ℤ pos 0)
            ⊎ ((pos 1 ≤ℤ a.worker.secret_max_level) × (pos 0 <ℤ a.worker.secret_max_level))))
      run_1.0.asked
run_conductor-eligible_example =
    run_conductor-eligible toy answers (pos 5) 1 hello plain "code" 80 false (pos 1) pool run_1 ran

run_conductor-verifier_example :
    All
      (λ a.
        ((a.role ≢ role_worker) ⊎ (a.worker ≡ coder))
        × ((a.role ≢ role_verifier) ⊎ (a.worker.id ≢ coder.id)))
      run_1.0.asked
unfolding verify_score eligible_workers keep_if any solver_of select_worker task_score argmax
run_conductor-verifier_example =
    run_conductor-verifier toy answers (pos 5) 1 hello plain "code" 80 false
      (eligible_workers toy (pos 1) pool) run_1 coder cloud (refl, (refl, tt)) refl (inr (inl refl))
      (ne_str_eq "cloud" "coder" refl) ran

abbrev one_backend : Store
one_backend = record {
  backends = ("b1", a_backend) ∷ [];
  models = [];
  model_aliases = [];
  api_keys = [];
  key_by_hash = [];
  heap = λ p. a_key;
}

serves_m : supports_model "m" a_backend ≡ true
unfolding supports_model any
serves_m = refl

pick_backend-MayRoute_example :
    (be : Backend) × ((pick_backend (λ n. 0) false "m" one_backend new_balancer).0 ≡ some be)
    × In be (values one_backend.backends)
    × (supports_model "m" be ≡ true)
    × MayRoute false be
    × ((acquire_slot be).1 ≡ true)
unfolding is_disabled model lookup values filter_routable backends_for_model keep_if supports_model
    any
pick_backend-MayRoute_example =
    pick_backend-MayRoute (λ n. 0) false "m" one_backend new_balancer a_backend (λ n h. h)
      (omega arith) refl (inl refl) serves_m
      (record {
        is_enabled = refl;
        state = inl refl;
        not_drained = λ e. ground arith;
        room = inr (omega arith);
      })
