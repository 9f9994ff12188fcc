-- ===== src/Orchestrator/Promises.antt =====
-- What the conductor promises: its budget, the access list, and an independent verifier.
use llmgateway.Prelude.{
  ℕ, ◌+◌, ◌≤◌, ◌≡◌, ◌≢◌, refl, sym, ◌∙◌, ◌⊎◌, inl, inr, Bool, true, List, ◌∷◌, Option, some, String,
  length, All, In, arith, Option-cases, if◌then◌else◌,
}
use llmgateway.Prelude.Int.{ℤ, pos, ◌≤ℤ◌, ◌<ℤ◌}
use llmgateway.Orchestrator.{
  Floats, Worker, task_score, select_worker, select_verifier, solver_of, eligible_workers,
  verify_score,
}
use llmgateway.Orchestrator.Select.{
  eligible_workers-In, select_worker-IsBest, select_worker-In, strongest_worker-In,
  select_verifier-In, select_verifier-different,
}
use llmgateway.Orchestrator.Conductor.{
  Role, role_thinker, role_worker, role_verifier, role_synthesizer, Completion, Asked, Run,
  GenParams, ChatMessage, budget_of, has_synth, has_thinker, start_run, conduct, run_conductor,
}
use llmgateway.Orchestrator.Stages.{conduct-Adds}

-- The stages that fit a budget are no more than it.
stages-budget :
    (max_steps : ℤ) (n : ℕ)
    → n
      ≤ (if has_thinker (budget_of max_steps) then 1 else 0)
        + (if has_synth (budget_of max_steps) then 3 else 1)
    → (pos n ≤ℤ budget_of max_steps) × (n ≤ 4)
stages-budget max_steps n h = (ground arith, ground arith)

module _ (F : Floats) (call : ℕ → Asked F → Option Completion) (max_steps : ℤ) (penalty : F.Carrier)
    (base : List ChatMessage) (p : GenParams F) (task : String) (confidence : F.Carrier)
    (escalated : Bool) where
  -- The solver is of the pool.
  solver_of-In :
      (eligible : List (Worker F)) (w : Worker F)
      → solver_of F penalty task eligible ≡ some w
      → In w eligible
  unfolding solver_of
  solver_of-In eligible w e = elim (Option-cases (select_worker F penalty task eligible)) [
    | inl n ↦ strongest_worker-In F eligible w (rw (n, solver_of) at e)
    | inr (v, s) ↦ select_worker-In F penalty task eligible w (s ∙ (rw (s, solver_of) at e))
  ]

  -- A run that is not without solver, and what all its calls share.
  run-All :
      (P : Asked F → Type 0) (eligible : List (Worker F)) (solver : Worker F) (r : Run F × Bool)
      → solver_of F penalty task eligible ≡ some solver
      → run_conductor F call max_steps penalty base p eligible task confidence escalated ≡ some r
      → ((c : Role) (w : Worker F) (m : List ChatMessage) (q : GenParams F)
          → ((c ≡ role_thinker) × In w eligible)
            ⊎ (((c ≡ role_worker) ⊎ (c ≡ role_synthesizer)) × (w ≡ solver))
            ⊎ ((c ≡ role_verifier) × (w ≡ select_verifier F solver eligible))
          → P (record { role = c; worker = w; messages = m; params = q }))
      → All P r.0.asked
        × (length r.0.asked
            ≤ (if has_thinker (budget_of max_steps) then 1 else 0)
              + (if has_synth (budget_of max_steps) then 3 else 1))
  unfolding run_conductor start_run
  run-All P eligible solver r e f h =
      let s = start_run F task confidence escalated in
      let ran : some (conduct F call max_steps penalty base p eligible solver s) ≡ some r =
        rw (e, run_conductor) at f in
      let same : conduct F call max_steps penalty base p eligible solver s ≡ r =
        ground (arith, ran) in
      let adds =
        conduct-Adds F call P base p solver (select_verifier F solver eligible)
          (λ m q. h role_worker solver m q (inr (inl (inl refl, refl))))
          (λ m q. h role_verifier _ m q (inr (inr (refl, refl))))
          (λ m q. h role_synthesizer solver m q (inr (inl (inr refl, refl)))) max_steps penalty
          eligible s refl (λ m q w c. h role_thinker w m q (inl (refl, of_pool w c))) in
      rw (sym same) (adds.kept tt, omega (arith, adds.few))
    where
      of_pool :
          (w : Worker F)
          → (select_worker F penalty "reasoning" eligible ≡ some w) ⊎ (w ≡ solver)
          → In w eligible
      of_pool w (inl c) = select_worker-In F penalty "reasoning" eligible w c
      of_pool w (inr c) = rw c (solver_of-In eligible solver e)

  -- The solver that a run had.
  run_solver :
      (eligible : List (Worker F)) (r : Run F × Bool)
      → run_conductor F call max_steps penalty base p eligible task confidence escalated ≡ some r
      → (solver : Worker F) × (solver_of F penalty task eligible ≡ some solver)
  unfolding run_conductor
  run_solver eligible r e = elim (Option-cases (solver_of F penalty task eligible)) [
    | inl n ↦ absurd (ground (arith, e, n))
    | inr (solver, s) ↦ (solver, s)
  ]

  -- For a pool whose first worker scores above -1e18, the conductor comes to an end, with or without
  -- an error, and has made at most as many calls of workers as its budget has steps, failed ones
  -- included, and never more than four.
  pub run_conductor-budget :
      (w : Worker F) (ws : List (Worker F))
      → F.gt (task_score F penalty task w) F.lowest ≡ true
      → (r : Run F × Bool) × (run_conductor F call max_steps penalty base p
            (w ∷ ws)
            task
            confidence
            escalated
          ≡ some r)
        × (pos (length r.0.asked) ≤ℤ budget_of max_steps)
        × (length r.0.asked ≤ 4)
  run_conductor-budget w ws g =
      let (solver, s, _, _) = select_worker-IsBest F penalty task w ws g in
      let found : solver_of F penalty task (w ∷ ws) ≡ some solver =
        unfold solver_of in rw (s, solver_of) refl in
      let r =
        conduct F call max_steps penalty base p (w ∷ ws) solver
          (start_run F task confidence escalated) in
      let ran : run_conductor F call max_steps penalty base p (w ∷ ws) task confidence escalated
          ≡ some r =
        unfold run_conductor in rw (found, run_conductor) refl in
      let few = (run-All (λ _. Unit) (w ∷ ws) solver r found ran (λ _ _ _ _ _. tt)).1 in
      let (within, four) = stages-budget max_steps (length r.0.asked) few in (r, ran, within, four)

  -- Every worker that a run of the conductor calls is of the configured pool, and its access list
  -- admits the level of the request.
  pub run_conductor-eligible :
      (level : ℤ) (pool : List (Worker F)) (r : Run F × Bool)
      → run_conductor F call max_steps penalty base p
          (eligible_workers F level pool)
          task
          confidence
          escalated
        ≡ some r
      → All
          (λ a.
            In a.worker pool
            × ((a.worker.secret_max_level ≤ℤ pos 0)
                ⊎ ((level ≤ℤ a.worker.secret_max_level) × (pos 0 <ℤ a.worker.secret_max_level))))
          r.0.asked
  run_conductor-eligible level pool r e =
      let eligible = eligible_workers F level pool in
      let (solver, s) = run_solver eligible r e in
      let i = solver_of-In eligible solver s in
      let ok = λ (w : Worker F) (m : In w eligible). (eligible_workers-In F level w pool).0 m in
      (run-All _ eligible solver r s e (λ c w m q h. elim h [
        | inl (_, k) ↦ ok w k
        | inr (inl (_, k)) ↦ rw k (ok solver i)
        | inr (inr (_, k)) ↦ rw k (ok _ (select_verifier-In F solver eligible i))
      ])).0

  -- In a run of the conductor the draft is checked by another worker than the one that wrote it,
  -- whenever another one may see the request: where the worker chosen for the draft is `solver` and
  -- the pool that is left has a worker with another id, every call for a draft is one of `solver`,
  -- and every call of a verifier is one of a worker with another id. The scores of the pool are above
  -- -1e18.
  pub run_conductor-verifier :
      (eligible : List (Worker F)) (r : Run F × Bool) (solver v : Worker F)
      → All (λ w. F.gt (verify_score F w) F.lowest ≡ true) eligible
      → solver_of F penalty task eligible ≡ some solver
      → In v eligible
      → v.id ≢ solver.id
      → run_conductor F call max_steps penalty base p eligible task confidence escalated ≡ some r
      → All
          (λ a.
            ((a.role ≢ role_worker) ⊎ (a.worker ≡ solver))
            × ((a.role ≢ role_verifier) ⊎ (a.worker.id ≢ solver.id)))
          r.0.asked
  run_conductor-verifier eligible r solver v above s i n e =
      let d = (select_verifier-different F solver v eligible above i n).1 in
      (run-All _ eligible solver r s e (λ c w m q h. elim h [
        | inl (k, _) ↦ (inl (λ z. ground (arith, k, z)), inl (λ z. ground (arith, k, z)))
        | inr (inl (k, l)) ↦ (inr l, inl (λ z. ground (arith, k, z)))
        | inr (inr (k, l)) ↦ (inl (λ z. ground (arith, k, z)), inr (rw l d))
      ])).0
