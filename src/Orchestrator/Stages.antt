-- ===== src/Orchestrator/Stages.antt =====
-- The stages of the conductor within their budget and their pool.
use llmgateway.Prelude.{
  ℕ, ◌+◌, ◌≤◌, ◌≡◌, refl, ◌⊎◌, inl, inr, Bool, true, false, List, [], ◌∷◌, ◌++◌, Option, none, some,
  String, str_eq, length, length-append, All, arith, Option-cases, Bool-cases, if◌then◌else◌,
}
use llmgateway.Prelude.Int.{ℤ}
use llmgateway.Orchestrator.{Floats, Worker, select_worker, select_verifier}
use llmgateway.Orchestrator.Conductor.{
  role_thinker, role_worker, role_verifier, role_synthesizer, Completion, Asked, Run, GenParams,
  ChatMessage, note, add_step, set_content, ask, think, draft_answer, verify, synthesize, finish,
  continue_plan, budget_of, has_synth, has_thinker, conduct,
}

module _ (F : Floats) (call : ℕ → Asked F → Option Completion) where
  -- A stage that calls is one more call, and at most one more step.
  ask-asked : (a : Asked F) (s : Run F) → (ask F call a s).0.asked ≡ s.asked ++ a ∷ []
  unfolding ask note add_step
  ask-asked a s = elim (Option-cases (call (length s.asked) a)) [
    | inl e ↦ rw (e, ask) refl
    | inr (c, e) ↦ rw (e, ask) refl
  ]

  -- The calls that a run has made beyond another are at most `k`, and all of them have `P`.
  pub record Adds (P : Asked F → Type 0) (k : ℕ) (s t : Run F) : Type 0 where
    pub few : length t.asked ≤ length s.asked + k
    pub kept : All P s.asked → All P t.asked

  All-snoc :
      (P : Asked F → Type 0) (a : Asked F) (xs : List (Asked F))
      → P a
      → All P xs
      → All P (xs ++ a ∷ [])
  All-snoc P a [] p h = (p, tt)
  All-snoc P a (x ∷ xs) p h = (h.0, All-snoc P a xs p h.1)

  ask-Adds : (P : Asked F → Type 0) (a : Asked F) (s : Run F) → P a → Adds P 1 s (ask F call a s).0
  ask-Adds P a s p = record {
    few = rw (ask-asked a s) (omega (arith, length-append s.asked (a ∷ [])));
    kept = λ h. rw (ask-asked a s) (All-snoc P a s.asked p h);
  }

  Adds-refl : (P : Asked F → Type 0) (k : ℕ) (s : Run F) → Adds P k s s
  Adds-refl P k s = record { few = omega arith; kept = λ h. h }

  set_content-Adds :
      (P : Asked F → Type 0) (k : ℕ) (c : String) (s t : Run F)
      → Adds P k s t
      → Adds P k s (set_content F c t)
  unfolding set_content
  set_content-Adds P k c s t a = record { few = a.few; kept = a.kept }

  Adds-trans :
      (P : Asked F → Type 0) (j k : ℕ) (s t u : Run F)
      → Adds P j s t
      → Adds P k t u
      → Adds P (j + k) s u
  Adds-trans P j k s t u a b = record {
    few = omega (arith, a.few, b.few);
    kept = λ h. b.kept (a.kept h);
  }

  module _ (P : Asked F → Type 0) (base : List ChatMessage) (p : GenParams F)
      (solver verifier : Worker F)
      (of_worker : (m : List ChatMessage) (q : GenParams F)
        → P (record { role = role_worker; worker = solver; messages = m; params = q }))
      (of_verifier : (m : List ChatMessage) (q : GenParams F)
        → P (record { role = role_verifier; worker = verifier; messages = m; params = q }))
      (of_synth : (m : List ChatMessage) (q : GenParams F)
        → P (record { role = role_synthesizer; worker = solver; messages = m; params = q })) where
    verify-Adds :
        (b : Bool) (draft : String) (s : Run F)
        → Adds P (if b then 1 else 0) s (verify F call b draft verifier base p s).0
    unfolding verify
    verify-Adds false draft s = Adds-refl P 0 s
    verify-Adds true draft s = ask-Adds P _ s (of_verifier _ _)

    synthesize-Adds :
        (b : Bool) (draft critique : String) (s : Run F)
        → Adds P (if b then 1 else 0) s (synthesize F call b draft critique solver base p s)
    unfolding synthesize set_content
    synthesize-Adds false draft critique s = record { few = omega arith; kept = λ h. h }
    synthesize-Adds true draft critique s = elim (Bool-cases (str_eq critique "")) [
      | inl e ↦ rw e (record { few = omega arith; kept = λ h. h })
      | inr e ↦ rw e (set_content-Adds P 1 _ s _ (ask-Adds P _ s (of_synth _ _)))
    ]

    finish-Adds :
        (b : Bool) (r : Run F × Option String)
        → Adds P (if b then 2 else 0) r.0 (finish F call b solver verifier base p r).0
    unfolding finish
    finish-Adds b (s, none) = Adds-refl P _ s
    finish-Adds b (s, some draft) =
        let (s', critique) = verify F call b draft verifier base p s in
        let both =
          Adds-trans P (if b then 1 else 0) (if b then 1 else 0) s s' _ (verify-Adds b draft s)
            (synthesize-Adds b draft critique s') in
        record { few = ground (arith, both.few); kept = both.kept }

    continue_plan-Adds :
        (b : Bool) (r : Run F × Option String)
        → Adds P (if b then 3 else 1) r.0 (continue_plan F call b solver verifier base p r).0
    unfolding continue_plan draft_answer
    continue_plan-Adds b (s, none) = Adds-refl P _ s
    continue_plan-Adds b (s, some plan) =
        let r = draft_answer F call plan solver base p s in
        let both =
          Adds-trans P 1 (if b then 2 else 0) s r.0 _ (ask-Adds P _ s (of_worker _ _))
            (finish-Adds b r) in
        record { few = ground (arith, both.few); kept = both.kept }

    think-Adds :
        (b : Bool) (chosen : Option (Worker F)) (s : Run F)
        → ((m : List ChatMessage) (q : GenParams F) (w : Worker F)
            → (chosen ≡ some w) ⊎ (w ≡ solver)
            → P (record { role = role_thinker; worker = w; messages = m; params = q }))
        → Adds P (if b then 1 else 0) s (think F call b chosen solver base p s).0
    unfolding think
    think-Adds false chosen s of_thinker = Adds-refl P 0 s
    think-Adds true none s of_thinker = ask-Adds P _ s (of_thinker _ _ solver (inr refl))
    think-Adds true (some w) s of_thinker = ask-Adds P _ s (of_thinker _ _ w (inl refl))

    pub conduct-Adds :
        (max_steps : ℤ) (penalty : F.Carrier) (eligible : List (Worker F)) (s : Run F)
        → select_verifier F solver eligible ≡ verifier
        → ((m : List ChatMessage) (q : GenParams F) (w : Worker F)
            → (select_worker F penalty "reasoning" eligible ≡ some w) ⊎ (w ≡ solver)
            → P (record { role = role_thinker; worker = w; messages = m; params = q }))
        → Adds P
            ((if has_thinker (budget_of max_steps) then 1 else 0)
              + (if has_synth (budget_of max_steps) then 3 else 1))
            s
            (conduct F call max_steps penalty base p eligible solver s).0
    unfolding conduct
    conduct-Adds max_steps penalty eligible s v of_thinker =
        let t =
          think F call (has_thinker (budget_of max_steps))
            (select_worker F penalty "reasoning" eligible) solver base p s in
        rw v (Adds-trans P _ _ s t.0 _ (think-Adds _ _ s of_thinker) (continue_plan-Adds _ t))
