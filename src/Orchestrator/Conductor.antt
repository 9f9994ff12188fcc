-- ===== src/Orchestrator/Conductor.antt =====
-- The conductor (internal/orchestrator/conductor.go): thinker, worker, verifier and synthesizer, as
-- far as the budget of steps goes. `asked` records the calls of `callWorker`, failed ones too; the
-- answer to a call is that of the argument `call` at the number of calls before it.
use llmgateway.Prelude.{
  ℕ, suc, Bool, true, false, not, ◌&&◌, ◌||◌, List, [], ◌∷◌, ◌++◌, Option, none, some, String,
  str_eq, str_append, length, if◌then◌else◌,
}
use llmgateway.Prelude.Int.{ℤ, pos, is_pos, leb_ℤ, ltb_ℤ, add_int64}
use llmgateway.Orchestrator.{Floats, Worker, select_worker, select_verifier, solver_of}

pub data Role : Type 0 where
  role_thinker role_worker role_verifier role_synthesizer : Role

-- The four prompts.
unfoldable pub prompt : Role → String
prompt role_thinker =
    str_append
      "You are the THINKER in a multi-model workflow. Do NOT answer the user's request directly. "
      (str_append
        "Instead, decompose it into a short, concrete plan (at most five steps) that another model will execute. "
        "Identify the key sub-problems, edge cases, and what a correct answer must contain. Be concise.")
prompt role_worker =
    str_append
      "You are the WORKER in a multi-model workflow. Produce the best, complete answer to the user's request. "
      "If a plan is provided, follow it. Be correct and concrete."
prompt role_verifier =
    str_append
      "You are the VERIFIER in a multi-model workflow, and you are a DIFFERENT model from the one that wrote the candidate answer. "
      (str_append
        "Critically review the candidate answer for correctness, missing cases, and mistakes. "
        "List concrete problems and corrections. If the answer is fully correct, say so explicitly. Do NOT rewrite the whole answer.")
prompt role_synthesizer =
    str_append
      "You are the SYNTHESIZER in a multi-model workflow. Using the draft answer and the reviewer feedback, "
      (str_append
        "produce the final, corrected answer for the user. Incorporate valid corrections and ignore incorrect feedback. "
        "Output only the final answer, with no meta-commentary about the process.")

pub record ChatMessage : Type 0 where
  pub role : String
  pub content : String

pub record Usage : Type 0 where
  pub prompt_tokens : ℤ
  pub completion_tokens : ℤ
  pub total_tokens : ℤ
  pub reasoning_tokens : ℤ

-- The four `+=` of `addStep`.
unfoldable pub add_usage : Usage → Usage → Usage
add_usage a b = record {
  prompt_tokens = add_int64 a.prompt_tokens b.prompt_tokens;
  completion_tokens = add_int64 a.completion_tokens b.completion_tokens;
  total_tokens = add_int64 a.total_tokens b.total_tokens;
  reasoning_tokens = add_int64 a.reasoning_tokens b.reasoning_tokens;
}

pub record Completion : Type 0 where
  pub text : String
  pub usage : Usage
  pub worker_id : String
  pub model : String
  pub backend_id : String
  pub latency_ms : ℤ

pub record StepInfo : Type 0 where
  pub step : ℕ
  pub role : Role
  pub worker_id : String
  pub model : String
  pub backend_id : String
  pub latency_ms : ℤ

pub record CtxBlock : Type 0 where
  pub label : String
  pub text : String

-- The loop of `stepMessages` over the blocks.
unfoldable pub write_blocks : String → List CtxBlock → String
write_blocks sys [] = sys
write_blocks sys (b ∷ bs) =
    write_blocks
      (str_append sys (str_append "\n\n--- " (str_append b.label (str_append " ---\n" b.text)))) bs

unfoldable pub step_messages : String → List ChatMessage → List CtxBlock → List ChatMessage
unfolding write_blocks
step_messages role_prompt base ctx =
    record { role = "system"; content = write_blocks role_prompt ctx } ∷ base

-- `budget`, 5 where no positive number is configured, and the stages that fit it.
abbrev pub budget_of : ℤ → ℤ
budget_of max_steps = if is_pos max_steps then max_steps else pos 5

abbrev pub has_synth : ℤ → Bool
has_synth budget = leb_ℤ (pos 3) budget

abbrev pub has_thinker : ℤ → Bool
has_thinker budget = leb_ℤ (pos 4) budget || (leb_ℤ (pos 2) budget && leb_ℤ budget (pos 2))

module _ (F : Floats) where
  pub record GenParams : Type 0 where
    pub temperature : Option F.Carrier
    pub top_p : Option F.Carrier
    pub max_tokens : Option ℤ

  unfoldable pub planner_params : GenParams → GenParams
  planner_params p = elim p.max_tokens [
    | none ↦ p
    | some n ↦ if ltb_ℤ n (pos 512) then record p { max_tokens = none } else p
  ]

  pub record Result : Type 0 where
    pub content : String
    pub usage : Usage
    pub tier : String
    pub task : String
    pub confidence : F.Carrier
    pub escalated : Bool
    pub steps : List StepInfo

  -- A call of `callWorker`.
  pub record Asked : Type 0 where
    pub role : Role
    pub worker : Worker F
    pub messages : List ChatMessage
    pub params : GenParams

  -- The result so far, and the calls so far, the oldest first.
  pub record Run : Type 0 where
    pub result : Result
    pub asked : List Asked

  -- `addStep(role, c)`: `stepNo` is the number of steps.
  unfoldable pub add_step : Role → Completion → Run → Run
  unfolding add_usage
  add_step r c s = record s {
    result = record s.result {
      steps =
          s.result.steps
          ++ record {
            step = suc (length s.result.steps);
            role = r;
            worker_id = c.worker_id;
            model = c.model;
            backend_id = c.backend_id;
            latency_ms = c.latency_ms;
          }
            ∷ [];
      usage = add_usage s.result.usage c.usage;
    };
  }

  unfoldable pub note : Asked → Run → Run
  note a s = record s { asked = s.asked ++ a ∷ [] }

  unfoldable pub set_content : String → Run → Run
  set_content t s = record s { result = record s.result { content = t } }

  -- `res` at the start.
  unfoldable pub start_run : String → F.Carrier → Bool → Run
  start_run task confidence escalated = record {
    result = record {
      content = "";
      usage = record {
        prompt_tokens = pos 0;
        completion_tokens = pos 0;
        total_tokens = pos 0;
        reasoning_tokens = pos 0;
      };
      tier = "conductor";
      task = task;
      confidence = confidence;
      escalated = escalated;
      steps = [];
    };
    asked = [];
  }

  module _ (call : ℕ → Asked → Option Completion) where
    -- A stage whose failure ends the run, and one whose failure gives the empty text. Either way the
    -- text of a success is passed on.
    unfoldable pub ask : Asked → Run → Run × Option String
    unfolding note add_step
    ask a s = elim (call (length s.asked) a) [
      | none ↦ (note a s, none)
      | some c ↦ (add_step a.role c (note a s), some c.text)
    ]

    -- 1. Thinker.
    unfoldable pub think :
        Bool
        → Option (Worker F)
        → Worker F
        → List ChatMessage
        → GenParams
        → Run
        → Run × Option String
    unfolding ask
    think false chosen solver base p s = (s, some "")
    think true chosen solver base p s =
        ask
          (record {
            role = role_thinker;
            worker = elim chosen [ none ↦ solver | some w ↦ w ];
            messages = step_messages (prompt role_thinker) base [];
            params = planner_params p;
          })
          s

    -- 2. Worker.
    unfoldable pub draft_answer :
        String → Worker F → List ChatMessage → GenParams → Run → Run × Option String
    unfolding ask
    draft_answer plan solver base p s =
        let ctx =
          if str_eq plan ""
          then []
          else record { label = "DECOMPOSITION / PLAN"; text = plan } ∷ [] in
        ask
          (record {
            role = role_worker;
            worker = solver;
            messages = step_messages (prompt role_worker) base ctx;
            params = p;
          })
          s

    -- 3. Verifier: the critique, empty where the stage is left out or fails.
    unfoldable pub verify :
        Bool → String → Worker F → List ChatMessage → GenParams → Run → Run × String
    unfolding ask
    verify false draft verifier base p s = (s, "")
    verify true draft verifier base p s =
        let (s', answer) =
          ask
            (record {
              role = role_verifier;
              worker = verifier;
              messages =
                  step_messages (prompt role_verifier) base
                    (record { label = "CANDIDATE ANSWER TO REVIEW"; text = draft } ∷ []);
              params = planner_params p;
            })
            s in
        (s', elim answer [ none ↦ "" | some critique ↦ critique ])

    -- 4. Synthesizer.
    unfoldable pub synthesize :
        Bool → String → String → Worker F → List ChatMessage → GenParams → Run → Run
    unfolding ask
    synthesize do_synth draft critique solver base p s =
        let (s', answer) =
          ask
            (record {
              role = role_synthesizer;
              worker = solver;
              messages = step_messages (prompt role_synthesizer) base (
                  record { label = "DRAFT ANSWER"; text = draft }
                  ∷ record { label = "REVIEWER FEEDBACK"; text = critique }
                  ∷ []);
              params = p;
            })
            s in
        if do_synth && not (str_eq critique "")
        then set_content (elim answer [ none ↦ draft | some t ↦ t ]) s'
        else set_content draft s

    -- The stages behind the draft.
    unfoldable pub finish :
        Bool → Worker F → Worker F → List ChatMessage → GenParams → Run × Option String → Run × Bool
    unfolding verify synthesize set_content
    finish do_synth solver verifier base p (s, none) = (s, false)
    finish do_synth solver verifier base p (s, some draft) =
        let (s', critique) = verify do_synth draft verifier base p s in
        (synthesize do_synth draft critique solver base p s', true)

    unfoldable pub continue_plan :
        Bool → Worker F → Worker F → List ChatMessage → GenParams → Run × Option String → Run × Bool
    unfolding finish draft_answer
    continue_plan do_synth solver verifier base p (s, none) = (s, false)
    continue_plan do_synth solver verifier base p (s, some plan) =
        finish do_synth solver verifier base p (draft_answer plan solver base p s)

    -- `runConductor` behind the choice of the solver: the run, and whether it ended without error.
    unfoldable pub conduct :
        ℤ → F.Carrier → List ChatMessage → GenParams → List (Worker F) → Worker F → Run → Run × Bool
    unfolding think continue_plan
    conduct max_steps penalty base p eligible solver s =
        let budget = budget_of max_steps in
        continue_plan (has_synth budget) solver (select_verifier F solver eligible) base p (
          think (has_thinker budget) (select_worker F penalty "reasoning" eligible) solver base p s)

    -- `runConductor`. Without a solver the source dereferences nil: `none`.
    unfoldable pub run_conductor :
        ℤ
        → F.Carrier
        → List ChatMessage
        → GenParams
        → List (Worker F)
        → String
        → F.Carrier
        → Bool
        → Option (Run × Bool)
    unfolding conduct
    run_conductor max_steps penalty base p eligible task confidence escalated =
        elim (solver_of F penalty task eligible) [
          | none ↦ none
          | some solver ↦ some (
              conduct max_steps penalty base p eligible solver
                (start_run task confidence escalated))
        ]
