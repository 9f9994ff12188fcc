-- ===== src/Handlers/Screen.antt =====
-- The checks of `Forward` of internal/handlers/handlers.go ahead of the admission: the body, the
-- permission of the key, the switch of the model, its capabilities, and its backends. They read the
-- store and change nothing. What `MaxBytesReader` and `ReadAll` give is an argument.
use llmgateway.Prelude.{
  ℕ, Bool, false, not, ◌&&◌, ◌||◌, List, [], ◌∷◌, Option, none, some, String, str_eq, if◌then◌else◌,
}
use llmgateway.Codes.{Code}
use llmgateway.Json.{Peek, JsonPackage}
use llmgateway.Capability
use llmgateway.Capability.{Reason, admissible}
use llmgateway.Store.Backend.{Backend}
use llmgateway.Store.Keys.{ApiKey, model_allowed_resolved}
use llmgateway.Store.Catalog.{Store, Model, model, backends_for_model, resolve_alias}

-- The texts in the field `code` of an error response.
pub data ErrorCode : Type 0 where
  invalid_body payload_too_large invalid_json missing_model model_not_allowed : ErrorCode
  model_not_found no_healthy_backend backend_at_capacity : ErrorCode
  not_capable : Reason → ErrorCode
  not_admitted : Code → ErrorCode

-- A check goes on with a value, or the handler writes a status and a code and returns.
pub data Checked (A : Type 0) : Type 0 where
  passed : A → Checked A
  refused : ℕ → ErrorCode → Checked A

infixl 30 ◌>>=◌
unfoldable pub ◌>>=◌ : {A B : Type 0} → Checked A → (A → Checked B) → Checked B
passed a >>= f = f a
refused status code >>= f = refused status code

-- What reading the body came to.
pub data Read : Type 0 where
  too_large unreadable : Read
  content : String → Read

unfoldable pub read_body : Read → Checked String
read_body too_large = refused 413 payload_too_large
read_body unreadable = refused 400 invalid_body
read_body (content raw) = if str_eq raw "" then refused 400 invalid_body else passed raw

-- `permit` and the checks behind it give the empty tuple.
unfoldable pub permit : Option ApiKey → String → String → Checked Unit
permit none requested internal = passed tt
permit (some k) requested internal =
    if model_allowed_resolved requested internal k then passed tt else refused 403 model_not_allowed

-- The settings of the orchestrator that `Handles` reads.
pub record Orchestration : Type 0 where
  pub enabled : Bool
  pub router_model : String
  pub conductor_model : String

-- `h.orchestrator != nil && h.orchestrator.Handles(model)`
unfoldable pub handles : Option Orchestration → String → Bool
handles none model = false
handles (some o) model =
    o.enabled
    && (str_eq model o.router_model
        || (not (str_eq o.conductor_model "") && str_eq model o.conductor_model))

unfoldable pub supported : String → Store → Checked (List Backend)
supported name s = elim (backends_for_model name s) [
  | [] ↦ refused 404 model_not_found
  | c ∷ cs ↦ passed (c ∷ cs)
]

-- Where a request goes that passed: to the orchestrator, or to one of the candidates.
pub data Target : Type 0 where
  orchestrated : Target
  direct : List Backend → Target

pub record Screened : Type 0 where
  pub raw : String
  pub peek : Peek
  pub internal_model : String
  pub forward_name : String
  pub target : Target

module _ (J : JsonPackage) where
  unfoldable pub read_peek : String → Checked Peek
  read_peek raw = elim (J.peek raw) [
    | none ↦ refused 400 invalid_json
    | some p ↦ if str_eq p.model "" then refused 400 missing_model else passed p
  ]

  unfoldable pub capable : Model → String → Checked Unit
  capable m raw = elim (Capability.check J m.capability_mode m.capabilities raw) [
    | admissible ↦ passed tt
    | r ↦ refused 400 (not_capable r)
  ]

  -- The descriptor of a virtual model; the switch is not read here.
  unfoldable pub virtual_capable : String → String → Store → Checked Unit
  unfolding capable
  virtual_capable name raw s = elim (model name s) [ none ↦ passed tt | some m ↦ capable m raw ]

  unfoldable pub registered : String → String → Store → Checked Unit
  unfolding capable
  registered name raw s = elim (model name s) [
    | none ↦ passed tt
    | some m ↦ if not m.enabled then refused 404 model_not_found else capable m raw
  ]

  unfoldable pub to_orchestrator : String → String → Store → Checked Target
  unfolding virtual_capable ◌>>=◌
  to_orchestrator name raw s = virtual_capable name raw s >>= λ u. passed orchestrated

  unfoldable pub to_backends : String → String → Store → Checked Target
  unfolding registered supported ◌>>=◌
  to_backends name raw s =
      registered name raw s >>= λ u. supported name s >>= λ cs. passed (direct cs)

  unfoldable pub find_target : Option Orchestration → String → String → Store → Checked Target
  unfolding to_orchestrator to_backends
  find_target o name raw s =
      if handles o name then to_orchestrator name raw s else to_backends name raw s

  -- The checks behind the parsing of the body.
  unfoldable pub screen_peek :
      Option Orchestration → Option ApiKey → Store → String → Peek → Checked Screened
  unfolding permit find_target ◌>>=◌
  screen_peek o k s raw p = do
    let (internal, forward) = resolve_alias p.model s
    u ← permit k p.model internal
    target ← find_target o internal raw s
    passed (record {
      raw = raw;
      peek = p;
      internal_model = internal;
      forward_name = forward;
      target = target;
    })

  -- `Forward` up to the admission.
  unfoldable pub screen : Option Orchestration → Option ApiKey → Read → Store → Checked Screened
  unfolding read_body read_peek screen_peek ◌>>=◌
  screen o k read s = do raw ← read_body read; p ← read_peek raw; screen_peek o k s raw p
