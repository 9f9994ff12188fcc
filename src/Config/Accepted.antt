-- ===== src/Config/Accepted.antt =====
-- Which configurations `Validate` accepts.
use llmgateway.Prelude.{
  ◌≡◌, ◌≢◌, ◌⊎◌, inl, inr, refl, sym, ◌∙◌, Bool, true, false, not, ◌&&◌, ◌||◌, List, [], ◌∷◌,
  String, str_eq, All, In, arith, eq_iff, ne_str_eq, Bool-cases, if◌then◌else◌,
}
use mathlib.Core.Path.{subst}
use llmgateway.Prelude.Int.{ℤ, pos, is_pos, ltb_ℤ, ◌≤ℤ◌, ◌<ℤ◌}
use llmgateway.Config.Validate.{
  ModelConfig, AliasConfig, WorkerConfig, OrchestrationConfig, Config, Validated, valid,
  invalid_threshold, too_many_steps, ◌>>=◌, refuse_if, is_none, has, check_backends,
  is_capability_mode, is_forwarding_mode, check_models, check_aliases, check_workers, check_served,
  backend_models, with_defaults, validate_orchestration, validate_enabled, check_refs, real_models,
  collides, validate_refs, validate_body, validate, invalid_port,
}
use llmgateway.Config.Consistent.{
  bind-valid, refuse_if-valid, is_none-false, has-In, IsBackend, check_backends-IsBackend,
  AreDistinct, IsNamed, check_workers-AreDistinct,
}

valid-injective : {A : Type 0} (a b : A) → valid a ≡ valid b → a ≡ b
valid-injective a b h = cc

check_models-All :
    (ms : List ModelConfig)
    → check_models ms ≡ valid tt
    → All (λ (m : ModelConfig). is_capability_mode m.capability_mode ≡ true) ms
unfolding check_models
check_models-All [] h = tt
check_models-All (m ∷ ms) h =
    let p : (not (is_capability_mode m.capability_mode) ≡ false) × (check_models ms ≡ valid tt) =
      refuse_if-valid _ _ _ tt h in
    (ground (arith, p.0), check_models-All ms p.1)

check_aliases-All :
    (xs : List AliasConfig)
    → check_aliases xs ≡ valid tt
    → All (λ (a : AliasConfig). is_forwarding_mode a.forwarding_mode ≡ true) xs
unfolding check_aliases
check_aliases-All [] h = tt
check_aliases-All (a ∷ xs) h =
    let p : (not (is_forwarding_mode a.forwarding_mode) ≡ false) × (check_aliases xs ≡ valid tt) =
      refuse_if-valid _ _ _ tt h in
    (ground (arith, p.0), check_aliases-All xs p.1)

check_served-All :
    (served : List String) (ws : List WorkerConfig)
    → check_served served ws ≡ valid tt
    → All (λ (w : WorkerConfig). In w.model served) ws
unfolding check_served
check_served-All served [] h = tt
check_served-All served (w ∷ ws) h =
    let p : (not (has served w.model) ≡ false) × (check_served served ws ≡ valid tt) =
      refuse_if-valid _ _ _ tt h in
    (has-In served w.model (ground (arith, p.0)), check_served-All served ws p.1)

-- A value that a default replaces where it is not positive.
default-pos : (x y : ℤ) → pos 0 <ℤ y → pos 0 <ℤ (if is_pos x then x else y)
default-pos x y h = elim (Bool-cases (is_pos x)) [
  | inl e ↦ rw e (ground (arith, e))
  | inr e ↦ rw e h
]

ltb_ℤ-false : (x y : ℤ) → ltb_ℤ x y ≡ false → y ≤ℤ x
ltb_ℤ-false x y h = ground (arith, h)

default-text : (s d : String) → d ≢ "" → (if str_eq s "" then d else s) ≢ ""
default-text s d h = elim (Bool-cases (str_eq s "")) [
  | inl e ↦ rw e h
  | inr e ↦ rw e (ne_str_eq s "" e)
]

-- One of two texts is not empty; a text is empty or differs from another.
either-named : (a b : String) → (str_eq a "" && str_eq b "") ≡ false → (a ≢ "") ⊎ (b ≢ "")
either-named a b h = elim (Bool-cases (str_eq a "")) [
  | inl e ↦ inr (ne_str_eq b "" (ground (arith, e, h)))
  | inr e ↦ inl (ne_str_eq a "" e)
]

empty-or-apart : (a b : String) → (not (str_eq a "") && str_eq a b) ≡ false → (a ≡ "") ⊎ (a ≢ b)
empty-or-apart a b h = elim (Bool-cases (str_eq a "")) [
  | inl e ↦ inl ((eq_iff a "").0 e)
  | inr e ↦ inr (ne_str_eq a b (ground (arith, e, h)))
]

module _ (F : Type 0) (is_below_zero is_above_one : F → Bool) where
  -- The pool of the orchestrator.
  pub record IsPool (o : OrchestrationConfig F is_below_zero is_above_one) : Type 0 where
    pub reachable : (o.router_model ≢ "") ⊎ (o.conductor_model ≢ "")
    pub apart : (o.router_model ≡ "") ⊎ (o.router_model ≢ o.conductor_model)
    pub manned : o.workers ≢ []
    pub named : All IsNamed o.workers
    pub distinct : AreDistinct o.workers
    pub some_steps : pos 0 <ℤ o.max_steps
    pub few_steps : o.max_steps ≤ℤ pos 5
    pub timeout : pos 0 <ℤ o.request_timeout_ms
    pub header : o.secret_level_header ≢ ""

  with_defaults-IsPool :
      (o : OrchestrationConfig F is_below_zero is_above_one)
      → (str_eq o.router_model "" && str_eq o.conductor_model "") ≡ false
      → (not (str_eq o.router_model "") && str_eq o.router_model o.conductor_model) ≡ false
      → is_none o.workers ≡ false
      → ltb_ℤ (pos 5) (with_defaults F is_below_zero is_above_one o).max_steps ≡ false
      → check_workers [] o.workers ≡ valid tt
      → IsPool (with_defaults F is_below_zero is_above_one o)
  unfolding with_defaults
  with_defaults-IsPool o e1 e2 e3 e4 e5 =
      let (named, distinct, fresh) = check_workers-AreDistinct [] o.workers e5 in
      record {
        reachable = either-named o.router_model o.conductor_model e1;
        apart = empty-or-apart o.router_model o.conductor_model e2;
        manned = is_none-false o.workers e3;
        named = named;
        distinct = distinct;
        some_steps = default-pos o.max_steps (pos 5) (omega arith);
        few_steps = ltb_ℤ-false (pos 5) _ e4;
        timeout = default-pos o.request_timeout_ms (pos 120000) (omega arith);
        header =
            default-text o.secret_level_header "X-Secret-Level"
              (ne_str_eq "X-Secret-Level" "" refl);
      }

  validate_enabled-IsPool :
      (o d : OrchestrationConfig F is_below_zero is_above_one)
      → validate_enabled F is_below_zero is_above_one o ≡ valid d
      → IsPool d
  unfolding validate_enabled
  validate_enabled-IsPool o d h =
      let (e1, h1) = refuse_if-valid _ _ _ d h in
      let (e2, h2) = refuse_if-valid _ _ _ d h1 in
      let (e3, h3) = refuse_if-valid _ _ _ d h2 in
      let defaults = with_defaults F is_below_zero is_above_one o in
      let outside = is_below_zero o.confidence_threshold || is_above_one o.confidence_threshold in
      let counted : Unit → Validated (OrchestrationConfig F is_below_zero is_above_one) =
        λ u. check_workers [] o.workers >>= λ u'. valid defaults in
      let (e4, h4) =
        refuse_if-valid outside invalid_threshold
          (λ u. refuse_if (ltb_ℤ (pos 5) defaults.max_steps) too_many_steps >>= counted) d h3 in
      let (e5, h5) =
        refuse_if-valid (ltb_ℤ (pos 5) defaults.max_steps) too_many_steps counted d h4 in
      let (u, e6, h6) = bind-valid (check_workers [] o.workers) (λ u'. valid defaults) d h5 in
      let same : with_defaults F is_below_zero is_above_one o ≡ d = valid-injective _ d h6 in
      subst IsPool same (with_defaults-IsPool o e1 e2 e3 e5 e6)

  validate_orchestration-IsPool :
      (o d : OrchestrationConfig F is_below_zero is_above_one)
      → validate_orchestration F is_below_zero is_above_one o ≡ valid d
      → (d.enabled ≡ false) ⊎ IsPool d
  unfolding validate_orchestration
  validate_orchestration-IsPool o d h = elim (Bool-cases o.enabled) [
    | inl on ↦
        let run : validate_orchestration F is_below_zero is_above_one o
            ≡ validate_enabled F is_below_zero is_above_one o =
          rw (validate_orchestration, on) refl in
        inr (validate_enabled-IsPool o d (sym run ∙ h))
    | inr off ↦
        let run : validate_orchestration F is_below_zero is_above_one o ≡ valid o =
          rw (validate_orchestration, off) refl in
        let same : o ≡ d = cc in inl (subst (λ x. x.enabled ≡ false) same off)
  ]

  -- The virtual names are free, and a backend serves the model of every worker.
  pub record IsConnected (c : Config F is_below_zero is_above_one) : Type 0 where
    pub router :
        collides F is_below_zero is_above_one
          (real_models F is_below_zero is_above_one c)
          c.orchestration.router_model
        ≡ false
    pub conductor :
        collides F is_below_zero is_above_one
          (real_models F is_below_zero is_above_one c)
          c.orchestration.conductor_model
        ≡ false
    pub served :
        All (λ (w : WorkerConfig). In w.model (backend_models c.backends)) c.orchestration.workers

  validate_refs-IsConnected :
      (c : Config F is_below_zero is_above_one) (u : Unit)
      → validate_refs F is_below_zero is_above_one c ≡ valid u
      → (c.orchestration.enabled ≡ false) ⊎ IsConnected c
  unfolding validate_refs check_refs
  validate_refs-IsConnected c u h = elim (Bool-cases c.orchestration.enabled) [
    | inl on ↦
        let run : validate_refs F is_below_zero is_above_one c
            ≡ check_refs F is_below_zero is_above_one c =
          rw (validate_refs, on) refl in
        let (e1, h1) = refuse_if-valid _ _ _ tt (sym run ∙ h) in
        let (e2, h2) = refuse_if-valid _ _ _ tt h1 in
        inr (record {
          router = e1;
          conductor = e2;
          served = check_served-All (backend_models c.backends) c.orchestration.workers h2;
        })
    | inr off ↦ inl off
  ]

  -- What `Validate` promises of a configuration.
  pub record IsConsistent (c : Config F is_below_zero is_above_one) : Type 0 where
    pub port_low : pos 0 <ℤ c.port
    pub port_high : c.port ≤ℤ pos 65535
    pub body_limit : pos 0 <ℤ c.request_body_limit_mb
    pub backends : All IsBackend c.backends
    pub models : All (λ (m : ModelConfig). is_capability_mode m.capability_mode ≡ true) c.models
    pub aliases : All (λ (a : AliasConfig). is_forwarding_mode a.forwarding_mode ≡ true) c.aliases
    pub pool : (c.orchestration.enabled ≡ false) ⊎ IsPool c.orchestration
    pub connected : (c.orchestration.enabled ≡ false) ⊎ IsConnected c

  -- A configuration that `Validate` accepts is consistent as it leaves it, its defaults included: the
  -- port is one, the body limit is positive, every backend has an id, an address and a model, the
  -- modes of models and aliases are known, and the orchestration is off or sound. Then it has a
  -- virtual model, both names differ where both are set, the ids of its workers are different and
  -- not empty, there are one to five steps, the names of the virtual models are no names of models,
  -- aliases or backends' models, and a backend serves the model of every worker.
  pub validate-IsConsistent :
      (c d : Config F is_below_zero is_above_one)
      → validate F is_below_zero is_above_one c ≡ valid d
      → IsConsistent d
  unfolding validate validate_body
  validate-IsConsistent c d h =
      let bad_port = not (is_pos c.port) || ltb_ℤ (pos 65535) c.port in
      let rest : Unit → Validated (Config F is_below_zero is_above_one) =
        λ u. validate_body F is_below_zero is_above_one c in
      let (e1, h1) = refuse_if-valid bad_port invalid_port rest d h in
      let (u2, e2, h2) = bind-valid (check_backends c.backends) _ d h1 in
      let (u3, e3, h3) = bind-valid (check_models c.models) _ d h2 in
      let (u4, e4, h4) = bind-valid (check_aliases c.aliases) _ d h3 in
      let (o, e5, h5) =
        bind-valid (validate_orchestration F is_below_zero is_above_one c.orchestration) _ d h4 in
      let limit = if is_pos c.request_body_limit_mb then c.request_body_limit_mb else pos 50 in
      let checked : Config F is_below_zero is_above_one = record c {
        request_body_limit_mb = limit;
        orchestration = o;
      } in
      let (u6, e6, h6) = bind-valid (validate_refs F is_below_zero is_above_one checked) _ d h5 in
      subst IsConsistent (valid-injective checked d h6) (record {
        port_low = ground (arith, e1);
        port_high = ground (arith, e1);
        body_limit = default-pos c.request_body_limit_mb (pos 50) (omega arith);
        backends = check_backends-IsBackend c.backends e2;
        models = check_models-All c.models e3;
        aliases = check_aliases-All c.aliases e4;
        pool = validate_orchestration-IsPool c.orchestration o e5;
        connected = validate_refs-IsConnected checked u6 e6;
      })
