-- ===== src/Handlers/Vetted.antt =====
-- What the checks ahead of the admission have established when they let a request through.
use llmgateway.Prelude.{
  if◌then◌else◌, ◌≡◌, ◌≢◌, ◌↔◌, inl, inr, refl, sym, ap, ◌∙◌, true, false, not, List, [], ◌∷◌,
  Option, none, some, String, arith, eq_iff, str_eq_ne, Bool-cases,
}
use llmgateway.Json.{Peek, JsonPackage}
use llmgateway.Capability
use llmgateway.Capability.{Reason, admissible}
use llmgateway.Store.Backend.{Backend}
use llmgateway.Store.Keys.{ApiKey, model_allowed_resolved}
use llmgateway.Store.Catalog.{Store, Model, model, backends_for_model, resolve_alias}
use llmgateway.Handlers.Screen.{
  Checked, passed, refused, ◌>>=◌, Read, too_large, unreadable, content, read_body, permit,
  Orchestration, handles, supported, Target, orchestrated, direct, Screened, read_peek, capable,
  virtual_capable, registered, to_orchestrator, to_backends, model_not_found,
}

-- A key that is there may use the model; a request without a key may use every model.
abbrev pub IsPermitted : Option ApiKey → String → String → Type 0
IsPermitted none requested internal = Unit
IsPermitted (some k) requested internal = model_allowed_resolved requested internal k ≡ true

module _ {A B : Type 0} where
  pub bind-passed :
      (x : Checked A) (f : A → Checked B) (b : B)
      → (x >>= f) ≡ passed b
      → (a : A) × (x ≡ passed a) × (f a ≡ passed b)
  unfolding ◌>>=◌
  bind-passed (passed a) f b h = (a, refl, h)
  bind-passed (refused n c) f b h = cc

  pub passed-bind :
      (x : Checked A) (f : A → Checked B) (b : B) (a : A)
      → x ≡ passed a
      → f a ≡ passed b
      → (x >>= f) ≡ passed b
  unfolding ◌>>=◌
  passed-bind x f b a e h = rw e h

module _ (J : JsonPackage) where
  -- The registry does not name the model, or what it says of it holds for the body.
  abbrev pub CanServe : Option Model → String → Type 0
  CanServe none raw = Unit
  CanServe (some m) raw = Capability.check J m.capability_mode m.capabilities raw ≡ admissible

  abbrev pub IsOn : Option Model → Type 0
  IsOn none = Unit
  IsOn (some m) = m.enabled ≡ true

  -- Where a request for the model `name` may go.
  abbrev pub IsTarget : Option Orchestration → Store → String → String → Target → Type 0
  IsTarget o s name raw orchestrated = (handles o name ≡ true) × CanServe (model name s) raw
  IsTarget o s name raw (direct cs) =
      (handles o name ≡ false)
      × (IsOn (model name s) × CanServe (model name s) raw)
      × (cs ≡ backends_for_model name s)
      × (cs ≢ [])

  pub record Vetted (o : Option Orchestration) (k : Option ApiKey) (read : Read) (s : Store)
      (t : Screened) : Type 0 where
    pub body : read ≡ content t.raw
    pub not_blank : t.raw ≢ ""
    pub parsed : J.peek t.raw ≡ some t.peek
    pub named : t.peek.model ≢ ""
    pub resolved : resolve_alias t.peek.model s ≡ (t.internal_model, t.forward_name)
    pub permitted : IsPermitted k t.peek.model t.internal_model
    pub allowed : IsTarget o s t.internal_model t.raw t.target

  pub read_body-passed :
      (read : Read) (raw : String)
      → (read_body read ≡ passed raw) ↔ ((read ≡ content raw) × (raw ≢ ""))
  unfolding read_body
  read_body-passed too_large raw = (λ h. cc, λ h. cc)
  read_body-passed unreadable raw = (λ h. cc, λ h. cc)
  read_body-passed (content s) raw = (
    λ h. (ground (arith, eq_iff s ""), λ e. ground (arith, eq_iff s "")),
    λ (e, n). ground (arith, str_eq_ne s ""),
  )

  pub read_peek-passed :
      (raw : String) (p : Peek)
      → (read_peek J raw ≡ passed p) ↔ ((J.peek raw ≡ some p) × (p.model ≢ ""))
  unfolding read_peek
  read_peek-passed raw p = (
    λ h. (ground (arith, λ (q : Peek). eq_iff q.model ""), λ e. ground (arith, eq_iff p.model "")),
    λ (e, n). rw (read_peek, e, str_eq_ne p.model "" n) refl,
  )

  pub permit-passed :
      (k : Option ApiKey) (r i : String) (u : Unit) → (permit k r i ≡ passed u) ↔ IsPermitted k r i
  unfolding permit
  permit-passed none r i u = (λ h. tt, λ h. refl)
  permit-passed (some k) r i u = (λ h. ground arith, λ h. ground arith)

  capable-passed :
      (m : Model) (raw : String) (u : Unit) → (capable J m raw ≡ passed u) ↔ CanServe (some m) raw
  unfolding capable
  capable-passed m raw u = (λ h. ground arith, λ h. ground arith)

  supported-passed :
      (name : String) (s : Store) (cs : List Backend)
      → (supported name s ≡ passed cs) ↔ ((cs ≡ backends_for_model name s) × (cs ≢ []))
  unfolding supported
  supported-passed name s cs = by_list (backends_for_model name s)
    where
      by_list :
          (l : List Backend)
          → (elim l [ [] ↦ refused 404 model_not_found | c ∷ cs' ↦ passed (c ∷ cs') ] ≡ passed cs)
            ↔ ((cs ≡ l) × (cs ≢ []))
      by_list [] = (λ h. cc, λ (e, n). absurd (n e))
      by_list (x ∷ xs) = (λ h. (ground arith, λ e. cc), λ (e, n). ground arith)

  virtual_capable-passed :
      (name raw : String) (s : Store)
      → (virtual_capable J name raw s ≡ passed tt) ↔ CanServe (model name s) raw
  unfolding virtual_capable
  virtual_capable-passed name raw s = by_entry (model name s)
    where
      by_entry :
          (o : Option Model)
          → (elim o [ none ↦ passed tt | some m ↦ capable J m raw ] ≡ passed tt) ↔ CanServe o raw
      by_entry none = (λ h. tt, λ h. refl)
      by_entry (some m) = capable-passed m raw tt

  registered-passed :
      (name raw : String) (s : Store)
      → (registered J name raw s ≡ passed tt) ↔ (IsOn (model name s) × CanServe (model name s) raw)
  unfolding registered
  registered-passed name raw s = by_entry (model name s)
    where
      by_entry :
          (o : Option Model)
          → (elim o [
            | none ↦ passed tt
            | some m ↦ if not m.enabled then refused 404 model_not_found else capable J m raw
          ]
              ≡ passed tt)
            ↔ (IsOn o × CanServe o raw)
      by_entry none = (λ h. (tt, tt), λ h. refl)
      by_entry (some m) = elim (Bool-cases m.enabled) [
        | inl on ↦ (
          λ h. (on, (capable-passed m raw tt).0 (ground (arith, on))),
          λ v. rw on ((capable-passed m raw tt).1 v.1),
        )
        | inr off ↦ (λ h. ground (arith, off), λ v. cc)
      ]

  pub to_orchestrator-passed :
      (name raw : String) (s : Store) (t : Target)
      → (to_orchestrator J name raw s ≡ passed t)
        ↔ ((t ≡ orchestrated) × CanServe (model name s) raw)
  unfolding to_orchestrator
  to_orchestrator-passed name raw s t = (
    λ h.
        let (u, v, e) = bind-passed (virtual_capable J name raw s) _ t h in
        (cc, (virtual_capable-passed name raw s).0 v),
    λ (e, c).
        passed-bind (virtual_capable J name raw s) _ t tt ((virtual_capable-passed name raw s).1 c)
          (ap passed (sym e)),
  )

  pub to_backends-passed :
      (name raw : String) (s : Store) (t : Target)
      → (to_backends J name raw s ≡ passed t) ↔ (
          (IsOn (model name s) × CanServe (model name s) raw)
          × (t ≡ direct (backends_for_model name s))
          × (backends_for_model name s ≢ []))
  unfolding to_backends
  to_backends-passed name raw s t = (
    λ h.
        let (u, v, e) = bind-passed (registered J name raw s) _ t h in
        let (cs, l, f) = bind-passed (supported name s) _ t e in
        let (q, n) = (supported-passed name s cs).0 l in
        ((registered-passed name raw s).0 v, cc, λ z. n (q ∙ z)),
    λ (v, e, n). passed-bind (registered J name raw s) _ t tt ((registered-passed name raw s).1 v) (
        passed-bind (supported name s) _ t _ ((supported-passed name s _).1 (refl, n))
          (ap passed (sym e))),
  )
