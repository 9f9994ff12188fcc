-- ===== src/Handlers/Gate.antt =====
-- The checks ahead of the admission as a whole.
use llmgateway.Prelude.{◌≡◌, ◌↔◌, refl, sym, ap, ◌∙◌, inl, inr, Option, String, Bool-cases}
use mathlib.Core.Path.{subst}
use llmgateway.Json.{Peek, JsonPackage}
use llmgateway.Store.Keys.{ApiKey}
use llmgateway.Store.Catalog.{Store, backends_for_model, resolve_alias}
use llmgateway.Handlers.Screen.{
  passed, Read, read_body, permit, Orchestration, handles, Target, orchestrated, direct, Screened,
  read_peek, to_orchestrator, to_backends, find_target, screen_peek, screen,
}
use llmgateway.Handlers.Vetted.{
  IsPermitted, IsTarget, Vetted, bind-passed, passed-bind, read_body-passed, read_peek-passed,
  permit-passed, to_orchestrator-passed, to_backends-passed,
}

module _ (J : JsonPackage) where
  find_target-passed :
      (o : Option Orchestration) (name raw : String) (s : Store) (t : Target)
      → (find_target J o name raw s ≡ passed t) ↔ IsTarget J o s name raw t
  unfolding find_target
  find_target-passed o name raw s orchestrated = elim (Bool-cases (handles o name)) [
    | inl on ↦
        let e : find_target J o name raw s ≡ to_orchestrator J name raw s =
          rw (find_target, on) refl in
        let iff = to_orchestrator-passed J name raw s orchestrated in
        (λ h. (on, (iff.0 (sym e ∙ h)).1), λ g. e ∙ iff.1 (refl, g.1))
    | inr off ↦
        let e : find_target J o name raw s ≡ to_backends J name raw s =
          rw (find_target, off) refl in
        let iff = to_backends-passed J name raw s orchestrated in
        (λ h. let (v, q, n) = iff.0 (sym e ∙ h) in absurd cc, λ g. absurd cc)
  ]
  find_target-passed o name raw s (direct cs) = elim (Bool-cases (handles o name)) [
    | inl on ↦
        let e : find_target J o name raw s ≡ to_orchestrator J name raw s =
          rw (find_target, on) refl in
        let iff = to_orchestrator-passed J name raw s (direct cs) in
        (λ h. let (q, n) = iff.0 (sym e ∙ h) in absurd cc, λ g. absurd cc)
    | inr off ↦
        let e : find_target J o name raw s ≡ to_backends J name raw s =
          rw (find_target, off) refl in
        let iff = to_backends-passed J name raw s (direct cs) in
        (
          λ h.
              let (v, q, n) = iff.0 (sym e ∙ h) in
              let same : cs ≡ backends_for_model name s = cc in
              (off, v, same, λ z. n (sym same ∙ z)),
          λ (f, v, q, n). e ∙ iff.1 (v, ap direct q, λ z. n (q ∙ z)),
        )
  ]

  -- What `screen_peek` makes of the names and the target that it finds.
  abbrev found : String → Peek → Target → String × String → Screened
  found raw p target names = record {
    raw = raw;
    peek = p;
    internal_model = names.0;
    forward_name = names.1;
    target = target;
  }

  screen_peek-passed :
      (o : Option Orchestration) (k : Option ApiKey) (s : Store) (raw : String) (p : Peek)
      (t : Screened)
      → (screen_peek J o k s raw p ≡ passed t) ↔ (
          IsPermitted k p.model (resolve_alias p.model s).0
          × ((target : Target) × (t ≡ found raw p target (resolve_alias p.model s))
              × IsTarget J o s (resolve_alias p.model s).0 raw target))
  unfolding screen_peek
  screen_peek-passed o k s raw p t =
      let internal = (resolve_alias p.model s).0 in
      (
        λ h.
            let (u, e1, h1) = bind-passed (permit k p.model internal) _ t h in
            let (target, e2, h2) = bind-passed (find_target J o internal raw s) _ t h1 in
            (
              (permit-passed J k p.model internal u).0 e1,
              (target, cc, (find_target-passed o internal raw s target).0 e2),
            ),
        λ (v, (target, e, w)).
            passed-bind (permit k p.model internal) _ t tt
              ((permit-passed J k p.model internal tt).1 v)
              (passed-bind (find_target J o internal raw s) _ t target
                ((find_target-passed o internal raw s target).1 w) (ap passed (sym e))),
      )

  -- `Forward` goes on to the admission, or to the orchestrator, exactly with the requests that are
  -- in order: the body was read whole, is not empty, parses and names a model; the key may use both
  -- that name and the model that it resolves to; and the model is one of the orchestrator's, or it
  -- is not switched off and has a backend; and in both cases it takes the features of the body.
  pub screen-Vetted :
      (o : Option Orchestration) (k : Option ApiKey) (read : Read) (s : Store) (t : Screened)
      → (screen J o k read s ≡ passed t) ↔ Vetted J o k read s t
  unfolding screen
  screen-Vetted o k read s t = (
    λ h.
        let (raw, e1, h1) = bind-passed (read_body read) _ t h in
        let (p, e2, h2) = bind-passed (read_peek J raw) _ t h1 in
        let (body, not_blank) = (read_body-passed J read raw).0 e1 in
        let (parsed, named) = (read_peek-passed J raw p).0 e2 in
        let (permitted, (target, q, allowed)) = (screen_peek-passed o k s raw p t).0 h2 in
        subst (Vetted J o k read s) (sym q) (record {
          body = body;
          not_blank = not_blank;
          parsed = parsed;
          named = named;
          resolved = refl;
          permitted = permitted;
          allowed = allowed;
        }),
    λ v.
        let i : (resolve_alias t.peek.model s).0 ≡ t.internal_model = ap (λ r. r.0) v.resolved in
        passed-bind (read_body read) _ t t.raw
          ((read_body-passed J read t.raw).1 (v.body, v.not_blank))
          (passed-bind (read_peek J t.raw) _ t t.peek
            ((read_peek-passed J t.raw t.peek).1 (v.parsed, v.named))
            ((screen_peek-passed o k s t.raw t.peek t).1 (
              subst (IsPermitted k t.peek.model) (sym i) v.permitted,
              (
                t.target,
                ap (found t.raw t.peek t.target) (sym v.resolved),
                subst (λ n. IsTarget J o s n t.raw t.target) (sym i) v.allowed,
              ),
            ))),
  )
