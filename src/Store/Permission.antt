-- ===== src/Store/Permission.antt =====
-- Which models an API key may use.
use llmgateway.Prelude.{
  ◌≡◌, ◌≢◌, sym, ap, ◌∙◌, ◌⊎◌, ◌↔◌, inl, inr, true, List, [], ◌∷◌, String, str_eq, eq_iff, any,
  arith, Bool-cases,
}
use llmgateway.Prelude.Bytes.{bytes}
use llmgateway.Store.Glob.{Glob, match_pattern-Glob}
use llmgateway.Store.Keys.{ApiKey, matches, matches_either, is_empty, model_allowed_resolved}

-- The pattern is not empty and fits the name.
abbrev pub Fits : String → String → Type 0
Fits p name = (bytes p ≢ []) × Glob (bytes p) (bytes name)

-- One of the patterns fits one of the two names.
abbrev pub Covered : List String → String → String → Type 0
Covered [] requested internal = ⊥
Covered (p ∷ ps) requested internal =
    (Fits p requested ⊎ Fits p internal) ⊎ Covered ps requested internal

matches-Fits : (p name : String) → (matches p name ≡ true) ↔ Fits p name
unfolding matches
matches-Fits p name = match_pattern-Glob (bytes p) (bytes name)

matches_either-Fits :
    (p requested internal : String)
    → (matches_either requested internal p ≡ true) ↔ (Fits p requested ⊎ Fits p internal)
matches_either-Fits p requested internal = (forth, back)
  where
    same : str_eq internal requested ≡ true → internal ≡ requested
    same e = (eq_iff internal requested).0 e

    forth : matches_either requested internal p ≡ true → Fits p requested ⊎ Fits p internal
    forth h = elim (Bool-cases (matches p requested)) [
      | inl e ↦ inl ((matches-Fits p requested).0 e)
      | inr e ↦ inr ((matches-Fits p internal).0 (unfold matches_either in ground (arith, e)))
    ]

    back : Fits p requested ⊎ Fits p internal → matches_either requested internal p ≡ true
    back (inl f) =
        let e = (matches-Fits p requested).1 f in unfold matches_either in ground (arith, e)
    back (inr f) =
        let e = (matches-Fits p internal).1 f in
        elim (Bool-cases (str_eq internal requested)) [
          | inl q ↦
              let m : matches p requested ≡ true = ap (matches p) (sym (same q)) ∙ e in
              unfold matches_either in ground (arith, m)
          | inr q ↦ unfold matches_either in ground (arith, e, q)
        ]

any-Covered :
    (ps : List String) (requested internal : String)
    → (any (matches_either requested internal) ps ≡ true) ↔ Covered ps requested internal
unfolding any
any-Covered [] requested internal = (λ h. cc, λ h. absurd h)
any-Covered (p ∷ ps) requested internal =
    let head = matches_either-Fits p requested internal in
    let rest = any-Covered ps requested internal in
    (
      λ h. elim (Bool-cases (matches_either requested internal p)) [
        | inl e ↦ inl (head.0 e)
        | inr e ↦ inr (rest.0 (rw (e, any) at h))
      ],
      λ c. elim c [ inl f ↦ ground (arith, head.1 f) | inr m ↦ ground (arith, rest.1 m) ],
    )

-- `ModelAllowedResolved` allows a request exactly when no denied pattern fits the name that was
-- asked for or the internal name behind it, and an allowed pattern fits one of the two or there
-- are no allowed patterns. So an alias gives no way round a denied internal model.
pub model_allowed_resolved-Covered :
    (requested internal : String) (k : ApiKey)
    → (model_allowed_resolved requested internal k ≡ true) ↔ (
        (¬ Covered k.denied_models requested internal)
        × ((k.allowed_models ≡ []) ⊎ Covered k.allowed_models requested internal))
unfolding model_allowed_resolved
model_allowed_resolved-Covered requested internal k =
    let denied = any-Covered k.denied_models requested internal in
    let allowed = any-Covered k.allowed_models requested internal in
    (forth denied allowed, back denied allowed)
  where
    Denies : Type 0
    Denies =
        (any (matches_either requested internal) k.denied_models ≡ true)
        ↔ Covered k.denied_models requested internal

    Allows : Type 0
    Allows =
        (any (matches_either requested internal) k.allowed_models ≡ true)
        ↔ Covered k.allowed_models requested internal

    forth :
        Denies
        → Allows
        → model_allowed_resolved requested internal k ≡ true
        → (¬ Covered k.denied_models requested internal)
          × ((k.allowed_models ≡ []) ⊎ Covered k.allowed_models requested internal)
    forth d a h = (
      λ c. ground (arith, d.1 c),
      elim (Bool-cases (is_empty k.allowed_models)) [
        | inl e ↦ inl (ground (arith, e))
        | inr e ↦ inr (a.0 (ground (arith, e)))
      ],
    )

    back :
        Denies
        → Allows
        → ((¬ Covered k.denied_models requested internal)
            × ((k.allowed_models ≡ []) ⊎ Covered k.allowed_models requested internal))
        → model_allowed_resolved requested internal k ≡ true
    back d a (n, o) = elim (Bool-cases (any (matches_either requested internal) k.denied_models)) [
      | inl e ↦ absurd (n (d.0 e))
      | inr e ↦ elim o [ inl z ↦ ground (arith, e, z) | inr c ↦ ground (arith, e, a.1 c) ]
    ]
