-- ===== src/Admin/Kept.antt =====
-- The modes of models and aliases under the handlers that change them.
use llmgateway.Prelude.{
  ◌≡◌, refl, inl, inr, Bool, true, false, ◌||◌, [], ◌∷◌, Option, none, some, String, str_eq, All,
  arith, Bool-cases, Option-cases, if◌then◌else◌,
}
use mathlib.Core.Path.{subst}
use llmgateway.Prelude.Dict.{Dict, lookup, insert, insert-All}
use llmgateway.Store.Catalog.{Store, Model, ModelAlias, model, upsert_model_alias}
use llmgateway.Admin.{User}
use llmgateway.Admin.Panel.{Panel, patch, or_enabled}
use llmgateway.Admin.Models.{
  ModelBody, ModelPatch, AliasBody, AliasPatch, valid_capability_mode, valid_forwarding_mode,
  is_bad, or_text, new_model, patched_first, patched_rest, lookup_alias, change_alias, put_model,
  patch_model, put_alias, patch_alias,
}
use llmgateway.Admin.Modes.{IsModel, IsAlias, HasModes}

lookup-IsModel :
    (k : String) (ms : Dict Model) (m : Model)
    → All IsModel ms
    → lookup k ms ≡ some m
    → valid_capability_mode m.capability_mode ≡ true
unfolding lookup
lookup-IsModel k [] m h e = cc
lookup-IsModel k ((j, n) ∷ ms) m (here, later) e = elim (Bool-cases (str_eq j k)) [
  | inl q ↦
      let same : n ≡ m = ground (arith, e, q) in
      subst (λ x. valid_capability_mode x.capability_mode ≡ true) same here
  | inr q ↦ lookup-IsModel k ms m later (ground (arith, e, q))
]

lookup_alias-IsAlias :
    (name k : String) (xs : Dict ModelAlias) (a : ModelAlias)
    → All IsAlias xs
    → lookup_alias name xs ≡ some (k, a)
    → valid_forwarding_mode a.forwarding_mode ≡ true
unfolding lookup_alias
lookup_alias-IsAlias name k [] a h e = cc
lookup_alias-IsAlias name k ((j, b) ∷ xs) a (here, later) e =
    elim (Bool-cases (str_eq b.alias name)) [
      | inl q ↦
          let same : b ≡ a = ground (arith, e, q) in
          subst (λ x. valid_forwarding_mode x.forwarding_mode ≡ true) same here
      | inr q ↦ lookup_alias-IsAlias name k xs a later (ground (arith, e, q))
    ]

or_mode :
    (m : String)
    → valid_forwarding_mode m ≡ true
    → valid_forwarding_mode (if str_eq m "" then "use_internal" else m) ≡ true
unfolding valid_forwarding_mode
or_mode m good = elim (Bool-cases (str_eq m "")) [ inl e ↦ rw e refl | inr e ↦ rw e good ]

pub put_model-HasModes :
    (u : User) (body : Option ModelBody) (p : Panel)
    → HasModes p.store
    → HasModes (put_model u body p).0.store
unfolding put_model
put_model-HasModes u none p h = h
put_model-HasModes u (some b) p h =
    let mode = or_text b.capability_mode "passthrough" in
    elim (Bool-cases (str_eq b.name "")) [
      | inl e ↦ rw (put_model, e) h
      | inr e ↦ elim (Bool-cases (valid_capability_mode mode)) [
        | inr bad ↦ rw (put_model, e, bad) h
        | inl good ↦
            rw (put_model, e, good)
              (record {
                models = insert-All IsModel b.name (new_model b) p.store.models good h.models;
                aliases = h.aliases;
              })
      ]
    ]

upsert_model_alias-HasModes :
    (a : ModelAlias) (s : Store)
    → valid_forwarding_mode a.forwarding_mode ≡ true
    → HasModes s
    → HasModes (upsert_model_alias a s)
unfolding upsert_model_alias
upsert_model_alias-HasModes a s good h = record {
  models = h.models;
  aliases = insert-All IsAlias a.alias _ s.model_aliases (or_mode a.forwarding_mode good) h.aliases;
}

patch_valid :
    (test : String → Bool) (o : Option String) (y : String)
    → test y ≡ true
    → is_bad test o ≡ false
    → test (patch o y) ≡ true
unfolding is_bad patch
patch_valid test none y old good = old
patch_valid test (some x) y old good = ground (arith, good)

pub put_alias-HasModes :
    (u : User) (body : Option AliasBody) (p : Panel)
    → HasModes p.store
    → HasModes (put_alias u body p).0.store
unfolding put_alias
put_alias-HasModes u none p h = h
put_alias-HasModes u (some b) p h =
    let mode = or_text b.forwarding_mode "use_internal" in
    elim (Bool-cases (str_eq b.alias "" || str_eq b.internal_model "")) [
      | inl e ↦ rw (put_alias, e) h
      | inr e ↦ elim (Bool-cases (valid_forwarding_mode mode)) [
        | inr bad ↦ rw (put_alias, e, bad) h
        | inl good ↦
            let made : ModelAlias = record {
              alias = b.alias;
              internal_model = b.internal_model;
              forwarding_mode = mode;
              enabled = or_enabled b.enabled;
            } in
            rw (put_alias, e, good) (upsert_model_alias-HasModes made p.store good h)
      ]
    ]

pub patch_model-HasModes :
    (u : User) (name : String) (body : Option ModelPatch) (p : Panel)
    → HasModes p.store
    → HasModes (patch_model u name body p).0.store
unfolding patch_model
patch_model-HasModes u name body p h = elim (Option-cases (model name p.store)) [
  | inl e ↦ rw (patch_model, e) h
  | inr (m, e) ↦ elim (Option-cases body) [
    | inl f ↦ rw (patch_model, e, f) h
    | inr (d, f) ↦
        let old = lookup-IsModel name p.store.models m h.models e in
        let first = patched_first d m in
        let held = insert-All IsModel name first p.store.models old h.models in
        elim (Bool-cases (is_bad valid_capability_mode d.capability_mode)) [
          | inl bad ↦ rw (patch_model, e, f, bad) (record { models = held; aliases = h.aliases })
          | inr good ↦
              rw (patch_model, e, f, good)
                (record {
                  models =
                      insert-All IsModel first.name (patched_rest d first)
                        (insert name first p.store.models)
                        (patch_valid valid_capability_mode d.capability_mode first.capability_mode
                          old good)
                        held;
                  aliases = h.aliases;
                })
        ]
  ]
]

pub patch_alias-HasModes :
    (u : User) (name : String) (body : Option AliasPatch) (p : Panel)
    → HasModes p.store
    → HasModes (patch_alias u name body p).0.store
unfolding patch_alias
patch_alias-HasModes u name body p h =
    elim (Option-cases (lookup_alias name p.store.model_aliases)) [
      | inl e ↦ rw (patch_alias, e) h
      | inr ((k, a), e) ↦ elim (Option-cases body) [
        | inl f ↦ rw (patch_alias, e, f) h
        | inr (d, f) ↦
            let old = lookup_alias-IsAlias name k p.store.model_aliases a h.aliases e in
            let first = record a { internal_model = patch d.internal_model a.internal_model } in
            let held : HasModes (change_alias k first p.store) = record {
              models = h.models;
              aliases = insert-All IsAlias k first p.store.model_aliases old h.aliases;
            } in
            elim (Bool-cases (is_bad valid_forwarding_mode d.forwarding_mode)) [
              | inl bad ↦ rw (patch_alias, e, f, bad) held
              | inr good ↦
                  let made : ModelAlias = record first {
                    forwarding_mode = patch d.forwarding_mode a.forwarding_mode;
                    enabled = patch d.enabled a.enabled;
                  } in
                  rw (patch_alias, e, f, good)
                    (upsert_model_alias-HasModes made (change_alias k first p.store)
                      (patch_valid valid_forwarding_mode d.forwarding_mode a.forwarding_mode old
                        good)
                      held)
            ]
      ]
    ]
