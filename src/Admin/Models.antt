-- ===== src/Admin/Models.antt =====
-- The handlers of internal/admin/admin.go and admin_models.go that change models and aliases,
-- behind the check of the permission.
use llmgateway.Prelude.{
  Bool, false, not, ◌||◌, [], ◌∷◌, Option, none, some, String, str_eq, if◌then◌else◌,
}
use llmgateway.Prelude.Dict.{Dict, insert}
use llmgateway.Prelude.Int.{ℤ}
use llmgateway.Store.Catalog.{
  Store, Model, ModelAlias, model, upsert_model, delete_model, upsert_model_alias,
  delete_model_alias,
}
use llmgateway.Admin.{User}
use llmgateway.Admin.Panel.{Panel, Answer, turned_away, finish_with, patch, or_enabled}

pub record ModelBody : Type 0 where
  pub name : String
  pub type : String
  pub enabled : Option Bool
  pub context_length : ℤ
  pub capability_mode : String
  pub capabilities : Dict Bool
  pub routing_policy : String

pub record ModelPatch : Type 0 where
  pub type : Option String
  pub enabled : Option Bool
  pub context_length : Option ℤ
  pub capability_mode : Option String
  pub capabilities : Option (Dict Bool)
  pub routing_policy : Option String

pub record AliasBody : Type 0 where
  pub alias : String
  pub internal_model : String
  pub forwarding_mode : String
  pub enabled : Option Bool

pub record AliasPatch : Type 0 where
  pub internal_model : Option String
  pub forwarding_mode : Option String
  pub enabled : Option Bool

-- `validCapabilityMode(s)`
unfoldable pub valid_capability_mode : String → Bool
valid_capability_mode s = str_eq s "passthrough" || str_eq s "declared" || str_eq s "strict"

-- `validForwardingMode(s)`
unfoldable pub valid_forwarding_mode : String → Bool
valid_forwarding_mode s = str_eq s "use_internal" || str_eq s "keep_external"

-- A text, or what stands for the empty one.
unfoldable pub or_text : String → String → String
or_text s default = if str_eq s "" then default else s

-- `upsertModel`
unfoldable pub new_model : ModelBody → Model
unfolding or_text or_enabled
new_model b = record {
  name = b.name;
  type = or_text b.type "chat";
  enabled = or_enabled b.enabled;
  context_length = b.context_length;
  capability_mode = or_text b.capability_mode "passthrough";
  capabilities = b.capabilities;
  routing_policy = b.routing_policy;
}

unfoldable pub put_model : User → Option ModelBody → Panel → Panel × Answer
unfolding new_model valid_capability_mode or_text upsert_model finish_with
put_model u none p = (p, turned_away 400 "invalid_json")
put_model u (some b) p =
    if str_eq b.name ""
    then (p, turned_away 400 "missing_name")
    else if not (valid_capability_mode (or_text b.capability_mode "passthrough"))
    then (p, turned_away 400 "invalid_capability_mode")
    else finish_with u "model.upsert" "model" b.name 200
        (record p { store = upsert_model (new_model b) p.store })

-- `patchModel`: the fields that are written ahead of the check of the mode, into the model that the
-- store holds, and those behind it.
unfoldable pub patched_first : ModelPatch → Model → Model
unfolding patch
patched_first body m = record m {
  type = patch body.type m.type;
  enabled = patch body.enabled m.enabled;
  context_length = patch body.context_length m.context_length;
}

unfoldable pub patched_rest : ModelPatch → Model → Model
unfolding patch
patched_rest body m = record m {
  capability_mode = patch body.capability_mode m.capability_mode;
  capabilities = patch body.capabilities m.capabilities;
  routing_policy = patch body.routing_policy m.routing_policy;
}

-- `body.CapabilityMode != nil && !validCapabilityMode(*body.CapabilityMode)`, and the like.
unfoldable pub is_bad : (String → Bool) → Option String → Bool
is_bad valid none = false
is_bad valid (some mode) = not (valid mode)

-- The model behind the store's pointer, changed.
unfoldable pub change_model : String → Model → Store → Store
change_model name m s = record s { models = insert name m s.models }

unfoldable pub patch_model : User → String → Option ModelPatch → Panel → Panel × Answer
unfolding patched_first patched_rest is_bad valid_capability_mode change_model upsert_model model
    finish_with
patch_model u name body p = elim (model name p.store) [
  | none ↦ (p, turned_away 404 "model_not_found")
  | some m ↦ elim body [
    | none ↦ (p, turned_away 400 "invalid_json")
    | some body ↦
        let first = patched_first body m in
        let q = record p { store = change_model name first p.store } in
        if is_bad valid_capability_mode body.capability_mode
        then (q, turned_away 400 "invalid_capability_mode")
        else finish_with u "model.update" "model" first.name 200
            (record q { store = upsert_model (patched_rest body first) q.store })
  ]
]

-- `deleteModel`
unfoldable pub remove_model : User → String → Panel → Panel × Answer
unfolding delete_model finish_with
remove_model u name p =
    finish_with u "model.delete" "model" name 204 (record p { store = delete_model name p.store })

-- `upsertAlias`
unfoldable pub put_alias : User → Option AliasBody → Panel → Panel × Answer
unfolding valid_forwarding_mode or_text or_enabled upsert_model_alias finish_with
put_alias u none p = (p, turned_away 400 "invalid_json")
put_alias u (some b) p =
    if str_eq b.alias "" || str_eq b.internal_model ""
    then (p, turned_away 400 "missing_fields")
    else if not (valid_forwarding_mode (or_text b.forwarding_mode "use_internal"))
    then (p, turned_away 400 "invalid_forwarding_mode")
    else finish_with u "alias.upsert" "alias" b.alias 200 (record p {
      store =
          upsert_model_alias
            (record {
              alias = b.alias;
              internal_model = b.internal_model;
              forwarding_mode = or_text b.forwarding_mode "use_internal";
              enabled = or_enabled b.enabled;
            })
            p.store;
    })

-- `lookupAlias(name)`: the first alias of this name, with its key in the map.
unfoldable pub lookup_alias : String → Dict ModelAlias → Option (String × ModelAlias)
lookup_alias name [] = none
lookup_alias name ((k, a) ∷ rest) =
    if str_eq a.alias name then some (k, a) else lookup_alias name rest

unfoldable pub change_alias : String → ModelAlias → Store → Store
change_alias k a s = record s { model_aliases = insert k a s.model_aliases }

-- `patchAlias`, with the write ahead of the check as in `patchModel`.
unfoldable pub patch_alias : User → String → Option AliasPatch → Panel → Panel × Answer
unfolding lookup_alias is_bad valid_forwarding_mode change_alias upsert_model_alias patch
    finish_with
patch_alias u name body p = elim (lookup_alias name p.store.model_aliases) [
  | none ↦ (p, turned_away 404 "alias_not_found")
  | some (k, a) ↦ elim body [
    | none ↦ (p, turned_away 400 "invalid_json")
    | some body ↦
        let first = record a { internal_model = patch body.internal_model a.internal_model } in
        let q = record p { store = change_alias k first p.store } in
        if is_bad valid_forwarding_mode body.forwarding_mode
        then (q, turned_away 400 "invalid_forwarding_mode")
        else finish_with u "alias.update" "alias" first.alias 200 (record q {
          store =
              upsert_model_alias
                (record first {
                  forwarding_mode = patch body.forwarding_mode first.forwarding_mode;
                  enabled = patch body.enabled first.enabled;
                })
                q.store;
        })
  ]
]

-- `deleteAlias`
unfoldable pub remove_alias : User → String → Panel → Panel × Answer
unfolding delete_model_alias finish_with
remove_alias u alias p =
    finish_with u "alias.delete" "alias" alias 204
      (record p { store = delete_model_alias alias p.store })
