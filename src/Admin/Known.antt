-- ===== src/Admin/Known.antt =====
-- The modes of models and aliases, from the configuration on through the requests of the admin API.
use llmgateway.Prelude.{◌≡◌, refl, sym, inl, inr, Bool, List, [], ◌∷◌, Bool-cases}
use mathlib.Core.Path.{subst}
use llmgateway.Prelude.Dict.{delete-All}
use llmgateway.Config.Validate.{Config, valid, validate}
use llmgateway.Config.Accepted.{validate-IsConsistent}
use llmgateway.Store.Catalog.{Store, Pointer}
use llmgateway.Store.Keys.{ApiKey}
use llmgateway.Store.Load.{load_from_config}
use llmgateway.Admin.{AdminPackage, User, has_permission}
use llmgateway.Admin.Entry.{Entry, entered, refused}
use llmgateway.Admin.Panel.{Panel}
use llmgateway.Admin.Keys.{TextPackage}
use llmgateway.Admin.Serve.{
  Change, creates_backend, patches_backend, deletes_backend, switches_backend, maintains_backend,
  probes_backend, upserts_model, patches_model, deletes_model, upserts_alias, patches_alias,
  deletes_alias, creates_api_key, patches_api_key, switches_api_key, rotates_api_key,
  deletes_api_key, creates_user, deletes_user, permission, act, serve, serve_all,
}
use llmgateway.Admin.Modes.{IsModel, IsAlias, HasModes, load_from_config-HasModes}
use llmgateway.Admin.Untouched.{
  SameCatalog-HasModes, create_backend-SameCatalog, patch_backend-SameCatalog,
  remove_backend_by_id-SameCatalog, switch_backend-SameCatalog, toggle_maintenance-SameCatalog,
  probe_backend-SameCatalog, create_api_key-SameCatalog, patch_api_key-SameCatalog,
  set_api_key_enabled-SameCatalog, rotate_key-SameCatalog, create_user-SameCatalog,
}
use llmgateway.Admin.Kept.{
  put_model-HasModes, patch_model-HasModes, put_alias-HasModes, patch_alias-HasModes,
}

module _ (P : AdminPackage) (X : TextPackage) where
  act-HasModes :
      (u : User) (c : Change) (p : Panel) → HasModes p.store → HasModes (act P X u c p).0.store
  unfolding act
  act-HasModes u (creates_backend probed body) p h =
      SameCatalog-HasModes _ _ (create_backend-SameCatalog u probed body p) h
  act-HasModes u (patches_backend id body) p h =
      SameCatalog-HasModes _ _ (patch_backend-SameCatalog u id body p) h
  act-HasModes u (deletes_backend id) p h =
      SameCatalog-HasModes _ _ (remove_backend_by_id-SameCatalog u id p) h
  act-HasModes u (switches_backend on id) p h =
      SameCatalog-HasModes _ _ (switch_backend-SameCatalog u on id p) h
  act-HasModes u (maintains_backend on id) p h =
      SameCatalog-HasModes _ _ (toggle_maintenance-SameCatalog u on id p) h
  act-HasModes u (probes_backend probed id) p h =
      SameCatalog-HasModes _ _ (probe_backend-SameCatalog probed id p) h
  act-HasModes u (upserts_model body) p h = put_model-HasModes u body p h
  act-HasModes u (patches_model name body) p h = patch_model-HasModes u name body p h
  act-HasModes u (deletes_model name) p h = record {
    models = delete-All IsModel name p.store.models h.models;
    aliases = h.aliases;
  }
  act-HasModes u (upserts_alias body) p h = put_alias-HasModes u body p h
  act-HasModes u (patches_alias alias body) p h = patch_alias-HasModes u alias body p h
  act-HasModes u (deletes_alias alias) p h = record {
    models = h.models;
    aliases = delete-All IsAlias alias p.store.model_aliases h.aliases;
  }
  act-HasModes u (creates_api_key at generated body) p h =
      SameCatalog-HasModes _ _ (create_api_key-SameCatalog X u at generated body p) h
  act-HasModes u (patches_api_key id body) p h =
      SameCatalog-HasModes _ _ (patch_api_key-SameCatalog X u id body p) h
  act-HasModes u (switches_api_key on id) p h =
      SameCatalog-HasModes _ _ (set_api_key_enabled-SameCatalog X u on id p) h
  act-HasModes u (rotates_api_key given generated id) p h =
      SameCatalog-HasModes _ _ (rotate_key-SameCatalog X u given generated id p) h
  act-HasModes u (deletes_api_key id) p h =
      SameCatalog-HasModes _ _ (record { models = refl; aliases = refl }) h
  act-HasModes u (creates_user salt body) p h =
      SameCatalog-HasModes _ _ (create_user-SameCatalog X P u salt body p) h
  act-HasModes u (deletes_user name) p h =
      SameCatalog-HasModes _ _ (record { models = refl; aliases = refl }) h

  serve-HasModes :
      (e : Entry) (c : Change) (p : Panel) → HasModes p.store → HasModes (serve P X e c p).0.store
  unfolding serve
  serve-HasModes (refused n) c p h = h
  serve-HasModes (entered u) c p h = elim (Bool-cases (has_permission u.role (permission c))) [
    | inl may ↦ rw (serve, may) (act-HasModes u c p h)
    | inr no_perm ↦ rw (serve, no_perm) h
  ]

  serve_all-kept :
      (requests : List (Entry × Change)) (p : Panel)
      → HasModes p.store
      → HasModes (serve_all P X requests p).store
  unfolding serve_all
  serve_all-kept [] p h = h
  serve_all-kept ((e, c) ∷ rest) p h =
      serve_all-kept rest (serve P X e c p).0 (serve-HasModes e c p h)

-- `NewStore`
unfoldable pub new_store : (Pointer → ApiKey) → Store
new_store heap = record {
  backends = [];
  models = [];
  model_aliases = [];
  api_keys = [];
  key_by_hash = [];
  heap = heap;
}

module _ (F : Type 0) (below above : F → Bool) (P : AdminPackage) (X : TextPackage) where
  -- The modes of the catalog are always known ones. The gateway starts with the store of a
  -- configuration that `Validate` has accepted; whatever requests the admin API then serves, of
  -- whatever users, every model of the store has the mode passthrough, declared or strict, and every
  -- alias has the mode use_internal or keep_external. This covers the patches with a bad mode.
  pub serve_all-HasModes :
      (c d : Config F below above) (heap : Pointer → ApiKey) (at : Pointer)
      (requests : List (Entry × Change)) (p : Panel)
      → validate F below above c ≡ valid d
      → p.store
        ≡ load_from_config X.hash_key X.parse_time at d.backends d.models d.aliases d.api_keys
            (new_store heap)
      → HasModes (serve_all P X requests p).store
  unfolding new_store
  serve_all-HasModes c d heap at requests p ok start =
      let good = validate-IsConsistent F below above c d ok in
      serve_all-kept P X requests p (
        subst HasModes (sym start) (
          load_from_config-HasModes X.hash_key X.parse_time at d.backends d.models d.aliases
            d.api_keys (new_store heap) good.models good.aliases
            (record { models = tt; aliases = tt })))
