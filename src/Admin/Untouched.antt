-- ===== src/Admin/Untouched.antt =====
-- The requests of the admin API that leave models and aliases alone.
use llmgateway.Prelude.{
  ℕ, ◌≡◌, refl, sym, inl, inr, Bool, Option, none, some, String, All, arith, Option-cases,
}
use mathlib.Core.Path.{subst}
use llmgateway.Prelude.Dict.{lookup}
use llmgateway.Store.Backend.{Backend}
use llmgateway.Checker.{Checker}
use llmgateway.Store.Catalog.{Store, Pointer, backend, upsert_api_key, delete_api_key}
use llmgateway.Admin.{AdminPackage, User}
use llmgateway.Admin.Panel.{Panel}
use llmgateway.Admin.Backends.{
  BackendBody, Probed, create_backend, patch_backend, remove_backend_by_id, switch_backend,
  toggle_maintenance, check_now, probe_backend, change_backend,
}
use llmgateway.Admin.Keys.{
  ApiKeyBody, ApiKeyPatch, UserBody, TextPackage, create_api_key, patch_api_key,
  set_api_key_enabled, rotate_key, create_user,
}
use llmgateway.Admin.Modes.{IsModel, IsAlias, HasModes}

-- The models and the aliases are the same.
pub record SameCatalog (s t : Store) : Type 0 where
  pub models : t.models ≡ s.models
  pub aliases : t.model_aliases ≡ s.model_aliases

pub SameCatalog-HasModes : (s t : Store) → SameCatalog s t → HasModes s → HasModes t
SameCatalog-HasModes s t e h = record {
  models = subst (All IsModel) (sym e.models) h.models;
  aliases = subst (All IsAlias) (sym e.aliases) h.aliases;
}

pub change_backend-SameCatalog :
    (id : String) (f : Backend → Backend) (s : Store) → SameCatalog s (change_backend id f s)
unfolding change_backend
change_backend-SameCatalog id f s = record { models = ground arith; aliases = ground arith }

pub create_backend-SameCatalog :
    (u : User) (probed : Probed) (body : Option BackendBody) (p : Panel)
    → SameCatalog p.store (create_backend u probed body p).0.store
unfolding create_backend
create_backend-SameCatalog u probed none p = record { models = refl; aliases = refl }
create_backend-SameCatalog u probed (some b) p = record {
  models = ground arith;
  aliases = ground arith;
}

pub patch_backend-SameCatalog :
    (u : User) (id : String) (body : Option BackendBody) (p : Panel)
    → SameCatalog p.store (patch_backend u id body p).0.store
unfolding patch_backend
patch_backend-SameCatalog u id body p = record { models = ground arith; aliases = ground arith }

pub remove_backend_by_id-SameCatalog :
    (u : User) (id : String) (p : Panel) → SameCatalog p.store (remove_backend_by_id u id p).0.store
unfolding remove_backend_by_id
remove_backend_by_id-SameCatalog u id p = record { models = ground arith; aliases = ground arith }

pub switch_backend-SameCatalog :
    (u : User) (on : Bool) (id : String) (p : Panel)
    → SameCatalog p.store (switch_backend u on id p).0.store
unfolding switch_backend
switch_backend-SameCatalog u on id p = record { models = ground arith; aliases = ground arith }

pub toggle_maintenance-SameCatalog :
    (u : User) (on : Bool) (id : String) (p : Panel)
    → SameCatalog p.store (toggle_maintenance u on id p).0.store
unfolding toggle_maintenance
toggle_maintenance-SameCatalog u on id p = record { models = ground arith; aliases = ground arith }

module _ (X : TextPackage) where
  pub create_api_key-SameCatalog :
      (u : User) (at : Pointer) (generated : String) (body : Option ApiKeyBody) (p : Panel)
      → SameCatalog p.store (create_api_key X u at generated body p).0.store
  unfolding create_api_key
  create_api_key-SameCatalog u at generated none p = record { models = refl; aliases = refl }
  create_api_key-SameCatalog u at generated (some b) p = record { models = refl; aliases = refl }

  pub patch_api_key-SameCatalog :
      (u : User) (id : String) (body : Option ApiKeyPatch) (p : Panel)
      → SameCatalog p.store (patch_api_key X u id body p).0.store
  unfolding patch_api_key
  patch_api_key-SameCatalog u id body p = record { models = ground arith; aliases = ground arith }

  pub set_api_key_enabled-SameCatalog :
      (u : User) (on : Bool) (id : String) (p : Panel)
      → SameCatalog p.store (set_api_key_enabled X u on id p).0.store
  unfolding set_api_key_enabled
  set_api_key_enabled-SameCatalog u on id p = record {
    models = ground arith;
    aliases = ground arith;
  }

  pub rotate_key-SameCatalog :
      (u : User) (given generated id : String) (p : Panel)
      → SameCatalog p.store (rotate_key X u given generated id p).0.store
  unfolding rotate_key upsert_api_key delete_api_key
  rotate_key-SameCatalog u given generated id p = elim (Option-cases (lookup id p.store.api_keys)) [
    | inl e ↦ rw (rotate_key, e) (record { models = refl; aliases = refl })
    | inr (at, e) ↦ rw (rotate_key, e) (record { models = refl; aliases = refl })
  ]

  pub create_user-SameCatalog :
      (P : AdminPackage) (u : User) (salt : ℕ) (body : Option UserBody) (p : Panel)
      → SameCatalog p.store (create_user X P u salt body p).0.store
  unfolding create_user
  create_user-SameCatalog P u salt none p = record { models = refl; aliases = refl }
  create_user-SameCatalog P u salt (some b) p = record {
    models = ground arith;
    aliases = ground arith;
  }

check_now-SameCatalog :
    (probed : Probed) (id : String) (b : Backend) (h : Option Checker) (p : Panel)
    → SameCatalog p.store (check_now probed id b h p).0.store
unfolding check_now
check_now-SameCatalog probed id b none p = record { models = refl; aliases = refl }
check_now-SameCatalog probed id b (some c) p = change_backend-SameCatalog id _ p.store

pub probe_backend-SameCatalog :
    (probed : Probed) (id : String) (p : Panel)
    → SameCatalog p.store (probe_backend probed id p).0.store
unfolding probe_backend
probe_backend-SameCatalog probed id p = elim (Option-cases (backend id p.store)) [
  | inl e ↦ rw (probe_backend, e) (record { models = refl; aliases = refl })
  | inr (b, e) ↦ rw (probe_backend, e) (check_now-SameCatalog probed id b p.health p)
]
