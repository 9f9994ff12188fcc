-- ===== src/Admin/Written.antt =====
-- What a handler leaves in the audit log, or what error it writes.
use llmgateway.Prelude.{
  ℕ, inl, inr, refl, Bool, not, ◌||◌, Option, none, some, String, str_eq, Bool-cases, Option-cases,
}
use llmgateway.Prelude.Dict.{lookup}
use llmgateway.Store.Catalog.{Pointer, backend, model}
use llmgateway.Admin.{AdminPackage, User}
use llmgateway.Store.Backend.{Backend}
use llmgateway.Checker.{Checker}
use llmgateway.Admin.Panel.{Panel}
use llmgateway.Admin.Backends.{
  BackendBody, Probed, create_backend, patch_backend, switch_backend, toggle_maintenance, check_now,
  probe_backend, is_incomplete,
}
use llmgateway.Admin.Models.{
  ModelBody, ModelPatch, AliasBody, AliasPatch, or_text, lookup_alias, valid_capability_mode,
  valid_forwarding_mode, is_bad, put_model, patch_model, put_alias, patch_alias,
}
use llmgateway.Admin.Keys.{
  ApiKeyBody, ApiKeyPatch, UserBody, TextPackage, create_api_key, patch_api_key,
  set_api_key_enabled, rotate_key, create_user,
}
use llmgateway.Admin.Serve.{
  creates_backend, patches_backend, switches_backend, maintains_backend, probes_backend,
  upserts_model, patches_model, upserts_alias, patches_alias, creates_api_key, patches_api_key,
  switches_api_key, rotates_api_key, creates_user,
}
use llmgateway.Admin.Accounts.{
  Accounted, finish_with-Accounted, if-Accounted, turned_away-Accounted, probed-Accounted,
  watch_backend-audit_log, restart_loop-audit_log,
}

pub create_backend-Accounted :
    (u : User) (probed : Probed) (body : Option BackendBody) (p : Panel)
    → Accounted u (creates_backend probed body) p (create_backend u probed body p)
unfolding create_backend
create_backend-Accounted u probed none p = (turned_away-Accounted _ _ _ _ _)
create_backend-Accounted u probed (some b) p =
    if-Accounted u (creates_backend probed (some b)) p (is_incomplete b) _ _
      (λ e. turned_away-Accounted _ _ _ _ _)
      (finish_with-Accounted u "backend.create" "backend" b.id 201 p _
        (creates_backend probed (some b)) refl (watch_backend-audit_log probed b.id _))

pub patch_backend-Accounted :
    (u : User) (id : String) (body : Option BackendBody) (p : Panel)
    → Accounted u (patches_backend id body) p (patch_backend u id body p)
unfolding patch_backend
patch_backend-Accounted u id body p = elim (Option-cases (backend id p.store)) [
  | inl e ↦ rw (patch_backend, e) (turned_away-Accounted _ _ _ _ _)
  | inr (b, e) ↦ elim (Option-cases body) [
    | inl f ↦ rw (patch_backend, e, f) (turned_away-Accounted _ _ _ _ _)
    | inr (d, f) ↦
        rw (patch_backend, e, f)
          (finish_with-Accounted u "backend.update" "backend" b.id 200 p _
            (patches_backend id (some d)) refl (restart_loop-audit_log d.health_check b.id _))
  ]
]

pub switch_backend-Accounted :
    (u : User) (on : Bool) (id : String) (p : Panel)
    → Accounted u (switches_backend on id) p (switch_backend u on id p)
unfolding switch_backend
switch_backend-Accounted u on id p = elim (Option-cases (backend id p.store)) [
  | inl e ↦ rw (switch_backend, e) (turned_away-Accounted _ _ _ _ _)
  | inr (b, e) ↦
      rw (switch_backend, e)
        (finish_with-Accounted u _ "backend" id 200 p _ (switches_backend on id) refl refl)
]

pub toggle_maintenance-Accounted :
    (u : User) (on : Bool) (id : String) (p : Panel)
    → Accounted u (maintains_backend on id) p (toggle_maintenance u on id p)
unfolding toggle_maintenance
toggle_maintenance-Accounted u on id p = elim (Option-cases (backend id p.store)) [
  | inl e ↦ rw (toggle_maintenance, e) (turned_away-Accounted _ _ _ _ _)
  | inr (b, e) ↦
      rw (toggle_maintenance, e)
        (finish_with-Accounted u _ "backend" id 200 p _ (maintains_backend on id) refl refl)
]

check_now-Accounted :
    (u : User) (probed : Probed) (id : String) (b : Backend) (h : Option Checker) (p : Panel)
    → Accounted u (probes_backend probed id) p (check_now probed id b h p)
unfolding check_now
check_now-Accounted u probed id b none p = elim (Bool-cases b.enabled) [
  | inl on ↦ rw on (record { outcome = refl })
  | inr off ↦ rw off (probed-Accounted u (probes_backend probed id) p p 200 tt refl)
]
check_now-Accounted u probed id b (some c) p =
    probed-Accounted u (probes_backend probed id) p _ 200 tt refl

pub probe_backend-Accounted :
    (u : User) (probed : Probed) (id : String) (p : Panel)
    → Accounted u (probes_backend probed id) p (probe_backend probed id p)
unfolding probe_backend
probe_backend-Accounted u probed id p = elim (Option-cases (backend id p.store)) [
  | inl e ↦ rw (probe_backend, e) (turned_away-Accounted _ _ _ _ _)
  | inr (b, e) ↦ rw (probe_backend, e) (check_now-Accounted u probed id b p.health p)
]

pub put_model-Accounted :
    (u : User) (body : Option ModelBody) (p : Panel)
    → Accounted u (upserts_model body) p (put_model u body p)
unfolding put_model
put_model-Accounted u none p = turned_away-Accounted _ _ _ _ _
put_model-Accounted u (some b) p =
    if-Accounted u (upserts_model (some b)) p (str_eq b.name "") _ _
      (λ e. turned_away-Accounted _ _ _ _ _)
      (if-Accounted u (upserts_model (some b)) p
        (not (valid_capability_mode (or_text b.capability_mode "passthrough"))) _ _
        (λ e. turned_away-Accounted _ _ _ _ _)
        (finish_with-Accounted u _ "model" b.name 200 p _ (upserts_model (some b)) refl refl))

pub put_alias-Accounted :
    (u : User) (body : Option AliasBody) (p : Panel)
    → Accounted u (upserts_alias body) p (put_alias u body p)
unfolding put_alias
put_alias-Accounted u none p = turned_away-Accounted _ _ _ _ _
put_alias-Accounted u (some b) p =
    if-Accounted u (upserts_alias (some b)) p (str_eq b.alias "" || str_eq b.internal_model "") _ _
      (λ e. turned_away-Accounted _ _ _ _ _)
      (if-Accounted u (upserts_alias (some b)) p
        (not (valid_forwarding_mode (or_text b.forwarding_mode "use_internal"))) _ _
        (λ e. turned_away-Accounted _ _ _ _ _)
        (finish_with-Accounted u _ "alias" b.alias 200 p _ (upserts_alias (some b)) refl refl))

pub patch_model-Accounted :
    (u : User) (name : String) (body : Option ModelPatch) (p : Panel)
    → Accounted u (patches_model name body) p (patch_model u name body p)
unfolding patch_model
patch_model-Accounted u name none p = elim (Option-cases (model name p.store)) [
  | inl e ↦ rw (patch_model, e) (turned_away-Accounted _ _ _ _ _)
  | inr (m, e) ↦ rw (patch_model, e) (turned_away-Accounted _ _ _ _ _)
]
patch_model-Accounted u name (some d) p = elim (Option-cases (model name p.store)) [
  | inl e ↦ rw (patch_model, e) (turned_away-Accounted _ _ _ _ _)
  | inr (m, e) ↦
      rw (patch_model, e)
        (if-Accounted u (patches_model name (some d)) p
          (is_bad valid_capability_mode d.capability_mode) _ _
          (λ bad. record { outcome = (refl, inr bad) })
          (finish_with-Accounted u _ "model" _ 200 p _ (patches_model name (some d)) refl refl))
]

pub patch_alias-Accounted :
    (u : User) (name : String) (body : Option AliasPatch) (p : Panel)
    → Accounted u (patches_alias name body) p (patch_alias u name body p)
unfolding patch_alias
patch_alias-Accounted u name none p =
    elim (Option-cases (lookup_alias name p.store.model_aliases)) [
      | inl e ↦ rw (patch_alias, e) (turned_away-Accounted _ _ _ _ _)
      | inr (m, e) ↦ rw (patch_alias, e) (turned_away-Accounted _ _ _ _ _)
    ]
patch_alias-Accounted u name (some d) p =
    elim (Option-cases (lookup_alias name p.store.model_aliases)) [
      | inl e ↦ rw (patch_alias, e) (turned_away-Accounted _ _ _ _ _)
      | inr ((k, a), e) ↦
          rw (patch_alias, e)
            (if-Accounted u (patches_alias name (some d)) p
              (is_bad valid_forwarding_mode d.forwarding_mode) _ _
              (λ bad. record { outcome = (refl, inr bad) })
              (finish_with-Accounted u _ "alias" _ 200 p _ (patches_alias name (some d)) refl refl))
    ]

module _ (X : TextPackage) where
  pub create_api_key-Accounted :
      (u : User) (at : Pointer) (generated : String) (body : Option ApiKeyBody) (p : Panel)
      → Accounted u (creates_api_key at generated body) p (create_api_key X u at generated body p)
  unfolding create_api_key
  create_api_key-Accounted u at generated none p = turned_away-Accounted _ _ _ _ _
  create_api_key-Accounted u at generated (some b) p =
      finish_with-Accounted u _ "api_key" _ 201 p _ (creates_api_key at generated (some b)) refl
        refl

  pub patch_api_key-Accounted :
      (u : User) (id : String) (body : Option ApiKeyPatch) (p : Panel)
      → Accounted u (patches_api_key id body) p (patch_api_key X u id body p)
  unfolding patch_api_key
  patch_api_key-Accounted u id body p = elim (Option-cases (lookup id p.store.api_keys)) [
    | inl e ↦ rw (patch_api_key, e) (turned_away-Accounted _ _ _ _ _)
    | inr (at, e) ↦ elim (Option-cases body) [
      | inl f ↦ rw (patch_api_key, e, f) (turned_away-Accounted _ _ _ _ _)
      | inr (d, f) ↦
          rw (patch_api_key, e, f)
            (finish_with-Accounted u _ "api_key" _ 200 p _ (patches_api_key id (some d)) refl refl)
    ]
  ]

  pub set_api_key_enabled-Accounted :
      (u : User) (on : Bool) (id : String) (p : Panel)
      → Accounted u (switches_api_key on id) p (set_api_key_enabled X u on id p)
  unfolding set_api_key_enabled
  set_api_key_enabled-Accounted u on id p = elim (Option-cases (lookup id p.store.api_keys)) [
    | inl e ↦ rw (set_api_key_enabled, e) (turned_away-Accounted _ _ _ _ _)
    | inr (at, e) ↦
        rw (set_api_key_enabled, e)
          (finish_with-Accounted u _ "api_key" id 200 p _ (switches_api_key on id) refl refl)
  ]

  pub rotate_key-Accounted :
      (u : User) (given generated id : String) (p : Panel)
      → Accounted u (rotates_api_key given generated id) p (rotate_key X u given generated id p)
  unfolding rotate_key
  rotate_key-Accounted u given generated id p = elim (Option-cases (lookup id p.store.api_keys)) [
    | inl e ↦ rw (rotate_key, e) (turned_away-Accounted _ _ _ _ _)
    | inr (at, e) ↦
        rw (rotate_key, e)
          (finish_with-Accounted u _ "api_key" id 200 p _ (rotates_api_key given generated id) refl
            refl)
  ]

  pub create_user-Accounted :
      (P : AdminPackage) (u : User) (salt : ℕ) (body : Option UserBody) (p : Panel)
      → Accounted u (creates_user salt body) p (create_user X P u salt body p)
  unfolding create_user
  create_user-Accounted P u salt none p = turned_away-Accounted _ _ _ _ _
  create_user-Accounted P u salt (some b) p =
      if-Accounted u (creates_user salt (some b)) p (str_eq b.username "" || str_eq b.password "") _
        _ (λ e. turned_away-Accounted _ _ _ _ _)
        (finish_with-Accounted u _ "user" b.username 201 p _ (creates_user salt (some b)) refl refl)
