-- ===== src/Admin/Serve.antt =====
-- The requests of the admin API that change something, as `Register` of internal/admin/admin.go hands
-- them to their handlers: the check of the permission, and the handler behind it.
use llmgateway.Prelude.{ℕ, Bool, List, [], ◌∷◌, Option, String}
use llmgateway.Store.Catalog.{Pointer}
use llmgateway.Admin.{AdminPackage, User}
use llmgateway.Admin.Entry.{Entry, entered, refused, require_perm}
use llmgateway.Admin.Panel.{Panel, Answer, turned_away}
use llmgateway.Admin.Backends.{
  BackendBody, Probed, create_backend, patch_backend, remove_backend_by_id, switch_backend,
  toggle_maintenance, probe_backend,
}
use llmgateway.Admin.Models.{
  ModelBody, ModelPatch, AliasBody, AliasPatch, put_model, patch_model, remove_model, put_alias,
  patch_alias, remove_alias,
}
use llmgateway.Admin.Keys.{
  ApiKeyBody, ApiKeyPatch, UserBody, TextPackage, create_api_key, patch_api_key,
  set_api_key_enabled, rotate_key, create_user, remove_api_key, remove_user,
}

-- A request, with the values of its path, its body, and what chance and the probe give its handler.
pub data Change : Type 0 where
  creates_backend : Probed → Option BackendBody → Change
  patches_backend : String → Option BackendBody → Change
  deletes_backend : String → Change
  switches_backend maintains_backend : Bool → String → Change
  probes_backend : Probed → String → Change
  upserts_model : Option ModelBody → Change
  patches_model : String → Option ModelPatch → Change
  deletes_model : String → Change
  upserts_alias : Option AliasBody → Change
  patches_alias : String → Option AliasPatch → Change
  deletes_alias : String → Change
  creates_api_key : Pointer → String → Option ApiKeyBody → Change
  patches_api_key : String → Option ApiKeyPatch → Change
  switches_api_key : Bool → String → Change
  rotates_api_key : String → String → String → Change
  deletes_api_key : String → Change
  creates_user : ℕ → Option UserBody → Change
  deletes_user : String → Change

-- The action that the handler passes to `requirePerm`.
unfoldable pub permission : Change → String
permission (creates_backend probed body) = "manage_backends"
permission (patches_backend id body) = "manage_backends"
permission (deletes_backend id) = "manage_backends"
permission (switches_backend on id) = "backend_toggle"
permission (maintains_backend on id) = "backend_toggle"
permission (probes_backend probed id) = "backend_toggle"
permission (upserts_model body) = "manage_models"
permission (patches_model name body) = "manage_models"
permission (deletes_model name) = "manage_models"
permission (upserts_alias body) = "manage_models"
permission (patches_alias alias body) = "manage_models"
permission (deletes_alias alias) = "manage_models"
permission (creates_api_key at generated body) = "manage_keys"
permission (patches_api_key id body) = "manage_keys"
permission (switches_api_key on id) = "manage_keys"
permission (rotates_api_key given generated id) = "manage_keys"
permission (deletes_api_key id) = "manage_keys"
permission (creates_user salt body) = "manage_users"
permission (deletes_user name) = "manage_users"

module _ (P : AdminPackage) (X : TextPackage) where
  -- The handler, for the user in the context.
  unfoldable pub act : User → Change → Panel → Panel × Answer
  unfolding create_backend patch_backend remove_backend_by_id switch_backend toggle_maintenance
      probe_backend put_model patch_model remove_model put_alias patch_alias remove_alias
      create_api_key patch_api_key set_api_key_enabled rotate_key remove_api_key create_user
      remove_user
  act u (creates_backend probed body) p = create_backend u probed body p
  act u (patches_backend id body) p = patch_backend u id body p
  act u (deletes_backend id) p = remove_backend_by_id u id p
  act u (switches_backend on id) p = switch_backend u on id p
  act u (maintains_backend on id) p = toggle_maintenance u on id p
  act u (probes_backend probed id) p = probe_backend probed id p
  act u (upserts_model body) p = put_model u body p
  act u (patches_model name body) p = patch_model u name body p
  act u (deletes_model name) p = remove_model u name p
  act u (upserts_alias body) p = put_alias u body p
  act u (patches_alias alias body) p = patch_alias u alias body p
  act u (deletes_alias alias) p = remove_alias u alias p
  act u (creates_api_key at generated body) p = create_api_key X u at generated body p
  act u (patches_api_key id body) p = patch_api_key X u id body p
  act u (switches_api_key on id) p = set_api_key_enabled X u on id p
  act u (rotates_api_key given generated id) p = rotate_key X u given generated id p
  act u (deletes_api_key id) p = remove_api_key u id p
  act u (creates_user salt body) p = create_user X P u salt body p
  act u (deletes_user name) p = remove_user u name p

  -- The handler ahead of which the middleware has let the request in, or has refused it.
  unfoldable pub serve : Entry → Change → Panel → Panel × Answer
  unfolding require_perm permission act
  serve e c p = elim (require_perm (permission c) e) [
    | refused status ↦ (p, turned_away status "")
    | entered u ↦ act u c p
  ]

  -- Requests one after the other.
  unfoldable pub serve_all : List (Entry × Change) → Panel → Panel
  unfolding serve
  serve_all [] p = p
  serve_all ((e, c) ∷ rest) p = serve_all rest (serve e c p).0
