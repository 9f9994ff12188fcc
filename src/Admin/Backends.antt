-- ===== src/Admin/Backends.antt =====
-- The handlers of internal/admin/admin.go and admin_keys.go that change a backend, behind the check of
-- the permission.
use llmgateway.Prelude.{Bool, ◌||◌, List, [], Option, none, some, String, str_eq, if◌then◌else◌}
use llmgateway.Prelude.Dict.{lookup, insert}
use llmgateway.Prelude.Int.{ℤ, pos}
use llmgateway.Config.{HealthCheckConfig}
use llmgateway.Time.{Time}
use llmgateway.Store.Keys.{is_empty}
use llmgateway.Store.Backend.{Backend, empty, mark_maintenance}
use llmgateway.Store.Catalog.{Store, trim_right, upsert_backend, delete_backend, backend}
use llmgateway.Checker.{Checker, Finding, check_one, add_backend, remove_backend}
use llmgateway.Admin.{User}
use llmgateway.Admin.Panel.{
  Panel, Answer, turned_away, written, panicked, finish_with, patch, patch_text, patch_number,
  patch_option, patch_list, or_enabled,
}

pub record BackendBody : Type 0 where
  pub id : String
  pub name : String
  pub base_url : String
  pub api_key : String
  pub enabled : Option Bool
  pub models : List String
  pub weight : ℤ
  pub max_concurrent_requests : ℤ
  pub timeout_ms : ℤ
  pub stream_idle_timeout_ms : ℤ
  pub health_check : Option HealthCheckConfig
  pub tags : Option (List String)

-- What a probe finds, how long it takes, and when.
pub record Probed : Type 0 where
  pub found : Finding
  pub latency : ℤ
  pub at : Time

-- The `store.Backend` of a new backend.
unfoldable pub new_backend : BackendBody → Backend
unfolding or_enabled patch
new_backend b = record {
  id = b.id;
  name = b.name;
  base_url = trim_right b.base_url;
  api_key = b.api_key;
  enabled = or_enabled b.enabled;
  models = b.models;
  weight = b.weight;
  max_concurrent_requests = b.max_concurrent_requests;
  timeout_ms = b.timeout_ms;
  stream_idle_timeout_ms = b.stream_idle_timeout_ms;
  health_check = b.health_check;
  tags = patch b.tags [];
  status = empty;
  failure_streak = pos 0;
  success_streak = pos 0;
  active_requests = pos 0;
  total_requests = pos 0;
  total_errors = pos 0;
  last_health_check_at = 0;
  last_error = "";
  last_latency_ms = pos 0;
}

-- A change of the backend behind its pointer, which the store holds.
unfoldable pub change_backend : String → (Backend → Backend) → Store → Store
change_backend id f s = elim (lookup id s.backends) [
  | none ↦ s
  | some b ↦ record s { backends = insert id (f b) s.backends }
]

-- `s.health.CheckOnce(bk)` and `s.health.AddBackend(bk)`, where there is a checker.
unfoldable pub watch_backend : Probed → String → Panel → Panel
unfolding change_backend check_one add_backend
watch_backend probed id p = elim p.health [
  | none ↦ p
  | some c ↦ record p {
    store = change_backend id (λ b. (check_one probed.found probed.latency probed.at b).0) p.store;
    health = some (add_backend id c);
  }
]

unfoldable pub is_incomplete : BackendBody → Bool
unfolding is_empty
is_incomplete b = str_eq b.id "" || str_eq b.base_url "" || is_empty b.models

-- `createBackend`
unfoldable pub create_backend : User → Probed → Option BackendBody → Panel → Panel × Answer
unfolding is_incomplete upsert_backend new_backend watch_backend finish_with
create_backend u probed none p = (p, turned_away 400 "invalid_json")
create_backend u probed (some b) p =
    if is_incomplete b
    then (p, turned_away 400 "missing_fields")
    else finish_with u "backend.create" "backend" b.id 201
        (watch_backend probed b.id (record p { store = upsert_backend (new_backend b) p.store }))

-- The backend with the fields that the body sets.
unfoldable pub patched_backend : BackendBody → Backend → Backend
unfolding patch patch_text patch_number patch_option patch_list
patched_backend body b = record b {
  name = patch_text body.name b.name;
  base_url = if str_eq body.base_url "" then b.base_url else trim_right body.base_url;
  api_key = patch_text body.api_key b.api_key;
  enabled = patch body.enabled b.enabled;
  models = patch_list body.models b.models;
  weight = patch_number body.weight b.weight;
  max_concurrent_requests = patch_number body.max_concurrent_requests b.max_concurrent_requests;
  timeout_ms = patch_number body.timeout_ms b.timeout_ms;
  stream_idle_timeout_ms = patch_number body.stream_idle_timeout_ms b.stream_idle_timeout_ms;
  health_check = patch_option body.health_check b.health_check;
  tags = patch body.tags b.tags;
}

-- The loop of the backend starts again if the body has a section on health checks.
unfoldable pub restart_loop : Option HealthCheckConfig → String → Panel → Panel
unfolding add_backend remove_backend
restart_loop none id p = p
restart_loop (some hc) id p = elim p.health [
  | none ↦ p
  | some c ↦ record p { health = some (add_backend id (remove_backend id c)) }
]

-- `patchBackend`
unfoldable pub patch_backend : User → String → Option BackendBody → Panel → Panel × Answer
unfolding patched_backend restart_loop upsert_backend backend finish_with
patch_backend u id body p = elim (backend id p.store) [
  | none ↦ (p, turned_away 404 "backend_not_found")
  | some b ↦ elim body [
    | none ↦ (p, turned_away 400 "invalid_json")
    | some body ↦ finish_with u "backend.update" "backend" b.id 200 (
        restart_loop body.health_check b.id
          (record p { store = upsert_backend (patched_backend body b) p.store }))
  ]
]

-- `s.health.RemoveBackend(id)`, where there is a checker.
unfoldable pub unwatch_backend : String → Panel → Panel
unfolding remove_backend
unwatch_backend id p = elim p.health [
  | none ↦ p
  | some c ↦ record p { health = some (remove_backend id c) }
]

-- `deleteBackend`, whose answer is the status alone.
unfoldable pub remove_backend_by_id : User → String → Panel → Panel × Answer
unfolding delete_backend unwatch_backend finish_with
remove_backend_by_id u id p =
    finish_with u "backend.delete" "backend" id 204
      (unwatch_backend id (record p { store = delete_backend id p.store }))

-- `enableBackend` and `disableBackend`
unfoldable pub switch_backend : User → Bool → String → Panel → Panel × Answer
unfolding upsert_backend backend finish_with
switch_backend u on id p = elim (backend id p.store) [
  | none ↦ (p, turned_away 404 "backend_not_found")
  | some b ↦
      finish_with u (if on then "backend.enable" else "backend.disable") "backend" id 200
        (record p { store = upsert_backend (record b { enabled = on }) p.store })
]

-- `toggleMaintenance`, with the field `on` of the body.
unfoldable pub toggle_maintenance : User → Bool → String → Panel → Panel × Answer
unfolding change_backend backend mark_maintenance finish_with
toggle_maintenance u on id p = elim (backend id p.store) [
  | none ↦ (p, turned_away 404 "backend_not_found")
  | some b ↦
      finish_with u (if on then "backend.maintenance_on" else "backend.maintenance_off") "backend"
        id 200 (record p { store = change_backend id (mark_maintenance on) p.store })
]

-- `s.health.CheckOnce(b)` for a request. Without a checker it panics, unless the backend is switched off.
unfoldable pub check_now : Probed → String → Backend → Option Checker → Panel → Panel × Answer
unfolding change_backend check_one
check_now probed id b none p = (p, if b.enabled then panicked else written 200)
check_now probed id b (some c) p = (
  record p {
    store = change_backend id (λ b. (check_one probed.found probed.latency probed.at b).0) p.store;
  },
  written 200,
)

-- `healthCheck`, which writes no audit entry.
unfoldable pub probe_backend : Probed → String → Panel → Panel × Answer
unfolding check_now backend
probe_backend probed id p = elim (backend id p.store) [
  | none ↦ (p, turned_away 404 "backend_not_found")
  | some b ↦ check_now probed id b p.health p
]
