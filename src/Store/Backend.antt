-- ===== src/Store/Backend.antt =====
-- `Backend` of internal/store/store.go: the record, its status, the health-check state machine,
-- the concurrency slots, and `FilterRoutable`. The mutex of a backend makes each method one step,
-- so a method is a function from the backend to the backend. `time.Now()` is an argument, in
-- nanoseconds.
use llmgateway.Prelude.{
  ℕ, ◌==◌, Bool, true, false, not, ◌&&◌, ◌||◌, List, Option, none, some, String, str_eq, keep_if,
  any, if◌then◌else◌,
}
use llmgateway.Prelude.Int.{ℤ, pos, leb_ℤ, is_pos, is_zero, inc, dec}
use llmgateway.Config.{HealthCheckConfig}

-- `empty` is the empty string, the status of a backend built at run time.
pub data BackendStatus : Type 0 where
  healthy degraded unhealthy disabled maintenance unknown empty : BackendStatus

abbrev pub rank : BackendStatus → ℕ
rank healthy = 0
rank degraded = 1
rank unhealthy = 2
rank disabled = 3
rank maintenance = 4
rank unknown = 5
rank empty = 6

abbrev pub status_eq : BackendStatus → BackendStatus → Bool
status_eq s t = rank s == rank t

pub record Backend : Type 0 where
  pub id : String
  pub name : String
  pub base_url : String
  pub api_key : String
  pub enabled : Bool
  pub models : List String
  pub weight : ℤ
  pub max_concurrent_requests : ℤ
  pub timeout_ms : ℤ
  pub stream_idle_timeout_ms : ℤ
  pub health_check : Option HealthCheckConfig
  pub tags : List String
  pub status : BackendStatus
  pub failure_streak : ℤ
  pub success_streak : ℤ
  pub active_requests : ℤ
  pub total_requests : ℤ
  pub total_errors : ℤ
  pub last_health_check_at : ℕ
  pub last_error : String
  pub last_latency_ms : ℤ

-- `Backend.Status()`
unfoldable pub get_status : Backend → BackendStatus
get_status b =
    if not b.enabled then disabled else if status_eq b.status empty then unknown else b.status

unfoldable pub set_status : BackendStatus → Backend → Backend
set_status s b = record b { status = s }

unfoldable pub mark_degraded : ℤ → String → ℕ → Backend → Backend
mark_degraded latency reason now b = record b {
  status = degraded;
  last_health_check_at = now;
  last_latency_ms = latency;
  last_error = reason;
  failure_streak = pos 0;
  success_streak = pos 0;
}

unfoldable pub mark_maintenance : Bool → Backend → Backend
mark_maintenance true b = record b { status = maintenance }
mark_maintenance false b = record b {
  status = unknown;
  failure_streak = pos 0;
  success_streak = pos 0;
}

-- The two thresholds of `RecordHealthCheck`: 3 and 2, unless the backend sets its own.
unfoldable pub thresh_fail : Backend → ℤ
thresh_fail b = elim b.health_check [
  | none ↦ pos 3
  | some hc ↦ if is_pos hc.failure_threshold then hc.failure_threshold else pos 3
]

unfoldable pub thresh_succ : Backend → ℤ
thresh_succ b = elim b.health_check [
  | none ↦ pos 2
  | some hc ↦ if is_pos hc.success_threshold then hc.success_threshold else pos 2
]

-- The branch of a successful probe, over the backend with the time and latency already written.
unfoldable pub record_success : Backend → Backend
record_success b =
    let streak = inc b.success_streak in
    record b {
      success_streak = streak;
      failure_streak = pos 0;
      last_error = "";
      status =
          if not (status_eq b.status healthy) && leb_ℤ (thresh_succ b) streak
          then healthy
          else b.status;
    }

-- The branch of a failed probe. The second test of the source repeats the first for `unknown`.
unfoldable pub record_failure : String → Backend → Backend
record_failure err_msg b =
    let streak = inc b.failure_streak in
    let reached = leb_ℤ (thresh_fail b) streak in
    let first = if not (status_eq b.status unhealthy) && reached then unhealthy else b.status in
    record b {
      failure_streak = streak;
      success_streak = pos 0;
      last_error = err_msg;
      status =
          if (status_eq b.status empty || status_eq b.status unknown) && reached
          then unhealthy
          else first;
    }

-- `RecordHealthCheck`: the new backend, whether the status changed, and the status.
unfoldable pub record_health_check :
    Bool → ℤ → String → ℕ → Backend → Backend × Bool × BackendStatus
record_health_check success latency err_msg now b =
    let seen = record b { last_health_check_at = now; last_latency_ms = latency } in
    let next = if success then record_success seen else record_failure err_msg seen in
    (next, not (status_eq b.status next.status), next.status)

unfoldable pub acquire_slot : Backend → Backend × Bool
acquire_slot b =
    if is_pos b.max_concurrent_requests && leb_ℤ b.max_concurrent_requests b.active_requests
    then (b, false)
    else (
      record b { active_requests = inc b.active_requests; total_requests = inc b.total_requests },
      true,
    )

unfoldable pub release_slot : Bool → Backend → Backend
release_slot success b = record b {
  active_requests = if is_pos b.active_requests then dec b.active_requests else b.active_requests;
  total_errors = if not success then inc b.total_errors else b.total_errors;
}

unfoldable pub supports_model : String → Backend → Bool
supports_model model b = any (λ m. str_eq m model) b.models

-- The `switch` of `FilterRoutable`.
unfoldable pub is_admissible : Bool → BackendStatus → Bool
is_admissible allow_degraded healthy = true
is_admissible allow_degraded unknown = true
is_admissible allow_degraded degraded = allow_degraded
is_admissible allow_degraded _ = false

-- The tests of the loop of `FilterRoutable`, in its order.
unfoldable pub is_routable : Bool → Backend → Bool
unfolding get_status is_admissible
is_routable allow_degraded b =
    if not b.enabled
    then false
    else if not (is_admissible allow_degraded (get_status b))
    then false
    else if is_zero b.weight
    then false
    else if is_pos b.max_concurrent_requests && leb_ℤ b.max_concurrent_requests b.active_requests
    then false
    else true

-- `FilterRoutable(in, allowDegraded)`
unfoldable pub filter_routable : Bool → List Backend → List Backend
unfolding is_routable
filter_routable allow_degraded bs = keep_if (is_routable allow_degraded) bs
