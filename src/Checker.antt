-- ===== src/Checker.antt =====
-- `HealthChecker` of internal/backend/health.go: the settings of a probe, what a probe writes into
-- its backend and tells the observers, and the set of probe loops. The answer of the backend to a
-- probe is an argument.
pub mod Told
pub mod Loops
pub mod Scanned
mod Tests
use Prim.Native.Char.{code}
use llmgateway.Prelude.{
  ℕ, suc, ◌==◌, Bool, true, false, not, ◌&&◌, ◌||◌, List, [], ◌∷◌, Option, none, some, String,
  str_eq, str_append, any, keep_if, if◌then◌else◌,
}
use llmgateway.Prelude.Dict.{Dict, lookup, insert, delete}
use llmgateway.Prelude.Int.{ℤ, pos, is_pos, leb_ℤ, ltb_ℤ}
use llmgateway.Config.{HealthCheckConfig}
use llmgateway.NetUtil.{trim_space}
use llmgateway.Auth.{strip}
use llmgateway.Store.Backend.{
  Backend, BackendStatus, degraded, status_eq, get_status, record_health_check, mark_degraded,
}
use llmgateway.Time.{Time}

-- `if override != "" { x = override }`, and the same for a positive number.
unfoldable pub text_or : String → String → String
text_or override x = if str_eq override "" then x else override

unfoldable pub number_or : ℤ → ℤ → ℤ
number_or override x = if is_pos override then override else x

unfoldable pub flag_or : Option Bool → Option Bool → Option Bool
flag_or none x = x
flag_or (some b) x = some b

unfoldable pub overridden : Option HealthCheckConfig → HealthCheckConfig → HealthCheckConfig
unfolding text_or number_or flag_or
overridden none hc = hc
overridden (some b) hc = record {
  enabled = flag_or b.enabled hc.enabled;
  type = text_or b.type hc.type;
  interval_ms = number_or b.interval_ms hc.interval_ms;
  timeout_ms = number_or b.timeout_ms hc.timeout_ms;
  failure_threshold = number_or b.failure_threshold hc.failure_threshold;
  success_threshold = number_or b.success_threshold hc.success_threshold;
  path = text_or b.path hc.path;
  method = text_or b.method hc.method;
  body = text_or b.body hc.body;
}

-- `effective(b)`
unfoldable pub effective : HealthCheckConfig → Backend → HealthCheckConfig
unfolding overridden text_or
effective defaults b =
    let hc = overridden b.health_check defaults in
    record hc {
      path = text_or hc.path "/models";
      type = text_or hc.type "http";
      method = text_or hc.method "GET";
    }

-- What an HTTP probe came to: no response, with the text of the error, or a status.
pub data Response : Type 0 where
  no_response : String → Response
  status_of : ℤ → Response

-- What a probe has found: a success, a failure or a refusal, with the text of the error.
pub data Finding : Type 0 where
  fine : Finding
  broken refused : String → Finding

-- The tests of `httpProbe` on the response. `show` prints the message with the status in it.
unfoldable pub judge : (ℤ → String) → Response → Finding
judge show (no_response err) = broken err
judge show (status_of n) =
    if leb_ℤ (pos 200) n && ltb_ℤ n (pos 400)
    then fine
    else if leb_ℤ (pos 400) n && ltb_ℤ n (pos 500)
    then refused (show n)
    else broken (show n)

-- What the observers are told: the status before and behind.
abbrev pub Notice : Type 0
Notice = Option (BackendStatus × BackendStatus)

-- `record(b, ok, latencyMS, errMsg)`
unfoldable pub record_probe : Bool → ℤ → String → Time → Backend → Backend × Notice
record_probe ok latency err now b =
    let (next, changed, status) = record_health_check ok latency err now b in
    (next, if changed then some (get_status b, status) else none)

-- `recordDegraded(b, latencyMS, errMsg)`
unfoldable pub record_degraded : ℤ → String → Time → Backend → Backend × Notice
record_degraded latency err now b = (
  mark_degraded latency err now b,
  if status_eq (get_status b) degraded then none else some (get_status b, degraded),
)

unfoldable pub record_finding : Finding → ℤ → Time → Backend → Backend × Notice
unfolding record_probe record_degraded
record_finding fine latency now b = record_probe true latency "" now b
record_finding (broken err) latency now b = record_probe false latency err now b
record_finding (refused err) latency now b = record_degraded latency err now b

-- `checkOne(b)`: a backend that is switched off is not probed.
unfoldable pub check_one : Finding → ℤ → Time → Backend → Backend × Notice
unfolding record_finding
check_one found latency now b =
    if not b.enabled then (b, none) else record_finding found latency now b

-- The state of the checker: the stop channel of each backend's loop, and the loops that have been
-- started and not been told to stop. A channel is the number of its making.
pub record Checker : Type 0 where
  pub loops : Dict ℕ
  pub running : List (ℕ × String)
  pub made : ℕ
  pub started : Bool

-- `spawn(b)`
unfoldable pub spawn : String → Checker → Checker
spawn id c = elim (lookup id c.loops) [
  | some ch ↦ c
  | none ↦ record c {
    loops = insert id c.made c.loops;
    running = (c.made, id) ∷ c.running;
    made = suc c.made;
  }
]

-- `AddBackend(b)`
unfoldable pub add_backend : String → Checker → Checker
unfolding spawn
add_backend id c = if not c.started then c else spawn id c

-- `close(ch)`
unfoldable pub close : ℕ → List (ℕ × String) → List (ℕ × String)
close ch running = keep_if (λ r. not (r.0 == ch)) running

-- `RemoveBackend(id)`
unfoldable pub remove_backend : String → Checker → Checker
unfolding close
remove_backend id c = elim (lookup id c.loops) [
  | none ↦ c
  | some ch ↦ record c { loops = delete id c.loops; running = close ch c.running }
]

unfoldable pub add_all : List String → Checker → Checker
unfolding add_backend
add_all [] c = c
add_all (id ∷ ids) c = add_all ids (add_backend id c)

-- The second loop of `Rescan`, over the ids of `loops`: those not `seen` are removed.
unfoldable pub remove_unseen : List String → List String → Checker → Checker
unfolding remove_backend
remove_unseen seen [] c = c
remove_unseen seen (id ∷ ids) c =
    let kept = remove_unseen seen ids c in
    let gone = remove_unseen seen ids (remove_backend id c) in
    if any (λ s. str_eq s id) seen then kept else gone

-- The keys of a map.
unfoldable pub keys : Dict ℕ → List String
keys [] = []
keys ((k, v) ∷ m) = k ∷ keys m

-- `Rescan()`, for the ids of the store's backends.
unfoldable pub rescan : List String → Checker → Checker
unfolding add_all remove_unseen keys
rescan current c = let added = add_all current c in remove_unseen current (keys added.loops) added

unfoldable pub spawn_all : List String → Checker → Checker
unfolding spawn
spawn_all [] c = c
spawn_all (id ∷ ids) c = spawn_all ids (spawn id c)

-- `Start()`
unfoldable pub start : List String → Checker → Checker
unfolding spawn_all
start current c = spawn_all current (record c { started = true })
