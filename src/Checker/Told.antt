-- ===== src/Checker/Told.antt =====
-- What the observers of the health checker are told.
use llmgateway.Prelude.{◌≡◌, some, none, arith, if◌then◌else◌}
use llmgateway.Prelude.Int.{ℤ}
use llmgateway.Time.{Time}
use llmgateway.Store.Backend.{
  Backend, status_eq, get_status, record_health_check, record_success, record_failure,
  mark_degraded,
}
use llmgateway.Checker.{Finding, fine, broken, refused, check_one}

-- The observers hear exactly of the changes that routing sees. Of a probe that changes what `Status`
-- says of the backend they are told this before and behind it, and of any other probe nothing.
pub check_one-get_status :
    (found : Finding) (latency : ℤ) (now : Time) (b : Backend)
    → (check_one found latency now b).1 ≡ (
        if status_eq (get_status b) (get_status (check_one found latency now b).0)
        then none
        else some (get_status b, get_status (check_one found latency now b).0))
unfolding check_one get_status record_health_check record_success record_failure mark_degraded
check_one-get_status fine latency now b = ground arith
check_one-get_status (broken err) latency now b = ground arith
check_one-get_status (refused err) latency now b = ground arith
