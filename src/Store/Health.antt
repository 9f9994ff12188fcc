-- ===== src/Store/Health.antt =====
-- The health-check state machine of a backend: `RecordHealthCheck` over a sequence of probes.
use llmgateway.Prelude.{
  ℕ, suc, ◌+◌, ◌<◌, ◌≡◌, Bool, true, false, List, [], ◌∷◌, arith, Bool-cases, inl, inr, String, All,
  length, if◌then◌else◌,
}
use llmgateway.Prelude.Int.{ℤ, pos, int64_half, inc-pos, ◌≤ℤ◌, ◌<ℤ◌, leb_ℤ}
use llmgateway.Store.Backend.{
  Backend, healthy, unhealthy, record_health_check, record_success, record_failure, thresh_fail,
  thresh_succ,
}

-- One call of `RecordHealthCheck`.
pub record Probe : Type 0 where
  pub success : Bool
  pub latency : ℤ
  pub err_msg : String
  pub at : ℕ

unfoldable pub run_check : Probe → Backend → Backend
run_check p b = (record_health_check p.success p.latency p.err_msg p.at b).0

-- A sequence of probes, the oldest first.
unfoldable pub run_checks : List Probe → Backend → Backend
run_checks [] b = b
run_checks (p ∷ ps) b = run_checks ps (run_check p b)

-- The length of the run of outcomes equal to `o` that the sequence ends with, `n` before it.
unfoldable pub run_length : Bool → ℕ → List Probe → ℕ
run_length o n [] = n
run_length true n (p ∷ ps) = run_length true (if p.success then suc n else 0) ps
run_length false n (p ∷ ps) = run_length false (if p.success then 0 else suc n) ps

thresh_succ-run : (p : Probe) (b : Backend) → thresh_succ (run_check p b) ≡ thresh_succ b
unfolding run_check record_health_check record_success record_failure thresh_succ
thresh_succ-run p b = ground arith

thresh_fail-run : (p : Probe) (b : Backend) → thresh_fail (run_check p b) ≡ thresh_fail b
unfolding run_check record_health_check record_success record_failure thresh_fail
thresh_fail-run p b = ground arith

module _ (p : Probe) (b : Backend) where
  success_streak-run :
      (s : ℕ)
      → b.success_streak ≡ pos s
      → suc s < int64_half
      → (run_check p b).success_streak ≡ pos (if p.success then suc s else 0)
  unfolding run_check record_health_check record_success record_failure
  success_streak-run s e h = ground (arith, inc-pos s)

  failure_streak-run :
      (f : ℕ)
      → b.failure_streak ≡ pos f
      → suc f < int64_half
      → (run_check p b).failure_streak ≡ pos (if p.success then 0 else suc f)
  unfolding run_check record_health_check record_success record_failure
  failure_streak-run f e h = ground (arith, inc-pos f)

  -- The status after one probe, from the streaks.
  status-run_success :
      (s : ℕ)
      → p.success ≡ true
      → b.success_streak ≡ pos s
      → suc s < int64_half
      → (run_check p b).status ≡ (if leb_ℤ (thresh_succ b) (pos (suc s)) then healthy else b.status)
  unfolding run_check record_health_check record_success thresh_succ
  status-run_success s t e h = ground (arith, inc-pos s)

  status-run_failure :
      (f : ℕ)
      → p.success ≡ false
      → b.failure_streak ≡ pos f
      → suc f < int64_half
      → (run_check p b).status
        ≡ (if leb_ℤ (thresh_fail b) (pos (suc f)) then unhealthy else b.status)
  unfolding run_check record_health_check record_failure thresh_fail
  status-run_failure f t e h = ground (arith, inc-pos f)

thresh_succ_pos : (b : Backend) → pos 0 <ℤ thresh_succ b
unfolding thresh_succ
thresh_succ_pos b = ground arith

thresh_fail_pos : (b : Backend) → pos 0 <ℤ thresh_fail b
unfolding thresh_fail
thresh_fail_pos b = ground arith

abbrev pub Succeeds : Probe → Type 0
Succeeds p = p.success ≡ true

abbrev pub Fails : Probe → Type 0
Fails p = p.success ≡ false

-- Healthy stays healthy under successes, and unhealthy stays unhealthy under failures.
healthy-run_checks :
    (ps : List Probe) (b : Backend) (s : ℕ)
    → All Succeeds ps
    → b.success_streak ≡ pos s
    → s + length ps < int64_half
    → b.status ≡ healthy
    → (run_checks ps b).status ≡ healthy
unfolding run_checks
healthy-run_checks [] b s t e h st = st
healthy-run_checks (p ∷ ps) b s t e h st =
    healthy-run_checks ps (run_check p b) (suc s) t.1 (ground (arith, success_streak-run p b s))
      (omega arith) (ground (arith, status-run_success p b s))

unhealthy-run_checks :
    (ps : List Probe) (b : Backend) (f : ℕ)
    → All Fails ps
    → b.failure_streak ≡ pos f
    → f + length ps < int64_half
    → b.status ≡ unhealthy
    → (run_checks ps b).status ≡ unhealthy
unfolding run_checks
unhealthy-run_checks [] b f t e h st = st
unhealthy-run_checks (p ∷ ps) b f t e h st =
    unhealthy-run_checks ps (run_check p b) (suc f) t.1 (ground (arith, failure_streak-run p b f))
      (omega arith) (ground (arith, status-run_failure p b f))

status-run_succ_step :
    (p : Probe) (ps : List Probe) (b : Backend) (s : ℕ)
    → All Succeeds ps
    → Succeeds p
    → b.success_streak ≡ pos s
    → suc s + length ps < int64_half
    → thresh_succ b ≤ℤ pos (suc s)
    → (run_checks ps (run_check p b)).status ≡ healthy
status-run_succ_step p ps b s t q e h c =
    healthy-run_checks ps (run_check p b) (suc s) t (ground (arith, success_streak-run p b s)) h
      (ground (arith, status-run_success p b s))

status-run_fail_step :
    (p : Probe) (ps : List Probe) (b : Backend) (f : ℕ)
    → All Fails ps
    → Fails p
    → b.failure_streak ≡ pos f
    → suc f + length ps < int64_half
    → thresh_fail b ≤ℤ pos (suc f)
    → (run_checks ps (run_check p b)).status ≡ unhealthy
status-run_fail_step p ps b f t q e h c =
    unhealthy-run_checks ps (run_check p b) (suc f) t (ground (arith, failure_streak-run p b f)) h
      (ground (arith, status-run_failure p b f))

-- From a success streak below the threshold, a sequence of successful probes makes the backend
-- healthy if the streak and the sequence together reach the success threshold, and otherwise
-- leaves its status as it was. This holds from every status, also from unknown, which has no
-- shortcut, and from maintenance.
pub status-successes :
    (ps : List Probe) (b : Backend) (s : ℕ)
    → All Succeeds ps
    → b.success_streak ≡ pos s
    → s + length ps < int64_half
    → pos s <ℤ thresh_succ b
    → (run_checks ps b).status
      ≡ (if leb_ℤ (thresh_succ b) (pos (s + length ps)) then healthy else b.status)
unfolding run_checks
status-successes [] b s t e h below = ground arith
status-successes (p ∷ ps) b s t e h below =
    elim (Bool-cases (leb_ℤ (thresh_succ b) (pos (suc s)))) [
      | inl c ↦ ground (arith, status-run_succ_step p ps b s t.1 t.0 e)
      | inr c ↦ ground (
        arith,
        status-successes ps (run_check p b) (suc s) t.1,
        success_streak-run p b s,
        status-run_success p b s,
        thresh_succ-run p b,
      )
    ]

-- From a failure streak below the threshold, a sequence of failed probes makes the backend
-- unhealthy if the streak and the sequence together reach the failure threshold, and otherwise
-- leaves its status as it was, from every status.
pub status-failures :
    (ps : List Probe) (b : Backend) (f : ℕ)
    → All Fails ps
    → b.failure_streak ≡ pos f
    → f + length ps < int64_half
    → pos f <ℤ thresh_fail b
    → (run_checks ps b).status
      ≡ (if leb_ℤ (thresh_fail b) (pos (f + length ps)) then unhealthy else b.status)
unfolding run_checks
status-failures [] b f t e h below = ground arith
status-failures (p ∷ ps) b f t e h below = elim (Bool-cases (leb_ℤ (thresh_fail b) (pos (suc f)))) [
  | inl c ↦ ground (arith, status-run_fail_step p ps b f t.1 t.0 e)
  | inr c ↦ ground (
    arith,
    status-failures ps (run_check p b) (suc f) t.1,
    failure_streak-run p b f,
    status-run_failure p b f,
    thresh_fail-run p b,
  )
]

-- After any sequence of probes the two streaks are the lengths of the runs of successes and of
-- failures that the sequence ends with.
pub streaks-run_length :
    (ps : List Probe) (b : Backend) (s f : ℕ)
    → b.success_streak ≡ pos s
    → b.failure_streak ≡ pos f
    → s + length ps < int64_half
    → f + length ps < int64_half
    → ((run_checks ps b).success_streak ≡ pos (run_length true s ps))
      × ((run_checks ps b).failure_streak ≡ pos (run_length false f ps))
unfolding run_checks run_length
streaks-run_length [] b s f es ef hs hf = (es, ef)
streaks-run_length (p ∷ ps) b s f es ef hs hf =
    streaks-run_length ps (run_check p b) _ _ (success_streak-run p b s es (omega arith))
      (failure_streak-run p b f ef (omega arith)) (ground arith) (ground arith)

-- No run of failures in the sequence, `f` of them before it, reaches `n`.
abbrev pub FailuresBelow : ℤ → ℕ → List Probe → Type 0
FailuresBelow n f [] = Unit
FailuresBelow n f (p ∷ ps) =
    let next : ℕ = if p.success then 0 else suc f in (pos next <ℤ n) × FailuresBelow n next ps

-- A healthy backend stays healthy while no run of failed probes reaches the failure threshold,
-- however many probes fail in all.
pub healthy-FailuresBelow :
    (ps : List Probe) (b : Backend) (s f : ℕ)
    → b.success_streak ≡ pos s
    → b.failure_streak ≡ pos f
    → s + length ps < int64_half
    → f + length ps < int64_half
    → FailuresBelow (thresh_fail b) f ps
    → b.status ≡ healthy
    → (run_checks ps b).status ≡ healthy
unfolding run_checks
healthy-FailuresBelow [] b s f es ef hs hf below st = st
healthy-FailuresBelow (p ∷ ps) b s f es ef hs hf below st =
    healthy-FailuresBelow ps (run_check p b) _ _ (success_streak-run p b s es (omega arith))
      (failure_streak-run p b f ef (omega arith)) (ground arith) (ground arith)
      (rw (thresh_fail-run p b) below.1)
      (ground (arith, status-run_success p b s, status-run_failure p b f))
