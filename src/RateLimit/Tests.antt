-- ===== src/RateLimit/Tests.antt =====
-- Runs of the limiter's theorems on one key.
use llmgateway.Prelude.{◌+◌, ◌≤◌, ◌≡◌, refl, List, [], ◌∷◌, arith}
use llmgateway.Prelude.Dict.{lookup}
use llmgateway.Prelude.Int.{pos}
use llmgateway.RateLimit.Limiter.{Bucket, Limiter, Limits, new_bucket, check_and_reserve, gc}
use llmgateway.RateLimit.Reserve.{counted, gc-check_and_reserve}
use llmgateway.RateLimit.Window.{Call, checks, adds, admitted}
use llmgateway.RateLimit.Admitted.{admitted-le-rpm}
use llmgateway.RateLimit.Concurrency.{new_concurrency}
use llmgateway.RateLimit.InFlight.{Event, starts, ends, run, flights, entry, run-entry}

abbrev two_each : Limits
two_each = record { rpm = pos 2; tpm = pos 0; daily_req = pos 2; daily_tok = pos 0 }

-- One request was counted, in the minute and in the day.
abbrev used_once : Bucket
used_once = record {
  window_start = 100;
  day_start = 0;
  count = pos 1;
  tokens = pos 0;
  day_count = pos 1;
  day_tokens = pos 0;
}

abbrev calls : List Call
calls = checks "k" 200 200 ∷ adds "k" (pos 9) 210 210 ∷ checks "k" 220 220 ∷ []

admitted-le-rpm_example : 1 + admitted (λ k. two_each) "k" calls (("k", used_once) ∷ []) ≤ 2
admitted-le-rpm_example =
    admitted-le-rpm (λ k. two_each) "k" calls (("k", used_once) ∷ []) used_once 1 2
      (unfold lookup in refl) refl (omega arith) refl (omega arith) (omega arith)
      (λ e. omega arith, (λ e. omega arith, (λ e. omega arith, tt)))

-- Idle for more than five minutes when the collection runs.
abbrev idle : Bucket
idle = new_bucket 100

abbrev some_buckets : Limiter
some_buckets = ("k", idle) ∷ ("j", used_once) ∷ []

gc-check_and_reserve_example :
    ((check_and_reserve "k" two_each 400_000_000_250 400_000_000_300
        (gc 400_000_000_200 some_buckets)).1
      ≡ (check_and_reserve "k" two_each 400_000_000_250 400_000_000_300 some_buckets).1)
    × (counted "k" 400_000_000_250
          (check_and_reserve "k" two_each 400_000_000_250 400_000_000_300
            (gc 400_000_000_200 some_buckets)).0
        ≡ counted "k" 400_000_000_250
            (check_and_reserve "k" two_each 400_000_000_250 400_000_000_300 some_buckets).0)
unfolding lookup
gc-check_and_reserve_example =
    gc-check_and_reserve "k" two_each 400_000_000_200 400_000_000_250 400_000_000_300 some_buckets
      (refl, (refl, tt)) (omega arith)

abbrev requests : List Event
requests = starts "k" ∷ starts "j" ∷ starts "k" ∷ ends "k" ∷ []

run-entry_example :
    (lookup "k" (run (λ k. pos 1) requests new_concurrency)
      ≡ entry (flights (λ k. pos 1) "k" 0 requests new_concurrency))
    × (flights (λ k. pos 1) "k" 0 requests new_concurrency ≤ 1)
unfolding new_concurrency
run-entry_example =
    run-entry (λ k. pos 1) "k" 1 0 requests new_concurrency refl (omega arith) (omega arith)
      (omega arith) (unfold lookup in refl)
