-- ===== src/Quota/Tests.antt =====
-- A key with a quota of two requests a month, over a change of the day.
use llmgateway.Prelude.{◌+◌, ◌*◌, ◌≤◌, ◌≡◌, refl, List, [], ◌∷◌, arith}
use llmgateway.Prelude.Dict.{lookup}
use llmgateway.Prelude.Int.{pos}
use llmgateway.Time.{Time, day, date, date_of_day}
use llmgateway.Quota.{Bucket, Quotas}
use llmgateway.Quota.Monthly.{served, served-le-monthly}

-- 29 February 2024 is day 738944.
leap_day : date_of_day 738944 ≡ record { year = 2024; month = 2; month_day = 29 }
unfolding date_of_day
leap_day = refl

abbrev two_a_month : Quotas
two_a_month = record {
  daily_req = pos 0;
  daily_tok = pos 0;
  monthly_req = pos 2;
  monthly_tok = pos 0;
}

abbrev february : Bucket
february = record {
  day_start = 738943 * day;
  month_start = 738916 * day;
  day_reqs = pos 1;
  month_reqs = pos 1;
  day_toks = pos 0;
  month_toks = pos 0;
}

abbrev times : List Time
times = (738943 * day + 5) ∷ (738944 * day + 6) ∷ (738944 * day + 7) ∷ []

served-le-monthly_example : 1 + served "k" two_a_month times (("k", february) ∷ []) ≤ 2
unfolding date date_of_day
served-le-monthly_example =
    served-le-monthly "k" two_a_month 2 refl (omega arith) (omega arith) times
      (("k", february) ∷ []) february 1 (unfold lookup in refl) refl (omega arith)
      (refl, (refl, (refl, tt)))
