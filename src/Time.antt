-- ===== src/Time.antt =====
-- Go's `time.Time` in UTC, as nanoseconds since the zero time (1 January of the year 1), and the
-- starts of its days. A day has 86400 seconds in Go, which knows no leap seconds.
use llmgateway.Prelude.{ℕ, ltb, if◌then◌else◌, ◌*◌, ◌+◌, ◌-◌, ◌/◌, ◌%◌, ◌≤◌, ◌<◌, ◌≡◌, ◌↔◌, arith}

abbrev pub Time : Type 0
Time = ℕ

abbrev pub second : ℕ
second = 1_000_000_000

abbrev pub minute : ℕ
minute = 60_000_000_000

abbrev pub day : ℕ
day = 86_400_000_000_000

-- `utcDayStart(t)`: midnight of the day of `t`.
unfoldable pub utc_day_start : Time → Time
utc_day_start t = t - t % day

pub utc_day_start_bounds : (t : Time) → (utc_day_start t ≤ t) × (t < utc_day_start t + day)
unfolding utc_day_start
utc_day_start_bounds t = (omega arith, omega arith)

-- Two times have the same start of day exactly when they fall on one day.
pub utc_day_start-eq : (s t : Time) → (utc_day_start s ≡ utc_day_start t) ↔ (s / day ≡ t / day)
unfolding utc_day_start
utc_day_start-eq s t = (λ h. omega arith, λ h. omega arith)

-- The date of a day, counted from 1 January of the year 1: year, month and day of the month. Years
-- are taken from March on, in eras of 400.
pub record Date : Type 0 where
  pub year : ℕ
  pub month : ℕ
  pub month_day : ℕ

unfoldable pub date_of_day : ℕ → Date
date_of_day days =
    let z = days + 306 in
    let era = z / 146097 in
    let doe = z % 146097 in
    let yoe = (doe + doe / 36524 - doe / 1460 - doe / 146096) / 365 in
    let doy = doe + yoe / 100 - 365 * yoe - yoe / 4 in
    let mp = (5 * doy + 2) / 153 in
    let month = if ltb mp 10 then mp + 3 else mp - 9 in
    record {
      year = yoe + 400 * era + (if ltb month 3 then 1 else 0);
      month = month;
      month_day = doy - (153 * mp + 2) / 5 + 1;
    }

-- `t.Year()`, `t.Month()` and `t.Day()` in UTC.
unfoldable pub date : Time → Date
date t = date_of_day (t / day)
