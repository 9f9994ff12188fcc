-- ===== src/Quota.antt =====
-- `Manager` of internal/quota/quota.go: the daily and monthly usage of each key. The manager is its
-- map of buckets; its lock makes each method one step. `time.Now()` is read twice where a bucket is
-- made: `born` is the time of `getLocked`, `now` that of `rollLocked`.
pub mod Monthly
mod Tests
use llmgateway.Prelude.{
  ◌+◌, ◌-◌, ◌*◌, ◌/◌, ◌==◌, Bool, not, ◌&&◌, ◌||◌, [], none, some, String, ltb, if◌then◌else◌,
}
use llmgateway.Prelude.Dict.{Dict, lookup, insert}
use llmgateway.Prelude.Int.{ℤ, pos, leb_ℤ, is_pos, inc, add_int64}
use llmgateway.Codes.{
  Code, accepted, daily_request_quota_exceeded, monthly_request_quota_exceeded,
  daily_token_quota_exceeded, monthly_token_quota_exceeded,
}
use llmgateway.Time.{Time, day, date, utc_day_start}

pub record Bucket : Type 0 where
  pub day_start : Time
  pub month_start : Time
  pub day_reqs : ℤ
  pub month_reqs : ℤ
  pub day_toks : ℤ
  pub month_toks : ℤ

abbrev pub Manager : Type 0
Manager = Dict Bucket

unfoldable pub new_manager : Manager
new_manager = []

-- `monthStart(t)`: midnight of the first of the month.
unfoldable pub month_start_of : Time → Time
month_start_of t = (t / day + 1 - (date t).month_day) * day

-- `getLocked(keyID)`
unfoldable pub get_locked : String → Time → Manager → Bucket
unfolding month_start_of
get_locked key born m = elim (lookup key m) [
  | some b ↦ b
  | none ↦ record {
    day_start = utc_day_start born;
    month_start = month_start_of born;
    day_reqs = pos 0;
    month_reqs = pos 0;
    day_toks = pos 0;
    month_toks = pos 0;
  }
]

abbrev pub same_month : Time → Time → Bool
same_month s t = (date s).month == (date t).month && (date s).year == (date t).year

abbrev pub same_date : Time → Time → Bool
same_date s t = (date s).month_day == (date t).month_day && same_month s t

-- The two halves of `rollLocked(b, now)`.
unfoldable pub roll_day : Time → Bucket → Bucket
roll_day now b =
    if ltb (b.day_start + day) now || not (same_date now b.day_start)
    then record b { day_start = utc_day_start now; day_reqs = pos 0; day_toks = pos 0 }
    else b

unfoldable pub roll_month : Time → Bucket → Bucket
unfolding month_start_of
roll_month now b =
    if not (same_month now b.month_start)
    then record b { month_start = month_start_of now; month_reqs = pos 0; month_toks = pos 0 }
    else b

unfoldable pub roll_locked : Time → Bucket → Bucket
unfolding roll_day roll_month
roll_locked now b = roll_month now (roll_day now b)

pub record Quotas : Type 0 where
  pub daily_req : ℤ
  pub daily_tok : ℤ
  pub monthly_req : ℤ
  pub monthly_tok : ℤ

-- `limit > 0 && used >= limit`
unfoldable pub is_spent : ℤ → ℤ → Bool
is_spent limit used = is_pos limit && leb_ℤ limit used

-- The answer of `Check` for the rolled bucket.
unfoldable pub violated : Quotas → Bucket → Code
unfolding is_spent
violated q b =
    if is_spent q.daily_req b.day_reqs
    then daily_request_quota_exceeded
    else if is_spent q.monthly_req b.month_reqs
    then monthly_request_quota_exceeded
    else if is_spent q.daily_tok b.day_toks
    then daily_token_quota_exceeded
    else if is_spent q.monthly_tok b.month_toks
    then monthly_token_quota_exceeded
    else accepted

-- `Check(keyID, …)`
unfoldable pub check : String → Quotas → Time → Time → Manager → Manager × Code
unfolding violated
check key q born now m =
    let b = roll_locked now (get_locked key born m) in (insert key b m, violated q b)

unfoldable pub count_request : Time → Bucket → Bucket
count_request now b0 =
    let b = roll_locked now b0 in
    record b { day_reqs = inc b.day_reqs; month_reqs = inc b.month_reqs }

-- `AddRequest(keyID)`
unfoldable pub add_request : String → Time → Time → Manager → Manager
unfolding count_request
add_request key born now m = insert key (count_request now (get_locked key born m)) m

unfoldable pub count_tokens : ℤ → Time → Bucket → Bucket
count_tokens n now b0 =
    let b = roll_locked now b0 in
    record b { day_toks = add_int64 b.day_toks n; month_toks = add_int64 b.month_toks n }

-- `AddTokens(keyID, tokens)`
unfoldable pub add_tokens : String → ℤ → Time → Time → Manager → Manager
unfolding count_tokens
add_tokens key n born now m =
    if not (is_pos n) then m else insert key (count_tokens n now (get_locked key born m)) m

-- `Usage(keyID)`: the bucket rolled to now, which stays in the map.
unfoldable pub usage : String → Time → Time → Manager → Manager × Bucket
usage key born now m = let b = roll_locked now (get_locked key born m) in (insert key b m, b)
