-- ===== src/RateLimit/Limiter.antt =====
-- `Limiter` of internal/ratelimit/ratelimit.go. The limiter is its map of buckets, and each method is
-- one step. The source takes the lock of the map in `get` and that of the bucket behind it, so a tick
-- of `gcLoop` can delete a bucket between the two, which then counts outside the map: such calls are
-- not modelled. `time.Now()` is read twice where a bucket is made: `born` is the time of `get`, `now`
-- the time under the bucket's lock.
use llmgateway.Prelude.{
  ◌-◌, ◌==◌, Bool, not, ◌&&◌, none, some, String, leb, ltb, keep_if, if◌then◌else◌,
}
use llmgateway.Prelude.Dict.{Dict, lookup, insert}
use llmgateway.Prelude.Int.{ℤ, pos, leb_ℤ, is_pos, is_zero, inc, add_int64}
use llmgateway.Codes.{
  Code, accepted, rate_limit_exceeded, token_rate_limit_exceeded, daily_request_limit_exceeded,
  daily_token_limit_exceeded,
}
use llmgateway.Time.{Time, minute, utc_day_start}

pub record Bucket : Type 0 where
  pub window_start : Time
  pub day_start : Time
  pub count : ℤ
  pub tokens : ℤ
  pub day_count : ℤ
  pub day_tokens : ℤ

abbrev pub Limiter : Type 0
Limiter = Dict Bucket

unfoldable pub new_bucket : Time → Bucket
new_bucket now = record {
  window_start = now;
  day_start = utc_day_start now;
  count = pos 0;
  tokens = pos 0;
  day_count = pos 0;
  day_tokens = pos 0;
}

-- `get(key)`: the bucket of the key, a new one if there is none.
unfoldable pub get_bucket : String → Time → Limiter → Bucket
get_bucket key born l = elim (lookup key l) [ none ↦ new_bucket born | some b ↦ b ]

-- `now.Sub(windowStart) >= time.Minute`: a negative difference is less than a minute, as the 0 is
-- that stands for it here.
unfoldable pub roll_window : Time → Bucket → Bucket
roll_window now b =
    if leb minute (now - b.window_start)
    then record b { window_start = now; count = pos 0; tokens = pos 0 }
    else b

unfoldable pub roll_day : Time → Bucket → Bucket
roll_day now b =
    if utc_day_start now == b.day_start
    then b
    else record b { day_start = utc_day_start now; day_count = pos 0; day_tokens = pos 0 }

-- `rollLocked(now)`
unfoldable pub roll_locked : Time → Bucket → Bucket
unfolding roll_window roll_day
roll_locked now b = roll_day now (roll_window now b)

pub record Limits : Type 0 where
  pub rpm : ℤ
  pub tpm : ℤ
  pub daily_req : ℤ
  pub daily_tok : ℤ

-- `limit > 0 && used >= limit`
unfoldable pub is_over : ℤ → ℤ → Bool
is_over limit used = is_pos limit && leb_ℤ limit used

-- `CheckAndReserve` under the bucket's lock.
unfoldable pub reserve : Limits → Time → Bucket → Bucket × Code
reserve m now b0 =
    let b = roll_locked now b0 in
    if is_over m.rpm b.count
    then (b, rate_limit_exceeded)
    else if is_over m.tpm b.tokens
    then (b, token_rate_limit_exceeded)
    else if is_over m.daily_req b.day_count
    then (b, daily_request_limit_exceeded)
    else if is_over m.daily_tok b.day_tokens
    then (b, daily_token_limit_exceeded)
    else (record b { count = inc b.count; day_count = inc b.day_count }, accepted)

unfoldable pub check_and_reserve : String → Limits → Time → Time → Limiter → Limiter × Code
check_and_reserve key m born now l =
    let (b, code) = reserve m now (get_bucket key born l) in (insert key b l, code)

unfoldable pub add_to_bucket : ℤ → Time → Bucket → Bucket
add_to_bucket n now b0 =
    let b = roll_locked now b0 in
    record b { tokens = add_int64 b.tokens n; day_tokens = add_int64 b.day_tokens n }

-- `AddTokens(key, tokens)`
unfoldable pub add_tokens : String → ℤ → Time → Time → Limiter → Limiter
add_tokens key n born now l =
    if not (is_pos n) then l else insert key (add_to_bucket n now (get_bucket key born l)) l

-- `Stats(key)`: the bucket rolled to now, which stays in the map.
unfoldable pub stats : String → Time → Time → Limiter → Limiter × Bucket
stats key born now l = let b = roll_locked now (get_bucket key born l) in (insert key b l, b)

-- The test of `gcLoop`: idle for more than five minutes, with nothing counted today.
unfoldable pub is_idle : Time → Bucket → Bool
is_idle now b =
    ltb 300_000_000_000 (now - b.window_start) && is_zero b.day_count && is_zero b.day_tokens

-- One tick of `gcLoop`.
unfoldable pub gc : Time → Limiter → Limiter
gc now l = keep_if (λ e. not (is_idle now e.1)) l
