-- ===== src/RateLimit/Window.antt =====
-- Calls of the limiter on one key, and the spans in which its counters are not reset.
use llmgateway.Prelude.{
  ℕ, ◌+◌, ◌<◌, ◌≡◌, ◌≢◌, refl, ◌∙◌, ◌⊎◌, inl, inr, false, List, [], ◌∷◌, some, arith, String,
  str_eq, str_eq_self, str_eq_ne, if◌then◌else◌,
}
use llmgateway.Prelude.Dict.{lookup, lookup-insert}
use llmgateway.Prelude.Int.{ℤ, inc, is_pos}
use llmgateway.Codes.{Code, accepted, is_accepted}
use llmgateway.Time.{Time, minute, utc_day_start}
use llmgateway.RateLimit.Limiter.{
  Bucket, Limiter, Limits, get_bucket, roll_locked, reserve, check_and_reserve, add_to_bucket,
  add_tokens, stats, is_over,
}
use llmgateway.RateLimit.Reserve.{IsUnder}

-- A call of the limiter, with the times that it reads.
pub data Call : Type 0 where
  checks : String → Time → Time → Call
  adds : String → ℤ → Time → Time → Call
  looks : String → Time → Time → Call

abbrev pub key_of : Call → String
key_of (checks k born now) = k
key_of (adds k n born now) = k
key_of (looks k born now) = k

abbrev pub now_of : Call → Time
now_of (checks k born now) = now
now_of (adds k n born now) = now
now_of (looks k born now) = now

module _ (limits : String → Limits) where
  unfoldable pub step : Call → Limiter → Limiter
  step (checks k born now) l = (check_and_reserve k (limits k) born now l).0
  step (adds k n born now) l = add_tokens k n born now l
  step (looks k born now) l = (stats k born now l).0

  -- 1 if the call is a check of this key that is admitted.
  unfoldable pub admits : String → Call → Limiter → ℕ
  admits key (checks k born now) l =
      if str_eq k key
      then (if is_accepted (check_and_reserve k (limits k) born now l).1 then 1 else 0)
      else 0
  admits key (adds k n born now) l = 0
  admits key (looks k born now) l = 0

  -- The number of admitted requests of a key in a sequence of calls.
  unfoldable pub admitted : String → List Call → Limiter → ℕ
  admitted key [] l = 0
  admitted key (c ∷ cs) l = admits key c l + admitted key cs (step c l)

-- A counter of the bucket that is reset when the time leaves a span.
pub record Span (used : Bucket → ℤ) (limit : Limits → ℤ) (Inside : Bucket → Time → Type 0)
    : Type 0 where
  pub checked :
      (m : Limits) (now : Time) (b : Bucket)
      → Inside b now
      → ((reserve m now b).1 ≡ accepted
          → (used (reserve m now b).0 ≡ inc (used b)) × IsUnder (limit m) (used b))
        × ((reserve m now b).1 ≢ accepted → used (reserve m now b).0 ≡ used b)
  pub added :
      (n : ℤ) (now : Time) (b : Bucket) → Inside b now → used (add_to_bucket n now b) ≡ used b
  pub rolled : (now : Time) (b : Bucket) → Inside b now → used (roll_locked now b) ≡ used b
  pub checked_inside :
      (m : Limits) (now t : Time) (b : Bucket)
      → Inside b now
      → Inside b t
      → Inside (reserve m now b).0 t
  pub added_inside :
      (n : ℤ) (now t : Time) (b : Bucket)
      → Inside b now
      → Inside b t
      → Inside (add_to_bucket n now b) t
  pub rolled_inside :
      (now t : Time) (b : Bucket) → Inside b now → Inside b t → Inside (roll_locked now b) t

abbrev pub InMinute : Bucket → Time → Type 0
InMinute b t = t < b.window_start + minute

abbrev pub InDay : Bucket → Time → Type 0
InDay b t = utc_day_start t ≡ b.day_start

pub minute_span : Span (λ b. b.count) (λ m. m.rpm) InMinute
unfolding reserve roll_locked add_to_bucket is_over
minute_span = record {
  checked = λ m now b h. (λ e. (ground arith, ground arith), λ e. ground arith);
  added = λ n now b h. ground arith;
  rolled = λ now b h. ground arith;
  checked_inside = λ m now t b h k. ground arith;
  added_inside = λ n now t b h k. ground arith;
  rolled_inside = λ now t b h k. ground arith;
}

pub day_span : Span (λ b. b.day_count) (λ m. m.daily_req) InDay
unfolding reserve roll_locked add_to_bucket is_over
day_span = record {
  checked = λ m now b h. (λ e. (ground arith, ground arith), λ e. ground arith);
  added = λ n now b h. ground arith;
  rolled = λ now b h. ground arith;
  checked_inside = λ m now t b h k. ground arith;
  added_inside = λ n now t b h k. ground arith;
  rolled_inside = λ now t b h k. ground arith;
}

pub accepted_cases : (c : Code) → (c ≡ accepted) ⊎ ((c ≢ accepted) × (is_accepted c ≡ false))
unfolding is_accepted
accepted_cases accepted = inl refl
accepted_cases c = inr (λ e. cc, refl)

pub check_and_reserve-lookup :
    (k : String) (m : Limits) (born now : Time) (l : Limiter) (b : Bucket)
    → lookup k l ≡ some b
    → (lookup k (check_and_reserve k m born now l).0 ≡ some (reserve m now b).0)
      × ((check_and_reserve k m born now l).1 ≡ (reserve m now b).1)
unfolding check_and_reserve get_bucket
check_and_reserve-lookup k m born now l b e =
    rw (e, get_bucket) (lookup-insert k k _ l ∙ ground (arith, str_eq_self k), refl)

pub add_tokens-lookup :
    (k : String) (n : ℤ) (born now : Time) (l : Limiter) (b : Bucket)
    → lookup k l ≡ some b
    → lookup k (add_tokens k n born now l) ≡ some (if is_pos n then add_to_bucket n now b else b)
unfolding add_tokens get_bucket
add_tokens-lookup k n born now l b e =
    ground (arith, str_eq_self k, lookup-insert k k (add_to_bucket n now b) l)

pub stats-lookup :
    (k : String) (born now : Time) (l : Limiter) (b : Bucket)
    → lookup k l ≡ some b
    → lookup k (stats k born now l).0 ≡ some (roll_locked now b)
unfolding stats get_bucket
stats-lookup k born now l b e =
    rw (e, get_bucket) (lookup-insert k k _ l ∙ ground (arith, str_eq_self k))

-- A call under another key leaves the bucket alone, and admits nothing for this key.
pub step-ne :
    (limits : String → Limits) (c : Call) (key : String) (l : Limiter)
    → key_of c ≢ key
    → (lookup key (step limits c l) ≡ lookup key l) × (admits limits key c l ≡ 0)
unfolding step admits check_and_reserve add_tokens stats
step-ne limits (checks k born now) key l n =
    (lookup-insert k key _ l ∙ ground (arith, str_eq_ne k key n), ground (arith, str_eq_ne k key n))
step-ne limits (adds k t born now) key l n = (
  ground
      (arith, str_eq_ne k key n, lookup-insert k key (add_to_bucket t now (get_bucket k born l)) l),
  refl,
)
step-ne limits (looks k born now) key l n =
    (lookup-insert k key _ l ∙ ground (arith, str_eq_ne k key n), refl)
