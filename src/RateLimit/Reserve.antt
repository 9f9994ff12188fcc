-- ===== src/RateLimit/Reserve.antt =====
-- `CheckAndReserve` on one bucket: when it admits, and what the collection of idle buckets changes.
use mathlib.Core.Path.{subst}
use llmgateway.Prelude.Dict.{lookup, insert, lookup-insert}
use llmgateway.Prelude.{
  [], ◌∷◌, Option, none, some, String, str_eq, str_eq_self, eq_iff, keep_if, inl, inr, ap, sym, ◌∙◌,
  Bool-cases, ◌≤◌, ◌≡◌, refl, ◌⊎◌, ◌↔◌, true, false, arith, if◌then◌else◌,
}
use llmgateway.Prelude.Int.{ℤ, pos, inc, ◌≤ℤ◌, ◌<ℤ◌}
use llmgateway.Codes.{accepted, is_accepted}
use llmgateway.Time.{Time}
use llmgateway.RateLimit.Limiter.{
  Bucket, Limiter, Limits, get_bucket, check_and_reserve, gc, new_bucket, roll_locked, reserve,
  is_over, is_idle,
}

-- A limit that is not positive is no limit.
abbrev pub IsUnder : ℤ → ℤ → Type 0
IsUnder limit used = (limit ≤ℤ pos 0) ⊎ (used <ℤ limit)

is_over-IsUnder : (limit used : ℤ) → (is_over limit used ≡ false) ↔ IsUnder limit used
unfolding is_over
is_over-IsUnder limit used = (λ h. ground arith, λ h. ground arith)

-- All four dimensions of a bucket are under their limits.
pub record Fits (m : Limits) (b : Bucket) : Type 0 where
  pub requests : IsUnder m.rpm b.count
  pub minute_tokens : IsUnder m.tpm b.tokens
  pub day_requests : IsUnder m.daily_req b.day_count
  pub day_token : IsUnder m.daily_tok b.day_tokens

-- `CheckAndReserve` admits exactly when every limit that is set exceeds what the rolled bucket has
-- counted. It then counts one request in the minute and one in the day, and nothing else changes;
-- a refusal counts nothing.
pub reserve-Fits :
    (m : Limits) (now : Time) (b : Bucket)
    → (((reserve m now b).1 ≡ accepted) ↔ Fits m (roll_locked now b))
      × ((reserve m now b).0 ≡ (
          if is_accepted (reserve m now b).1
          then record (roll_locked now b) {
            count = inc (roll_locked now b).count;
            day_count = inc (roll_locked now b).day_count;
          }
          else roll_locked now b))
unfolding reserve is_accepted
reserve-Fits m now b =
    let r = roll_locked now b in
    let a1 = is_over-IsUnder m.rpm r.count in
    let a2 = is_over-IsUnder m.tpm r.tokens in
    let a3 = is_over-IsUnder m.daily_req r.day_count in
    let a4 = is_over-IsUnder m.daily_tok r.day_tokens in
    (
      (
        λ h. record {
          requests = a1.0 (ground arith);
          minute_tokens = a2.0 (ground arith);
          day_requests = a3.0 (ground arith);
          day_token = a4.0 (ground arith);
        },
        λ v. rw (a1.1 v.requests, a2.1 v.minute_tokens, a3.1 v.day_requests, a4.1 v.day_token) refl,
      ),
      ground arith,
    )

-- Nothing is counted in the bucket.
record IsClear (b : Bucket) : Type 0 where
  no_requests : b.count ≡ pos 0
  no_tokens : b.tokens ≡ pos 0
  no_day_requests : b.day_count ≡ pos 0
  no_day_tokens : b.day_tokens ≡ pos 0

idle-IsClear :
    (swept now : Time) (b : Bucket)
    → is_idle swept b ≡ true
    → swept ≤ now
    → IsClear (roll_locked now b)
unfolding is_idle roll_locked
idle-IsClear swept now b i le = ground arith

new_bucket-IsClear : (born now : Time) → IsClear (roll_locked now (new_bucket born))
unfolding new_bucket roll_locked
new_bucket-IsClear born now = ground arith

-- The requests and the tokens that a bucket has counted, in the minute and in the day.
abbrev pub counts_of : Bucket → ℤ × ℤ × ℤ × ℤ
counts_of b = (b.count, b.tokens, b.day_count, b.day_tokens)

-- Two buckets give a call the same answer, and have then counted the same.
record SameCounts (m : Limits) (now : Time) (b b' : Bucket) : Type 0 where
  answer : (reserve m now b).1 ≡ (reserve m now b').1
  counts : counts_of (reserve m now b).0 ≡ counts_of (reserve m now b').0

-- Of a clear bucket the answer and the counts are those of any other.
reserve-IsClear :
    (m : Limits) (now : Time) (b b' : Bucket)
    → IsClear (roll_locked now b)
    → IsClear (roll_locked now b')
    → SameCounts m now b b'
unfolding reserve
reserve-IsClear m now b b' v w =
    let n : (reserve m now b).0.count ≡ (reserve m now b').0.count = ground arith in
    let t : (reserve m now b).0.tokens ≡ (reserve m now b').0.tokens = ground arith in
    let d : (reserve m now b).0.day_count ≡ (reserve m now b').0.day_count = ground arith in
    let u : (reserve m now b).0.day_tokens ≡ (reserve m now b').0.day_tokens = ground arith in
    record { answer = ground arith; counts = cc }

-- The keys of a map are distinct.
abbrev pub AreDistinct : Limiter → Type 0
AreDistinct [] = Unit
AreDistinct ((k, b) ∷ l) = (lookup k l ≡ none) × AreDistinct l

-- What is left of an entry.
abbrev unless_idle : Time → Option Bucket → Option Bucket
unless_idle now none = none
unless_idle now (some b) = if is_idle now b then none else some b

lookup-gc :
    (now : Time) (key : String) (l : Limiter)
    → AreDistinct l
    → lookup key (gc now l) ≡ unless_idle now (lookup key l)
unfolding lookup gc keep_if
lookup-gc now key [] u = refl
lookup-gc now key ((k, b) ∷ l) (fresh, u) =
    let rest = lookup-gc now key l u in
    elim (Bool-cases (str_eq k key)) [
      | inl e ↦
          let absent : lookup key l ≡ none =
            subst (λ j. lookup j l ≡ none) ((eq_iff k key).0 e) fresh in
          elim (Bool-cases (is_idle now b)) [
            | inl f ↦ rw (e, f) (rest ∙ ap (unless_idle now) absent)
            | inr f ↦ ground (arith, e, f)
          ]
      | inr e ↦ elim (Bool-cases (is_idle now b)) [
        | inl f ↦ rw (e, f) rest
        | inr f ↦ ground (arith, e, f, rest)
      ]
    ]

get_bucket-SameCounts :
    (m : Limits) (swept born now : Time) (o : Option Bucket)
    → swept ≤ now
    → SameCounts m now
        (elim (unless_idle swept o) [ none ↦ new_bucket born | some b ↦ b ])
        (elim o [ none ↦ new_bucket born | some b ↦ b ])
get_bucket-SameCounts m swept born now none le = record { answer = refl; counts = refl }
get_bucket-SameCounts m swept born now (some b) le = elim (Bool-cases (is_idle swept b)) [
  | inr e ↦ rw e (record { answer = refl; counts = refl })
  | inl e ↦ rw e (
      reserve-IsClear m now (new_bucket born) b (new_bucket-IsClear born now)
        (idle-IsClear swept now b e le))
]

-- What a key has counted.
abbrev pub counted : String → Time → Limiter → ℤ × ℤ × ℤ × ℤ
counted key born l = counts_of (get_bucket key born l)

get_bucket-insert :
    (key : String) (born : Time) (b : Bucket) (l : Limiter)
    → get_bucket key born (insert key b l) ≡ b
unfolding get_bucket
get_bucket-insert key born b l = rw (get_bucket, lookup-insert key key b l, str_eq_self key) refl

counted-check_and_reserve :
    (key : String) (m : Limits) (born now : Time) (l : Limiter)
    → counted key born (check_and_reserve key m born now l).0
      ≡ counts_of (reserve m now (get_bucket key born l)).0
unfolding check_and_reserve
counted-check_and_reserve key m born now l =
    ap counts_of (get_bucket-insert key born (reserve m now (get_bucket key born l)).0 l)

get_bucket-gc :
    (key : String) (m : Limits) (swept born now : Time) (l : Limiter)
    → AreDistinct l
    → swept ≤ now
    → SameCounts m now (get_bucket key born (gc swept l)) (get_bucket key born l)
unfolding get_bucket
get_bucket-gc key m swept born now l u le =
    rw (get_bucket, lookup-gc swept key l u)
      (get_bucket-SameCounts m swept born now (lookup key l) le)

-- A tick of `gcLoop` takes no quota back and gives none: a call of `CheckAndReserve` that starts behind
-- the tick has the answer that it had without the tick, for every key and whatever its limits,
-- and the key has then counted the same requests and tokens, in the minute and in the day. Each key
-- has one entry in the map. This is about calls that run wholly behind the tick.
pub gc-check_and_reserve :
    (key : String) (m : Limits) (swept born now : Time) (l : Limiter)
    → AreDistinct l
    → swept ≤ now
    → ((check_and_reserve key m born now (gc swept l)).1 ≡ (check_and_reserve key m born now l).1)
      × (counted key born (check_and_reserve key m born now (gc swept l)).0
          ≡ counted key born (check_and_reserve key m born now l).0)
unfolding check_and_reserve
gc-check_and_reserve key m swept born now l u le =
    let same = get_bucket-gc key m swept born now l u le in
    (
      same.answer,
      counted-check_and_reserve key m born now (gc swept l)
          ∙ same.counts
          ∙ sym (counted-check_and_reserve key m born now l),
    )
