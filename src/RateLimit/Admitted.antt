-- ===== src/RateLimit/Admitted.antt =====
-- How many requests a window of the limiter admits, over any sequence of its calls.
use llmgateway.Prelude.{
  ℕ, ◌+◌, ◌≤◌, ◌<◌, ◌≡◌, ◌≢◌, ap, ◌∙◌, inl, inr, List, [], ◌∷◌, some, arith, String, str_eq,
  str_eq_self, eq_iff, Bool-cases,
}
use mathlib.Core.Path.{subst}
use llmgateway.Prelude.Dict.{lookup}
use llmgateway.Prelude.Int.{ℤ, pos, inc-pos, int64_half, is_pos}
use llmgateway.Codes.{is_accepted}
use llmgateway.Time.{Time}
use llmgateway.RateLimit.Limiter.{
  Bucket, Limiter, Limits, roll_locked, reserve, add_to_bucket, add_tokens, stats,
}
use llmgateway.RateLimit.Window.{
  Call, checks, adds, looks, key_of, now_of, step, admits, admitted, Span, InMinute, InDay,
  minute_span, day_span, accepted_cases, check_and_reserve-lookup, add_tokens-lookup, stats-lookup,
  step-ne,
}

-- Every call under the key reads a time inside the span of the bucket.
abbrev pub AllInside : (Bucket → Time → Type 0) → String → Bucket → List Call → Type 0
AllInside Inside key b [] = Unit
AllInside Inside key b (c ∷ cs) = (key_of c ≡ key → Inside b (now_of c)) × AllInside Inside key b cs

AllInside-mono :
    (Inside : Bucket → Time → Type 0) (key : String) (b b' : Bucket) (cs : List Call)
    → ((t : Time) → Inside b t → Inside b' t)
    → AllInside Inside key b cs
    → AllInside Inside key b' cs
AllInside-mono Inside key b b' [] f a = tt
AllInside-mono Inside key b b' (c ∷ cs) f a =
    (λ e. f (now_of c) (a.0 e), AllInside-mono Inside key b b' cs f a.1)

module _ (limits : String → Limits) {used : Bucket → ℤ} {limit : Limits → ℤ}
    {Inside : Bucket → Time → Type 0} (span : Span used limit Inside) where
  -- The bucket that a call of its own key leaves within the span.
  abbrev Leaves : String → Bucket → ℕ → ℕ → ℕ → Limiter → Type 0
  Leaves key b n r a l =
      (b' : Bucket) × (lookup key l ≡ some b')
      × (used b' ≡ pos (n + a))
      × (n + a ≤ r)
      × ((t : Time) → Inside b t → Inside b' t)

  check_own :
      (k : String) (born now : Time) (l : Limiter) (b : Bucket) (n r : ℕ)
      → lookup k l ≡ some b
      → used b ≡ pos n
      → n ≤ r
      → limit (limits k) ≡ pos r
      → 0 < r
      → r < int64_half
      → Inside b now
      → Leaves k b n r (admits limits k (checks k born now) l) (step limits (checks k born now) l)
  unfolding step admits
  check_own k born now l b n r e u le lim p h i =
      let (look, code) = check_and_reserve-lookup k (limits k) born now l b e in
      let (yes_case, no_case) = span.checked (limits k) now b i in
      let inside = λ (t : Time). span.checked_inside (limits k) now t b i in
      elim (accepted_cases (reserve (limits k) now b).1) [
        | inl a ↦
            let (counted, under) = yes_case a in
            let lt : n < r = ground (arith, under) in
            let one : admits limits k (checks k born now) l ≡ 1 =
              unfold is_accepted in ground (arith, str_eq_self k, code, a) in
            rw one
              ((reserve (limits k) now b).0, look, ground (arith, inc-pos n), omega arith, inside)
        | inr (a, f) ↦
            let none_ : admits limits k (checks k born now) l ≡ 0 =
              ground (arith, str_eq_self k, code, f) in
            rw none_
              ((reserve (limits k) now b).0, look, ground (arith, no_case a), omega arith, inside)
      ]

  add_own :
      (k : String) (t : ℤ) (born now : Time) (l : Limiter) (b : Bucket) (n r : ℕ)
      → lookup k l ≡ some b
      → used b ≡ pos n
      → n ≤ r
      → Inside b now
      → Leaves k b n r 0 (add_tokens k t born now l)
  add_own k t born now l b n r e u le i = elim (Bool-cases (is_pos t)) [
    | inl p ↦ (
      add_to_bucket t now b,
      add_tokens-lookup k t born now l b e ∙ ground (arith, p),
      span.added t now b i ∙ u ∙ ap pos (omega arith),
      omega arith,
      λ s. span.added_inside t now s b i,
    )
    | inr p ↦ (
      b,
      add_tokens-lookup k t born now l b e ∙ ground (arith, p),
      u ∙ ap pos (omega arith),
      omega arith,
      λ s j. j,
    )
  ]

  look_own :
      (k : String) (born now : Time) (l : Limiter) (b : Bucket) (n r : ℕ)
      → lookup k l ≡ some b
      → used b ≡ pos n
      → n ≤ r
      → Inside b now
      → Leaves k b n r 0 (stats k born now l).0
  look_own k born now l b n r e u le i = (
    roll_locked now b,
    stats-lookup k born now l b e,
    span.rolled now b i ∙ u ∙ ap pos (omega arith),
    omega arith,
    λ s. span.rolled_inside now s b i,
  )

  step_own :
      (c : Call) (l : Limiter) (b : Bucket) (n r : ℕ)
      → lookup (key_of c) l ≡ some b
      → used b ≡ pos n
      → n ≤ r
      → limit (limits (key_of c)) ≡ pos r
      → 0 < r
      → r < int64_half
      → Inside b (now_of c)
      → Leaves (key_of c) b n r (admits limits (key_of c) c l) (step limits c l)
  unfolding step admits
  step_own (checks k born now) l b n r e u le lim p h i =
      check_own k born now l b n r e u le lim p h i
  step_own (adds k t born now) l b n r e u le lim p h i = add_own k t born now l b n r e u le i
  step_own (looks k born now) l b n r e u le lim p h i = look_own k born now l b n r e u le i

  one_step :
      (key : String) (c : Call) (l : Limiter) (b : Bucket) (n r : ℕ)
      → lookup key l ≡ some b
      → used b ≡ pos n
      → n ≤ r
      → limit (limits key) ≡ pos r
      → 0 < r
      → r < int64_half
      → (key_of c ≡ key → Inside b (now_of c))
      → Leaves key b n r (admits limits key c l) (step limits c l)
  one_step key c l b n r e u le lim p h i = elim (Bool-cases (str_eq (key_of c) key)) [
    | inl same ↦
        let q : key_of c ≡ key = (eq_iff (key_of c) key).0 same in
        subst
          (λ (k : String).
            lookup k l ≡ some b
            → limit (limits k) ≡ pos r
            → Leaves k b n r (admits limits k c l) (step limits c l))
          q (λ e' lim'. step_own c l b n r e' u le lim' p h (i q)) e lim
    | inr other ↦
        let q : key_of c ≢ key = λ x. ground (arith, eq_iff (key_of c) key) in
        let (look, none_) = step-ne limits c key l q in
        rw none_ (b, look ∙ e, u ∙ ap pos (omega arith), omega arith, λ s j. j)
  ]

  admitted-le :
      (key : String) (cs : List Call) (l : Limiter) (b : Bucket) (n r : ℕ)
      → lookup key l ≡ some b
      → used b ≡ pos n
      → n ≤ r
      → limit (limits key) ≡ pos r
      → 0 < r
      → r < int64_half
      → AllInside Inside key b cs
      → n + admitted limits key cs l ≤ r
  unfolding admitted
  admitted-le key [] l b n r e u le lim p h a = omega arith
  admitted-le key (c ∷ cs) l b n r e u le lim p h a =
      let (b', look, u', le', f) = one_step key c l b n r e u le lim p h a.0 in
      let rest =
        admitted-le key cs (step limits c l) b' _ r look u' le' lim p h
          (AllInside-mono Inside key b b' cs f a.1) in
      omega arith

-- The requests of a key that its window has counted, and those that any sequence of calls on the
-- limiter, under this and other keys, admits for it before the window is a minute old, are never
-- more than its limit per minute, where it has one.
pub admitted-le-rpm :
    (limits : String → Limits) (key : String) (cs : List Call) (l : Limiter) (b : Bucket) (n r : ℕ)
    → lookup key l ≡ some b
    → b.count ≡ pos n
    → n ≤ r
    → (limits key).rpm ≡ pos r
    → 0 < r
    → r < int64_half
    → AllInside InMinute key b cs
    → n + admitted limits key cs l ≤ r
admitted-le-rpm limits key cs l b n r = admitted-le limits minute_span key cs l b n r

-- The same for the calendar day in UTC and the limit of requests per day.
pub admitted-le-daily_req :
    (limits : String → Limits) (key : String) (cs : List Call) (l : Limiter) (b : Bucket) (n r : ℕ)
    → lookup key l ≡ some b
    → b.day_count ≡ pos n
    → n ≤ r
    → (limits key).daily_req ≡ pos r
    → 0 < r
    → r < int64_half
    → AllInside InDay key b cs
    → n + admitted limits key cs l ≤ r
admitted-le-daily_req limits key cs l b n r = admitted-le limits day_span key cs l b n r
