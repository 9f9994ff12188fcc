-- ===== src/Quota/Monthly.antt =====
-- The monthly quota of a key: what `Check` and `AddRequest` let through in one month.
use llmgateway.Prelude.{
  ℕ, suc, ◌+◌, ◌≤◌, ◌<◌, ◌≡◌, refl, ap, sym, ◌∙◌, inl, inr, Bool, true, false, All, List, [], ◌∷◌,
  some, String, str_eq_self, Bool-cases, arith, if◌then◌else◌,
}
use mathlib.Core.Path.{subst}
use llmgateway.Prelude.Dict.{lookup, insert, lookup-insert}
use llmgateway.Prelude.Int.{pos, inc, inc-pos, int64_half}
use llmgateway.Codes.{is_accepted}
use llmgateway.Time.{Time}
use llmgateway.Quota.{
  Bucket, Manager, Quotas, get_locked, roll_locked, same_month, violated, check, add_request,
  count_request,
}

-- A request under a key at a time: `Check`, and `AddRequest` if the answer lets it through.
unfoldable pub serve : String → Quotas → Manager → Time → Manager × Bool
serve key q m now =
    let (m', code) = check key q now now m in
    if is_accepted code then (add_request key now now m', true) else (m', false)

-- The requests that a sequence of times lets through, one after the other.
unfoldable pub served : String → Quotas → List Time → Manager → ℕ
served key q [] m = 0
served key q (t ∷ ts) m =
    let (m', through) = serve key q m t in
    let rest = served key q ts m' in if through then suc rest else rest

-- Rolling within the month keeps the monthly count and the month.
roll_locked-month :
    (now : Time) (b : Bucket)
    → same_month now b.month_start ≡ true
    → ((roll_locked now b).month_reqs ≡ b.month_reqs)
      × ((roll_locked now b).month_start ≡ b.month_start)
unfolding roll_locked
roll_locked-month now b e = (ground (arith, e), ground (arith, e))

violated-monthly :
    (q : Quotas) (b : Bucket) (r n : ℕ)
    → q.monthly_req ≡ pos r
    → 0 < r
    → b.month_reqs ≡ pos n
    → is_accepted (violated q b) ≡ true
    → n < r
unfolding violated is_accepted
violated-monthly q b r n e p u a = ground arith

get_locked-some :
    (key : String) (t : Time) (m : Manager) (b : Bucket)
    → lookup key m ≡ some b
    → get_locked key t m ≡ b
unfolding get_locked
get_locked-some key t m b e = ground (arith, e)

lookup_self : (key : String) (b : Bucket) (m : Manager) → lookup key (insert key b m) ≡ some b
lookup_self key b m = lookup-insert key key b m ∙ ground (arith, str_eq_self key)

check-some :
    (key : String) (q : Quotas) (now : Time) (m : Manager) (b : Bucket)
    → lookup key m ≡ some b
    → check key q now now m ≡ (insert key (roll_locked now b) m, violated q (roll_locked now b))
unfolding check
check-some key q now m b e = rw (get_locked-some key now m b e) refl

add_request-some :
    (key : String) (now : Time) (m : Manager) (b : Bucket)
    → lookup key m ≡ some b
    → add_request key now now m ≡ insert key (count_request now b) m
unfolding add_request
add_request-some key now m b e = rw (get_locked-some key now m b e) refl

-- One more request in the month.
count_request-month :
    (now : Time) (b : Bucket) (n : ℕ)
    → b.month_reqs ≡ pos n
    → suc n < int64_half
    → same_month now b.month_start ≡ true
    → ((count_request now b).month_reqs ≡ pos (suc n))
      × ((count_request now b).month_start ≡ b.month_start)
unfolding count_request
count_request-month now b n u h s =
    let (e, f) = roll_locked-month now b s in (ap inc (e ∙ u) ∙ inc-pos n h, f)

module _ (key : String) (q : Quotas) (r : ℕ) (limit : q.monthly_req ≡ pos r) (p : 0 < r)
    (small : suc r < int64_half) where
  -- A request within the month: the bucket that it leaves.
  serve-month :
      (m : Manager) (now : Time) (b : Bucket) (n : ℕ)
      → lookup key m ≡ some b
      → b.month_reqs ≡ pos n
      → n ≤ r
      → same_month now b.month_start ≡ true
      → (b' : Bucket) × (lookup key (serve key q m now).0 ≡ some b')
        × (b'.month_reqs ≡ pos (if (serve key q m now).1 then suc n else n))
        × ((if (serve key q m now).1 then suc n else n) ≤ r)
        × (b'.month_start ≡ b.month_start)
  unfolding serve
  serve-month m now b n e u le s =
      let b1 = roll_locked now b in
      let (f, g) = roll_locked-month now b s in
      let here = lookup_self key b1 m in
      let checked = check-some key q now m b e in
      elim (Bool-cases (is_accepted (violated q b1))) [
        | inl a ↦
            let lt = violated-monthly q b1 r n limit p (f ∙ u) a in
            let s1 : same_month now b1.month_start ≡ true = ap (same_month now) g ∙ s in
            let (c, d) = count_request-month now b1 n (f ∙ u) (omega arith) s1 in
            let added = add_request-some key now (insert key b1 m) b1 here in
            rw (checked, a, added)
              (
                count_request now b1,
                lookup_self key (count_request now b1) (insert key b1 m),
                c,
                omega arith,
                d ∙ g,
              )
        | inr a ↦ rw (checked, a) (b1, here, f ∙ u, le, g)
      ]

  -- In one month of the calendar, the requests of a key that its bucket has counted and those that
  -- any sequence of requests lets through, each checked and counted before the next is checked, are
  -- never more than its monthly quota, where it has one. The days of the month may change meanwhile.
  pub served-le-monthly :
      (ts : List Time) (m : Manager) (b : Bucket) (n : ℕ)
      → lookup key m ≡ some b
      → b.month_reqs ≡ pos n
      → n ≤ r
      → All (λ t. same_month t b.month_start ≡ true) ts
      → n + served key q ts m ≤ r
  unfolding served
  served-le-monthly [] m b n e u le s = omega arith
  served-le-monthly (t ∷ ts) m b n e u le s =
      let (b', look, u', le', g) = serve-month m t b n e u le s.0 in
      let within = subst (λ z. All (λ t. same_month t z ≡ true) ts) (sym g) s.1 in
      let rest = served-le-monthly ts (serve key q m t).0 b' _ look u' le' within in
      ground (arith, rest)
