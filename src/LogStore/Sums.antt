-- ===== src/LogStore/Sums.antt =====
-- The numbers of the statistics as sums over the records of the window.
use llmgateway.Prelude.{
  ℕ, suc, ◌+◌, ◌≤◌, ◌<◌, ◌≡◌, refl, ap, ◌∙◌, Bool, not, List, [], ◌∷◌, ltb, arith, length, keep_if,
  Bool-cases, inl, inr, if◌then◌else◌,
}
use llmgateway.Prelude.Int.{ℤ, pos, inc-pos, add_int64, int64_half}
use llmgateway.Time.{Time}
use llmgateway.LogStore.Memory.{RequestLog}
use llmgateway.LogStore.Stats.{Stats, count_request, stats_loop}

-- The sum over a list, oldest record first, with the wrap-around of the code.
unfoldable pub sum_of : (RequestLog → ℤ) → List RequestLog → ℤ → ℤ
sum_of g [] t = t
sum_of g (r ∷ rs) t = sum_of g rs (add_int64 t (g r))

-- The records that are not older than a time.
abbrev pub window : Time → List RequestLog → List RequestLog
window since = keep_if (λ r. not (ltb r.created_at since))

sum_of-ones :
    (rs : List RequestLog) (n : ℕ)
    → n + length rs < int64_half
    → sum_of (λ r. pos 1) rs (pos n) ≡ pos (n + length rs)
unfolding sum_of
sum_of-ones [] n h = ap pos (omega arith)
sum_of-ones (r ∷ rs) n h =
    ap (sum_of (λ r. pos 1) rs) (inc-pos n (omega arith))
    ∙ sum_of-ones rs (suc n) (omega arith)
    ∙ ap pos (omega arith)

length-keep_if {ℓ} : {A : Type ℓ} (p : A → Bool) (xs : List A) → length (keep_if p xs) ≤ length xs
unfolding keep_if
length-keep_if p [] = omega arith
length-keep_if p (x ∷ xs) =
    let rest = length-keep_if p xs in
    elim (Bool-cases (p x)) [ inl e ↦ rw e (omega arith) | inr e ↦ rw e (omega arith) ]

-- A number of the statistics that adds up something over some of the records.
abbrev pub IsSum : (Stats → ℤ) → (RequestLog → Bool) → (RequestLog → ℤ) → Type 0
IsSum c wanted g =
    (r : RequestLog) (s : Stats)
    → c (count_request r s) ≡ (if wanted r then add_int64 (c s) (g r) else c s)

pub stats_loop-sum_of :
    (c : Stats → ℤ) (wanted : RequestLog → Bool) (g : RequestLog → ℤ)
    → IsSum c wanted g
    → (since : Time) (rs : List RequestLog) (s : Stats)
    → c (stats_loop since rs s) ≡ sum_of g (keep_if wanted (window since rs)) (c s)
unfolding stats_loop sum_of keep_if
stats_loop-sum_of c wanted g h since [] s = refl
stats_loop-sum_of c wanted g h since (r ∷ rs) s = elim (Bool-cases (ltb r.created_at since)) [
  | inl e ↦ rw e (stats_loop-sum_of c wanted g h since rs s)
  | inr e ↦ elim (Bool-cases (wanted r)) [
    | inl f ↦
        rw (e, keep_if, f)
          (stats_loop-sum_of c wanted g h since rs (count_request r s)
            ∙ ap (sum_of g (keep_if wanted (window since rs))) (rw (h r s, f) refl))
    | inr f ↦
        rw (e, keep_if, f)
          (stats_loop-sum_of c wanted g h since rs (count_request r s)
            ∙ ap (sum_of g (keep_if wanted (window since rs))) (rw (h r s, f) refl))
  ]
]

-- A count is small, so it does not wrap around.
pub stats_loop-count :
    (c : Stats → ℤ) (wanted : RequestLog → Bool)
    → IsSum c wanted (λ r. pos 1)
    → (since : Time) (rs : List RequestLog) (s : Stats) → c s ≡ pos 0
    → length rs < int64_half
    → c (stats_loop since rs s) ≡ pos (length (keep_if wanted (window since rs)))
stats_loop-count c wanted h since rs s start small =
    let kept = keep_if wanted (window since rs) in
    let a = length-keep_if wanted (window since rs) in
    let b = length-keep_if (λ r. not (ltb r.created_at since)) rs in
    stats_loop-sum_of c wanted (λ r. pos 1) h since rs s
    ∙ ap (sum_of (λ r. pos 1) kept) start
    ∙ sum_of-ones kept 0 (omega arith)
    ∙ ap pos (omega arith)
