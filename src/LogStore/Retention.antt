-- ===== src/LogStore/Retention.antt =====
-- What the bounded log keeps.
use llmgateway.Prelude.{
  ℕ, zero, suc, ◌+◌, ◌-◌, ◌≤◌, ◌<◌, ◌≡◌, refl, ap, sym, ◌∙◌, List, [], ◌∷◌, ◌++◌, arith, length,
  length-append, drop, Bool-cases, ◌⊎◌, inl, inr, ltb, ltb→lt,
}
use mathlib.Core.Path.{subst}
use mathlib.Core.List.{append_assoc, append-nil}
use llmgateway.LogStore.Memory.{append_bounded, evict_count, RequestLog, Memory, append_request}

length-drop {ℓ} : {A : Type ℓ} (n : ℕ) (xs : List A) → length (drop n xs) ≡ length xs - n
unfolding drop
length-drop zero xs = omega arith
length-drop (suc n) [] = omega arith
length-drop (suc n) (x ∷ xs) = omega (arith, length-drop n xs)

drop-nil {ℓ} : {A : Type ℓ} (n : ℕ) → drop {A = A} n [] ≡ []
unfolding drop
drop-nil zero = refl
drop-nil (suc n) = refl

drop-add {ℓ} : {A : Type ℓ} (m n k : ℕ) (xs : List A) → k ≡ n + m → drop m (drop n xs) ≡ drop k xs
unfolding drop
drop-add m zero k xs e = let f : m ≡ k = omega arith in ap (λ j. drop j xs) f
drop-add m (suc n) zero xs e = absurd (omega arith)
drop-add m (suc n) (suc k) [] e = drop-nil m
drop-add m (suc n) (suc k) (x ∷ xs) e = drop-add m n k xs (omega arith)

drop-append_le {ℓ} :
    {A : Type ℓ} (n : ℕ) (xs ys : List A) → n ≤ length xs → drop n (xs ++ ys) ≡ drop n xs ++ ys
unfolding drop
drop-append_le zero xs ys h = refl
drop-append_le (suc n) [] ys h = absurd (omega arith)
drop-append_le (suc n) (x ∷ xs) ys h = drop-append_le n xs ys (omega arith)

-- What `append_bounded` has kept of a history, oldest first: an end of it, within the bound, and
-- all of it unless so much is there that one more record made the log overflow.
pub record Keeps {ℓ} {A : Type ℓ} (max_recs : ℕ) (history log : List A) : Type ℓ where
  pub dropped : ℕ
  pub in_history : dropped ≤ length history
  pub is_end : log ≡ drop dropped history
  pub bounded : length log ≤ max_recs
  pub recent : (dropped ≡ 0) ⊎ (max_recs + 1 ≤ length log + evict_count max_recs)

evict_count_bounds : (n : ℕ) → 0 < n → (0 < evict_count n) × (evict_count n ≤ n)
unfolding evict_count
evict_count_bounds n h = (ground arith, ground arith)

append_bounded-Keeps {ℓ} :
    {A : Type ℓ} (n : ℕ) (x : A) (h log : List A)
    → 0 < n
    → Keeps n h log
    → Keeps n (h ++ x ∷ []) (append_bounded n x log)
unfolding append_bounded
append_bounded-Keeps n x h log p v =
    let all : log ++ x ∷ [] ≡ drop v.dropped (h ++ x ∷ []) =
      ap (λ l. l ++ x ∷ []) v.is_end ∙ sym (drop-append_le v.dropped h (x ∷ []) v.in_history) in
    let size = length-append log (x ∷ []) in
    let size_h = length-append h (x ∷ []) in
    let (e0, e1) = evict_count_bounds n p in
    let gone = length-drop (evict_count n) (log ++ x ∷ []) in
    let size_d = ap length v.is_end ∙ length-drop v.dropped h in
    elim (Bool-cases (ltb n (length (log ++ x ∷ [])))) [
      | inl over ↦
          let b = ltb→lt n (length (log ++ x ∷ [])) over in
          rw (over, append_bounded)
            (record {
              dropped = v.dropped + evict_count n;
              in_history = omega arith;
              is_end =
                  ap (drop (evict_count n)) all
                  ∙ drop-add (evict_count n) v.dropped (v.dropped + evict_count n) (h ++ x ∷ [])
                      refl;
              bounded = omega arith;
              recent = inr (omega arith);
            })
      | inr fits ↦
          let b : length (log ++ x ∷ []) ≤ n = ground arith in
          rw (fits, append_bounded)
            (record {
              dropped = v.dropped;
              in_history = omega arith;
              is_end = all;
              bounded = b;
              recent = omega arith;
            })
    ]

-- Calls of `AppendRequest`, the oldest first.
unfoldable pub append_all : List RequestLog → Memory → Memory
append_all [] m = m
append_all (r ∷ rs) m = append_all rs (append_request r m)

append_request-max : (r : RequestLog) (m : Memory) → (append_request r m).max_recs ≡ m.max_recs
unfolding append_request
append_request-max r m = refl

append_all-Keeps_from :
    (h rs : List RequestLog) (m : Memory)
    → 0 < m.max_recs
    → Keeps m.max_recs h m.requests
    → Keeps m.max_recs (h ++ rs) (append_all rs m).requests
unfolding append_all append_request
append_all-Keeps_from h [] m p v = rw append-nil v
append_all-Keeps_from h (r ∷ rs) m p v =
    let next = append_bounded-Keeps m.max_recs r h m.requests p v in
    let m' = append_request r m in
    let step : Keeps m.max_recs (h ++ r ∷ []) m'.requests = unfold append_request in next in
    let rest =
      append_all-Keeps_from (h ++ r ∷ []) rs m' (rw (append_request-max r m) p)
        (rw (append_request-max r m) step) in
    subst (λ l. Keeps m.max_recs l (append_all rs m').requests) (append_assoc h (r ∷ []) rs)
      (rw (append_request-max r m) at rest)

-- After any number of appends to a new log, what it holds is an end of all that was appended, in
-- order and without a gap, never longer than its bound. Nothing is dropped before the bound is
-- passed, and at least all but a tenth of the bound (or one, for a bound below 20) is then kept.
pub append_all-Keeps :
    (rs : List RequestLog) (m : Memory)
    → 0 < m.max_recs
    → m.requests ≡ []
    → Keeps m.max_recs rs (append_all rs m).requests
append_all-Keeps rs m p e = append_all-Keeps_from [] rs m p (
    rw e (record {
      dropped = 0;
      in_history = omega arith;
      is_end = sym (drop-nil 0);
      bounded = omega arith;
      recent = inl refl;
    }))
