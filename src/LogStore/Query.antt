-- ===== src/LogStore/Query.antt =====
-- What a query of the log answers.
use llmgateway.Prelude.{
  ℕ, zero, suc, ◌+◌, ◌≤◌, ◌<◌, ◌≡◌, refl, ap, sym, ◌∙◌, List, [], ◌∷◌, arith, length, drop, take,
  keep_if, leb, ltb, Bool, Bool-cases, inl, inr,
}
use mathlib.Core.List.{reverse}
use llmgateway.Prelude.Int.{pos, pos_part, add_int64, add_int64-pos, int64_half}
use llmgateway.LogStore.Memory.{
  Memory, LogQuery, page_limit, match_log, collect, page, query_requests,
}

take-nil {ℓ} : {A : Type ℓ} (n : ℕ) → take {A = A} n [] ≡ []
unfolding take
take-nil zero = refl
take-nil (suc n) = refl

collect-take {ℓ} :
    {A : Type ℓ} (p : A → Bool) (n : ℕ) (xs : List A) → collect p n xs ≡ take n (keep_if p xs)
unfolding collect take keep_if
collect-take p n [] = sym (take-nil n)
collect-take p zero (x ∷ xs) = refl
collect-take p (suc n) (x ∷ xs) = elim (Bool-cases (p x)) [
  | inl e ↦ rw e (ap (◌∷◌ x) (collect-take p n xs))
  | inr e ↦ rw e (collect-take p (suc n) xs)
]

take_all {ℓ} : {A : Type ℓ} (n : ℕ) (xs : List A) → length xs ≤ n → take n xs ≡ xs
unfolding take
take_all n [] h = take-nil n
take_all zero (x ∷ xs) h = absurd (omega arith)
take_all (suc n) (x ∷ xs) h = ap (◌∷◌ x) (take_all n xs (omega arith))

drop_all {ℓ} : {A : Type ℓ} (n : ℕ) (xs : List A) → length xs ≤ n → drop n xs ≡ []
unfolding drop
drop_all zero [] h = refl
drop_all zero (x ∷ xs) h = absurd (omega arith)
drop_all (suc n) [] h = refl
drop_all (suc n) (x ∷ xs) h = drop_all n xs (omega arith)

page-take {ℓ} :
    {A : Type ℓ} (limit offset : ℕ) (xs : List A)
    → page limit offset xs ≡ take limit (drop offset xs)
unfolding page
page-take limit offset xs = elim (Bool-cases (leb (length xs) offset)) [
  | inl e ↦ rw (e, drop_all offset xs (ground arith)) (sym (take-nil limit))
  | inr e ↦ elim (Bool-cases (ltb limit (length (drop offset xs)))) [
    | inl f ↦ rw (e, f, page) refl
    | inr f ↦ rw (e, f, page) (sym (take_all limit (drop offset xs) (ground arith)))
  ]
]

-- The first `limit` past `offset` need no more than `offset + limit` of the list.
take-drop-take {ℓ} :
    {A : Type ℓ} (limit offset k : ℕ) (xs : List A)
    → k ≡ limit + offset
    → take limit (drop offset (take k xs)) ≡ take limit (drop offset xs)
unfolding take drop
take-drop-take zero offset k xs e = refl
take-drop-take (suc l) offset zero xs e = absurd (omega arith)
take-drop-take (suc l) zero (suc k) [] e = refl
take-drop-take (suc l) zero (suc k) (x ∷ xs) e =
    ap (◌∷◌ x) (take-drop-take l zero k xs (omega arith))
take-drop-take (suc l) (suc o) (suc k) [] e = refl
take-drop-take (suc l) (suc o) (suc k) (x ∷ xs) e = take-drop-take (suc l) o k xs (omega arith)

-- A query of the request log answers the page of all matching records, newest first, that its
-- offset and its limit name: the matches past `offset`, at most `limit` of them. The early stop of
-- the loop loses none. The offset is small enough for its sum with the limit not to wrap around.
pub query_requests-take :
    (q : LogQuery) (m : Memory)
    → page_limit q.limit + pos_part q.offset < int64_half
    → query_requests q m
      ≡ take
          (page_limit q.limit)
          (drop (pos_part q.offset) (keep_if (match_log q) (reverse m.requests)))
unfolding query_requests
query_requests-take q m h =
    let l = page_limit q.limit in
    let o = pos_part q.offset in
    let xs = reverse m.requests in
    let room : pos_part (add_int64 (pos l) (pos o)) ≡ l + o = ap pos_part (add_int64-pos l o h) in
    rw room (
      page-take l o (collect (match_log q) (l + o) xs)
      ∙ ap (λ ys. take l (drop o ys)) (collect-take (match_log q) (l + o) xs)
      ∙ take-drop-take l o (l + o) (keep_if (match_log q) xs) refl)
