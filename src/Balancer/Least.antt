-- ===== src/Balancer/Least.antt =====
-- What `chooseLeast` and `chooseLeastLatency` minimise.
use llmgateway.Prelude.{◌≡◌, refl, ◌⊎◌, inl, inr, List, [], ◌∷◌, some, arith, All, Bool-cases}
use llmgateway.Prelude.Int.{ℤ, pos, negsuc, ltb_ℤ, is_pos, ◌≤ℤ◌, ◌<ℤ◌}
use llmgateway.Store.Backend.{Backend}
use llmgateway.Balancer.{is_better, least, choose_least, least_lat, choose_least_latency}

-- `b` has no more requests in flight than any of the list.
abbrev pub IsLeast : Backend → List Backend → Type 0
IsLeast b = All (λ c. b.active_requests ≤ℤ c.active_requests)

-- The result of the loop has at most the value that the loop started from.
least-IsLeast :
    (x : Backend) (a : ℤ) (cs : List Backend)
    → x.active_requests ≡ a
    → (b : Backend) × (least (some x) a cs ≡ some b) × (b.active_requests ≤ℤ a) × IsLeast b cs
unfolding least
least-IsLeast x a [] e = (x, refl, ground arith, tt)
least-IsLeast x a (c ∷ cs) e = elim (Bool-cases (ltb_ℤ c.active_requests a)) [
  | inl l ↦
      let (b, r, m, al) = least-IsLeast c c.active_requests cs refl in
      (b, rw l r, ground arith, (m, al))
  | inr l ↦ let (b, r, m, al) = least-IsLeast x a cs e in (b, rw l r, m, (ground arith, al))
]

-- `chooseLeast` picks a candidate with the fewest requests in flight.
pub choose_least-IsLeast :
    (c : Backend) (cs : List Backend)
    → (b : Backend) × (choose_least (c ∷ cs) ≡ some b) × IsLeast b (c ∷ cs)
unfolding choose_least least
choose_least-IsLeast c cs =
    let (b, r, m, al) = least-IsLeast c c.active_requests cs refl in (b, r, (m, al))

-- `b` was measured, and no measured backend of the list was faster.
abbrev pub IsFastest : Backend → List Backend → Type 0
IsFastest b = All (λ c. (c.last_latency_ms ≤ℤ pos 0) ⊎ (b.last_latency_ms ≤ℤ c.last_latency_ms))

abbrev pub Unmeasured : List Backend → Type 0
Unmeasured = All (λ c. c.last_latency_ms ≤ℤ pos 0)

-- The loop, once it has seen a measured latency.
least_lat_measured :
    (x : Backend) (a : ℤ) (cs : List Backend)
    → x.last_latency_ms ≡ a
    → pos 0 <ℤ a
    → (b : Backend) × (least_lat (some x) a cs ≡ some b)
      × (pos 0 <ℤ b.last_latency_ms)
      × (b.last_latency_ms ≤ℤ a)
      × IsFastest b cs
unfolding least_lat
least_lat_measured x a [] e p = (x, refl, ground arith, ground arith, tt)
least_lat_measured x a (c ∷ cs) e p = elim (Bool-cases (is_better c.last_latency_ms a)) [
  | inl l ↦
      let q : pos 0 <ℤ c.last_latency_ms = unfold is_better in ground arith in
      let lt : c.last_latency_ms ≤ℤ a = unfold is_better in ground arith in
      let (b, r, bp, m, al) = least_lat_measured c c.last_latency_ms cs refl q in
      (b, rw l r, bp, ground arith, (inr m, al))
  | inr l ↦
      let (b, r, bp, m, al) = least_lat_measured x a cs e p in
      (b, rw l r, bp, m, (unfold is_better in ground arith, al))
]

-- The loop, before that: it keeps the first candidate until a measured one comes.
least_lat-Unmeasured :
    (x : Backend) (cs : List Backend)
    → (b : Backend) × (least_lat (some x) (negsuc 0) cs ≡ some b)
      × ((((b ≡ x) × Unmeasured cs)) ⊎ ((pos 0 <ℤ b.last_latency_ms) × IsFastest b cs))
unfolding least_lat
least_lat-Unmeasured x [] = (x, refl, inl (refl, tt))
least_lat-Unmeasured x (c ∷ cs) = elim (Bool-cases (is_better c.last_latency_ms (negsuc 0))) [
  | inl l ↦
      let q : pos 0 <ℤ c.last_latency_ms = unfold is_better in ground arith in
      let (b, r, bp, m, al) = least_lat_measured c c.last_latency_ms cs refl q in
      (b, rw l r, inr (bp, (inr m, al)))
  | inr l ↦
      let q : c.last_latency_ms ≤ℤ pos 0 = unfold is_better in ground arith in
      let (b, r, cases) = least_lat-Unmeasured x cs in
      (
        b,
        rw l r,
        elim cases [ inl (e, un) ↦ inl (e, (q, un)) | inr (bp, al) ↦ inr (bp, (inl q, al)) ],
      )
]

-- `chooseLeastLatency` picks the measured candidate with the smallest latency, and the first
-- candidate where none was measured. (A latency of 0 or below counts as not measured.)
pub choose_least_latency-IsFastest :
    (c : Backend) (cs : List Backend)
    → (b : Backend) × (choose_least_latency (c ∷ cs) ≡ some b)
      × (((b ≡ c) × Unmeasured (c ∷ cs)) ⊎ ((pos 0 <ℤ b.last_latency_ms) × IsFastest b (c ∷ cs)))
unfolding choose_least_latency least_lat
choose_least_latency-IsFastest c cs = elim (Bool-cases (is_pos c.last_latency_ms)) [
  | inl p ↦
      let (b, r, bp, m, al) = least_lat_measured c c.last_latency_ms cs refl (ground arith) in
      (b, rw p r, inr (bp, (inr m, al)))
  | inr p ↦
      let q : c.last_latency_ms ≤ℤ pos 0 = ground arith in
      let (b, r, cases) = least_lat-Unmeasured c cs in
      (
        b,
        rw p r,
        elim cases [ inl (e, un) ↦ inl (e, (q, un)) | inr (bp, al) ↦ inr (bp, (inl q, al)) ],
      )
]
