-- ===== src/Handlers/Holdings.antt =====
-- What a request holds while `admit` runs and behind it: its entry among the requests in flight of
-- its key, and its place in the queue of its model.
use llmgateway.Prelude.{
  ℕ, suc, ◌<◌, ◌≡◌, inl, inr, refl, ap, ◌∙◌, ◌&&◌, List, [], Option, none, some, String, Bool-cases,
  Option-cases, arith,
}
use llmgateway.Prelude.Dict.{lookup}
use llmgateway.Prelude.Int.{ℤ, pos, int64_half, is_pos}
use llmgateway.Codes.{client_canceled, Code, is_accepted}
use llmgateway.Store.Keys.{ApiKey}
use llmgateway.RateLimit.Concurrency
use llmgateway.RateLimit.InFlight.{entry, acquire-undone}
use llmgateway.Queue
use llmgateway.Queue.{granted, full, gave_up}
use llmgateway.Queue.Places.{places}
use llmgateway.Handlers.Admission.{
  Gateway, Surroundings, Release, release_one, do_release, Hit, count_hit, reject, settle, Progress,
  going, rejected, key_name, concurrency_limit, pass_limiter, pass_quota, pass_concurrency,
  pass_delay,
}

abbrev pub queue_places : String → Option Queue.Manager → ℕ × ℤ
queue_places id none = (0, pos 0)
queue_places id (some q) = places id q

-- The requests in flight of every key, and the places of every queue, are those of `g`.
pub record Same (g h : Gateway) : Type 0 where
  pub flights : (key : String) → lookup key h.concurrency ≡ lookup key g.concurrency
  pub waiting : (id : String) → queue_places id h.queue ≡ queue_places id g.queue

-- The counters hold what the calls of the other modules leave in them, with room for one more.
pub record InRange (g : Gateway) : Type 0 where
  pub flights :
      (key : String) → (n : ℕ) × (suc n < int64_half) × (lookup key g.concurrency ≡ entry n)
  pub waiting :
      (id : String) → (n : ℕ) × (suc n < int64_half) × ((queue_places id g.queue).1 ≡ pos n)

-- Neither the requests in flight nor the queue has been touched.
pub record Untouched (g h : Gateway) : Type 0 where
  pub concurrency : h.concurrency ≡ g.concurrency
  pub queue : h.queue ≡ g.queue

-- Where the limiter and the quota leave a call that began at `g`: nothing is held.
abbrev pub Early : Gateway → Progress → Type 0
Early g (going rs h) = (rs ≡ []) × Untouched g h
Early g (rejected code status h) = Untouched g h

settle-Early :
    (g h : Gateway) (code : Code) (hit : Hit) → Untouched g h → Early g (settle code hit [] h)
unfolding settle reject count_hit
settle-Early g h code hit u = elim (Bool-cases (is_accepted code)) [
  | inl e ↦ rw (settle, e) (refl, u)
  | inr e ↦ rw (settle, e) (record { concurrency = u.concurrency; queue = u.queue })
]

module _ (e : Surroundings) (k : ApiKey) (g : Gateway) where
  pub pass_limiter-Early : Early g (pass_limiter e k [] g)
  unfolding pass_limiter
  pass_limiter-Early = settle-Early g _ _ _ (record { concurrency = refl; queue = refl })

  pub pass_quota-Early : (h : Gateway) → Untouched g h → Early g (pass_quota e k [] h)
  unfolding pass_quota
  pass_quota-Early h u = elim (Option-cases h.quota) [
    | inl e1 ↦ rw (pass_quota, e1) (refl, u)
    | inr (m, e1) ↦ elim (Option-cases k.quota) [
      | inl e2 ↦ rw (pass_quota, e1, e2) (refl, u)
      | inr (q, e2) ↦
          rw (pass_quota, e1, e2)
            (settle-Early g _ _ _ (record { concurrency = u.concurrency; queue = u.queue }))
    ]
  ]

-- Running the functions `rs` over the concurrency `c` restores the requests in flight of `g`, and
-- leaves the queue alone.
abbrev pub Returns : Gateway → List Release → Concurrency.Concurrency → Type 0
Returns g rs c =
    (h : Gateway)
    → h.concurrency ≡ c
    → ((key : String) → lookup key (do_release rs h).concurrency ≡ lookup key g.concurrency)
      × ((do_release rs h).queue ≡ h.queue)

-- Where the steps up to the queue leave the call.
abbrev pub Settled : Gateway → Progress → Type 0
Settled g (going rs h) = Returns g rs h.concurrency × (h.queue ≡ g.queue)
Settled g (rejected code status h) = Same g h

pub Untouched-Same : {g h : Gateway} → Untouched g h → Same g h
Untouched-Same u = record {
  flights = λ key. ap (lookup key) u.concurrency;
  waiting = λ id. ap (queue_places id) u.queue;
}

-- `reject` runs the functions.
reject-Settled :
    (g h : Gateway) (code : Code) (status : ℕ) (rs : List Release)
    → Returns g rs h.concurrency
    → h.queue ≡ g.queue
    → Settled g (reject code status rs h)
unfolding reject
reject-Settled g h code status rs r q =
    let (back, kept) = r h refl in
    record { flights = back; waiting = λ id. ap (queue_places id) (kept ∙ q) }

module _ (e : Surroundings) (k : ApiKey) (g : Gateway) (v : InRange g) where
  pub pass_concurrency-Settled :
      (h : Gateway) → Untouched g h → Settled g (pass_concurrency e k [] h)
  unfolding pass_concurrency reject do_release release_one count_hit
  pass_concurrency-Settled h u =
      let (n, small, holds) = v.flights (key_name k) in
      let at : lookup (key_name k) h.concurrency ≡ entry n =
        ap (lookup (key_name k)) u.concurrency ∙ holds in
      let key = key_name k in
      let limit = concurrency_limit k in
      let c = h.concurrency in
      elim (Bool-cases (Concurrency.acquire key limit c).1) [
        | inl o ↦
            let back : (j : String)
                → lookup j (Concurrency.release key limit (Concurrency.acquire key limit c).0)
                  ≡ lookup j c =
              λ j. ground (arith, acquire-undone key j limit c n small at) in
            rw (pass_concurrency, o)
              (
                λ h' same. (
                  λ j.
                      ap (λ d. lookup j (Concurrency.release key limit d)) same
                      ∙ back j
                      ∙ ap (lookup j) u.concurrency,
                  refl,
                ),
                u.queue,
              )
        | inr o ↦
            rw (pass_concurrency, o)
              (record {
                flights = λ j.
                    ground (arith, acquire-undone key j limit c n small at)
                    ∙ ap (lookup j) u.concurrency;
                waiting = λ id. ap (queue_places id) u.queue;
              })
      ]

  pub pass_delay-Settled :
      (rs : List Release) (h : Gateway) → Settled g (going rs h) → Settled g (pass_delay e k rs h)
  unfolding pass_delay
  pass_delay-Settled rs h (r, q) = elim (Bool-cases (is_pos k.delay_ms && e.canceled)) [
    | inl o ↦ rw (pass_delay, o) (reject-Settled g h client_canceled 499 rs r q)
    | inr o ↦ rw (pass_delay, o) (r, q)
  ]
