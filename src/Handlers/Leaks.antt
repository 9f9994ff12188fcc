-- ===== src/Handlers/Leaks.antt =====
-- That `admit` leaks nothing: the place in the queue, and the composition of its steps.
use llmgateway.Prelude.{
  ◌≡◌, inl, inr, refl, sym, ap, ◌∙◌, List, [], ◌∷◌, Option, none, some, String, Bool-cases,
  Option-cases,
}
use llmgateway.Prelude.Dict.{lookup}
use llmgateway.Prelude.Int.{pos}
use llmgateway.Codes.{queue_full, queue_timeout}
use llmgateway.Store.Keys.{ApiKey}
use llmgateway.RateLimit.Concurrency
use llmgateway.Queue
use llmgateway.Queue.{granted, full, gave_up}
use llmgateway.Queue.Places.{places, acquire-undone as place-undone}
use llmgateway.Handlers.Holdings.{
  queue_places, Same, InRange, Early, Returns, Settled, pass_limiter-Early, pass_quota-Early,
  pass_concurrency-Settled, pass_delay-Settled, Untouched-Same,
}
use llmgateway.Handlers.Admission.{
  Gateway, Surroundings, Release, release_concurrency, release_place, release_one, do_release,
  rate_limit_hit, api_key_id, answered, count_hit, reject, Progress, going, rejected, ◌>>=◌,
  scope_name, pass_quota, pass_concurrency, pass_delay, pass_queue, count_request, pass_key, admit,
}

-- Where `admit` leaves it: what the request holds is what the returned functions give back.
abbrev pub Returned : Gateway → Progress → Type 0
Returned g (going rs h) = Same g (do_release rs h)
Returned g (rejected code status h) = Same g h

answered-Returned :
    (k : Option ApiKey) (model : String) (g : Gateway) (rs : List Release) (h : Gateway)
    (answer : Queue.Answer) (m m' : Queue.Manager)
    → g.queue ≡ some m
    → Returns g rs h.concurrency
    → ((j : String)
        → places j (elim answer [ granted ↦ Queue.release (scope_name model) m' | _ ↦ m' ])
          ≡ places j m)
    → Returned g (answered answer k model rs (record h { queue = some m' }))
unfolding answered reject do_release release_one count_hit
answered-Returned k model g rs h granted m m' at r undone =
    let (back, kept) = r (record h { queue = some (Queue.release (scope_name model) m') }) refl in
    record {
      flights = back;
      waiting = λ id. ap (queue_places id) kept ∙ undone id ∙ sym (ap (queue_places id) at);
    }
answered-Returned k model g rs h full m m' at r undone =
    let hit = rate_limit_hit (api_key_id k) queue_full in
    let (back, kept) = r (count_hit hit (record h { queue = some m' })) refl in
    record {
      flights = back;
      waiting = λ id. ap (queue_places id) kept ∙ undone id ∙ sym (ap (queue_places id) at);
    }
answered-Returned k model g rs h gave_up m m' at r undone =
    let hit = rate_limit_hit (api_key_id k) queue_timeout in
    let (back, kept) = r (count_hit hit (record h { queue = some m' })) refl in
    record {
      flights = back;
      waiting = λ id. ap (queue_places id) kept ∙ undone id ∙ sym (ap (queue_places id) at);
    }

Settled-Returned : (g : Gateway) (p : Progress) → Settled g p → Returned g p
Settled-Returned g (going rs h) (r, q) =
    let (back, kept) = r h refl in
    record { flights = back; waiting = λ id. ap (queue_places id) (kept ∙ q) }
Settled-Returned g (rejected code status h) s = s

pass_queue-Returned :
    (e : Surroundings) (k : Option ApiKey) (model : String) (g : Gateway)
    → InRange g
    → (rs : List Release) (h : Gateway) → Settled g (going rs h)
    → Returned g (pass_queue e k model rs h)
unfolding pass_queue
pass_queue-Returned e k model g v rs h (r, q) = elim (Bool-cases e.queue_enabled) [
  | inl on ↦ elim (Option-cases h.queue) [
    | inl e1 ↦ rw (pass_queue, on, e1) (Settled-Returned g (going rs h) (r, q))
    | inr (m, e1) ↦
        let (n, small, holds) = v.waiting (scope_name model) in
        let at : g.queue ≡ some m = sym q ∙ e1 in
        let here : (places (scope_name model) m).1 ≡ pos n =
          sym (ap (λ o. (queue_places (scope_name model) o).1) at) ∙ holds in
        rw (pass_queue, on, e1)
          (answered-Returned k model g rs h _ m _ at r
            (λ j. place-undone e.expires (scope_name model) j m n here small))
  ]
  | inr off ↦ rw (pass_queue, off) (Settled-Returned g (going rs h) (r, q))
]

-- What the functions do to the requests in flight and to the queue depends on these alone.
pub do_release-cong :
    (rs : List Release) (h h' : Gateway)
    → h'.concurrency ≡ h.concurrency
    → h'.queue ≡ h.queue
    → ((do_release rs h').concurrency ≡ (do_release rs h).concurrency)
      × ((do_release rs h').queue ≡ (do_release rs h).queue)
unfolding do_release release_one
do_release-cong [] h h' c q = (c, q)
do_release-cong (release_concurrency key limit ∷ rs) h h' c q =
    do_release-cong rs _ _ (ap (Concurrency.release key limit) c) q
do_release-cong (release_place id ∷ rs) h h' c q =
    let r = release_place id in
    let (c', q') = place h.queue h'.queue q refl refl in
    do_release-cong rs (release_one r h) (release_one r h') c' q'
  where
    place :
        (o o' : Option Queue.Manager)
        → o' ≡ o
        → h.queue ≡ o
        → h'.queue ≡ o'
        → ((release_one (release_place id) h').concurrency
            ≡ (release_one (release_place id) h).concurrency)
          × ((release_one (release_place id) h').queue ≡ (release_one (release_place id) h).queue)
    place none o' e a b = rw (release_one, a) (rw (release_one, b ∙ e) (c, q))
    place (some m) o' e a b = rw (release_one, a) (rw (release_one, b ∙ e) (c, refl))

count_request-Returned :
    (e : Surroundings) (k : Option ApiKey) (g : Gateway) (rs : List Release) (h : Gateway)
    → Same g (do_release rs h)
    → Returned g (count_request e k rs h)
unfolding count_request
count_request-Returned e none g rs h s = s
count_request-Returned e (some k) g rs h s = elim (Option-cases h.quota) [
  | inl e1 ↦ rw (count_request, e1) s
  | inr (m, e1) ↦
      let (c, q) = do_release-cong rs h _ refl refl in
      rw (count_request, e1)
        (record {
          flights = λ key. ap (lookup key) c ∙ s.flights key;
          waiting = λ id. ap (queue_places id) q ∙ s.waiting id;
        })
]

module _ (e : Surroundings) (k : ApiKey) (g : Gateway) (v : InRange g) where
  pass_key-Settled : Settled g (pass_key e (some k) [] g)
  unfolding pass_key ◌>>=◌
  pass_key-Settled = third _ (second _ (first _ (pass_limiter-Early e k g)))
    where
      first : (p : Progress) → Early g p → Early g (p >>= pass_quota e k)
      first (going [] h) (n, u) = pass_quota-Early e k g h u
      first (going (r ∷ rs) h) (n, u) = absurd cc
      first (rejected code status h) u = u

      second : (p : Progress) → Early g p → Settled g (p >>= pass_concurrency e k)
      second (going [] h) (n, u) = pass_concurrency-Settled e k g v h u
      second (going (r ∷ rs) h) (n, u) = absurd cc
      second (rejected code status h) u = Untouched-Same u

      third : (p : Progress) → Settled g p → Settled g (p >>= pass_delay e k)
      third (going rs h) s = pass_delay-Settled e k g v rs h s
      third (rejected code status h) s = s

pass_key-Settled_all :
    (e : Surroundings) (k : Option ApiKey) (g : Gateway) → InRange g → Settled g (pass_key e k [] g)
unfolding pass_key do_release
pass_key-Settled_all e none g v = ((λ h c. (λ key. ap (lookup key) c, refl)), refl)
pass_key-Settled_all e (some k) g v = pass_key-Settled e k g v

-- `admit` leaks nothing. Whichever policy rejects a request, the requests in flight of every key
-- and the places of every queue are afterwards what they were before; and where the request is
-- admitted, the functions that `release` runs restore them. The counters have to be in the range
-- that the calls of the components keep them in.
pub admit-Returned :
    (e : Surroundings) (k : Option ApiKey) (model : String) (g : Gateway)
    → InRange g
    → Returned g (admit e k model g)
unfolding admit ◌>>=◌
admit-Returned e k model g v = sixth _ (fifth _ (pass_key-Settled_all e k g v))
  where
    fifth : (p : Progress) → Settled g p → Returned g (p >>= pass_queue e k model)
    fifth (going rs h) s = pass_queue-Returned e k model g v rs h s
    fifth (rejected code status h) s = s

    sixth : (p : Progress) → Returned g p → Returned g (p >>= count_request e k)
    sixth (going rs h) s = count_request-Returned e k g rs h s
    sixth (rejected code status h) s = s
