-- ===== src/Balancer/Sticky.antt =====
-- The sticky policy: a client keeps its backend.
use llmgateway.Prelude.{
  ℕ, ◌≡◌, ◌≢◌, refl, ap, sym, ◌∙◌, inl, inr, All, List, [], ◌∷◌, Option, none, some, arith, String,
  str_eq, str_eq_self, str_eq_ne, eq_iff, Bool-cases, Option-cases,
}
use mathlib.Core.Option
use llmgateway.Prelude.Dict.{lookup, lookup-insert}
use llmgateway.Store.Backend.{Backend}
use llmgateway.Balancer.{
  Balancer, Hint, Policy, random, least_connections, least_latency, round_robin, hash, sticky,
  weighted_round_robin, other, choose, choose_by, set_counter, find_id, weighted, remember,
  sticky_hit, choose_sticky, sticky_key,
}

-- The backend found by an id has it.
find_id-id : (id : String) (cs : List Backend) (c : Backend) → find_id id cs ≡ some c → c.id ≡ id
unfolding find_id
find_id-id id [] c h = cc
find_id-id id (d ∷ cs) c h = ground (arith, eq_iff d.id id, find_id-id id cs c)

-- What the map names and the candidates have is chosen again.
sticky_again :
    (b : Balancer) (model : String) (ds : List Backend) (h : Hint) (c d : Backend)
    → h.api_key_id ≢ ""
    → lookup (sticky_key model h) b.sticky_map ≡ some c.id
    → find_id c.id ds ≡ some d
    → choose_sticky b model ds h ≡ (some d, b)
unfolding choose_sticky sticky_hit
sticky_again b model ds h c d n known f =
    rw (str_eq_ne h.api_key_id "" n, known, f, choose_sticky, sticky_hit) refl

-- A call of `Choose`.
pub record ChooseCall : Type 0 where
  pub random_index : ℕ → ℕ
  pub model : String
  pub policy : Policy
  pub candidates : List Backend
  pub hint : Hint

abbrev pub key_of : ChooseCall → String
key_of k = sticky_key k.model k.hint

-- The balancer behind a call, and behind calls in a row.
abbrev pub behind : ChooseCall → Balancer → Balancer
behind k b = (choose k.random_index b k.model k.policy k.candidates k.hint).1

unfoldable pub choose_run : List ChooseCall → Balancer → Balancer
choose_run [] b = b
choose_run (k ∷ ks) b = choose_run ks (behind k b)

weighted-sticky_map :
    (b : Balancer) (model : String) (cs : List Backend)
    → (weighted b model cs).1.sticky_map ≡ b.sticky_map
unfolding weighted set_counter
weighted-sticky_map b model cs = refl

remember-some :
    (key : String) (r : Option Backend × Balancer) (c : Backend)
    → r.0 ≡ some c
    → lookup key (remember key r).1.sticky_map ≡ some c.id
unfolding remember
remember-some key (none, b) c e = cc
remember-some key (some d, b) c e =
    lookup-insert key key d.id b.sticky_map ∙ ground (arith, str_eq_self key)

remember-ne :
    (key asked : String) (r : Option Backend × Balancer)
    → key ≢ asked
    → lookup asked (remember key r).1.sticky_map ≡ lookup asked r.1.sticky_map
unfolding remember
remember-ne key asked (none, b) n = refl
remember-ne key asked (some d, b) n =
    lookup-insert key asked d.id b.sticky_map ∙ ground (arith, str_eq_ne key asked n)

remember-fst : (key : String) (r : Option Backend × Balancer) → (remember key r).0 ≡ r.0
unfolding remember
remember-fst key (none, b) = refl
remember-fst key (some c, b) = refl

sticky_hit-lookup :
    (b : Balancer) (key : String) (cs : List Backend) (c : Backend)
    → sticky_hit b key cs ≡ some c
    → lookup key b.sticky_map ≡ some c.id
unfolding sticky_hit
sticky_hit-lookup b key cs c h = elim (Option-cases (lookup key b.sticky_map)) [
  | inl e ↦ ground (arith, e)
  | inr (id, e) ↦ e ∙ ap some (sym (find_id-id id cs c (rw (e, sticky_hit) at h)))
]

-- The choice for a client with a key is written down.
choose_sticky-lookup :
    (b : Balancer) (model : String) (cs : List Backend) (h : Hint) (c : Backend)
    → h.api_key_id ≢ ""
    → (choose_sticky b model cs h).0 ≡ some c
    → lookup (sticky_key model h) (choose_sticky b model cs h).1.sticky_map ≡ some c.id
unfolding choose_sticky
choose_sticky-lookup b model cs h c n e =
    let f = str_eq_ne h.api_key_id "" n in
    elim (Option-cases (sticky_hit b (sticky_key model h) cs)) [
      | inl m ↦
          rw (f, m, choose_sticky)
            (remember-some (sticky_key model h) (weighted b model cs) c (
              sym (remember-fst (sticky_key model h) (weighted b model cs))
              ∙ (rw (f, m, choose_sticky) at e)))
      | inr (d, m) ↦
          let same : some d ≡ some c = rw (f, m, choose_sticky) at e in
          rw (f, m, choose_sticky)
            (sticky_hit-lookup b (sticky_key model h) cs d m
              ∙ ap (Option.map (λ (x : Backend). x.id)) same)
    ]

-- A call under another key leaves the entry alone.
choose_sticky-ne :
    (b : Balancer) (model : String) (cs : List Backend) (h : Hint) (key : String)
    → sticky_key model h ≢ key
    → lookup key (choose_sticky b model cs h).1.sticky_map ≡ lookup key b.sticky_map
unfolding choose_sticky
choose_sticky-ne b model cs h key n = elim (Bool-cases (str_eq h.api_key_id "")) [
  | inl e ↦ rw e (ap (lookup key) (weighted-sticky_map b model cs))
  | inr e ↦ elim (Option-cases (sticky_hit b (sticky_key model h) cs)) [
    | inl m ↦
        rw (e, m, choose_sticky)
          (remember-ne (sticky_key model h) key (weighted b model cs) n
            ∙ ap (lookup key) (weighted-sticky_map b model cs))
    | inr (d, m) ↦ rw (e, m, choose_sticky) refl
  ]
]

choose_by-ne :
    (rnd : ℕ → ℕ) (b : Balancer) (model : String) (p : Policy) (cs : List Backend) (h : Hint)
    (key : String)
    → sticky_key model h ≢ key
    → lookup key (choose_by rnd b model p cs h).1.sticky_map ≡ lookup key b.sticky_map
unfolding choose_by set_counter
choose_by-ne rnd b model random cs h key n = refl
choose_by-ne rnd b model least_connections cs h key n = refl
choose_by-ne rnd b model least_latency cs h key n = refl
choose_by-ne rnd b model round_robin cs h key n = refl
choose_by-ne rnd b model hash cs h key n = refl
choose_by-ne rnd b model sticky cs h key n = choose_sticky-ne b model cs h key n
choose_by-ne rnd b model weighted_round_robin cs h key n =
    ap (lookup key) (weighted-sticky_map b model cs)
choose_by-ne rnd b model other cs h key n = ap (lookup key) (weighted-sticky_map b model cs)

choose-ne :
    (rnd : ℕ → ℕ) (b : Balancer) (model : String) (p : Policy) (cs : List Backend) (h : Hint)
    (key : String)
    → sticky_key model h ≢ key
    → lookup key (choose rnd b model p cs h).1.sticky_map ≡ lookup key b.sticky_map
unfolding choose
choose-ne rnd b model p [] h key n = refl
choose-ne rnd b model p (c ∷ []) h key n = refl
choose-ne rnd b model p (c ∷ d ∷ cs) h key n = choose_by-ne rnd b model p (c ∷ d ∷ cs) h key n

choose_run-ne :
    (ks : List ChooseCall) (b : Balancer) (key : String)
    → All (λ k. key_of k ≢ key) ks
    → lookup key (choose_run ks b).sticky_map ≡ lookup key b.sticky_map
unfolding choose_run
choose_run-ne [] b key a = refl
choose_run-ne (k ∷ ks) b key a =
    choose_run-ne ks (behind k b) key a.1
    ∙ choose-ne k.random_index b k.model k.policy k.candidates k.hint key a.0

-- What the map names is chosen again by `Choose`, also where it is the only candidate.
choose-again :
    (rnd : ℕ → ℕ) (b : Balancer) (model : String) (ds : List Backend) (h : Hint) (c d : Backend)
    → h.api_key_id ≢ ""
    → lookup (sticky_key model h) b.sticky_map ≡ some c.id
    → find_id c.id ds ≡ some d
    → choose rnd b model sticky ds h ≡ (some d, b)
unfolding choose choose_by
choose-again rnd b model [] h c d n known f = unfold find_id in cc
choose-again rnd b model (x ∷ []) h c d n known f =
    let only : x ≡ d = unfold find_id in ground (arith, f) in ap (λ y. (some y, b)) only
choose-again rnd b model (x ∷ y ∷ ds) h c d n known f =
    sticky_again b model (x ∷ y ∷ ds) h c d n known f

-- Under the sticky policy, a client with an API key for which `Choose` has picked a backend among two
-- candidates or more is given the candidate with that backend's id again, as long as one is among
-- the candidates, and that choice changes no state. This holds whatever other candidates there are
-- by then, and whatever `Choose` was asked in between under other keys, by any policy. Of
-- a backend that was the only candidate it says nothing.
pub choose-choose_run :
    (rnd rnd' : ℕ → ℕ) (b : Balancer) (model : String) (x y : Backend) (cs ds : List Backend)
    (h : Hint) (c d : Backend) (ks : List ChooseCall)
    → h.api_key_id ≢ ""
    → (choose rnd b model sticky (x ∷ y ∷ cs) h).0 ≡ some c
    → All (λ k. key_of k ≢ sticky_key model h) ks
    → find_id c.id ds ≡ some d
    → let b' = choose_run ks (choose rnd b model sticky (x ∷ y ∷ cs) h).1 in
      (choose rnd' b' model sticky ds h ≡ (some d, b')) × (d.id ≡ c.id)
unfolding choose choose_by
choose-choose_run rnd rnd' b model x y cs ds h c d ks n e a f =
    let b1 = (choose_sticky b model (x ∷ y ∷ cs) h).1 in
    let known =
      choose_run-ne ks b1 (sticky_key model h) a
      ∙ choose_sticky-lookup b model (x ∷ y ∷ cs) h c n e in
    (choose-again rnd' (choose_run ks b1) model ds h c d n known f, find_id-id c.id ds d f)
