-- ===== src/Queue/Places.antt =====
-- What a call of `Acquire` and its release function do to the scopes of the manager, when no other
-- call acts meanwhile.
use llmgateway.Prelude.{
  ℕ, zero, suc, ◌+◌, ◌-◌, ◌<◌, ◌≡◌, inl, inr, refl, ap, ◌∙◌, Bool, none, some, String, str_eq,
  str_eq_self, Bool-cases, Option-cases, arith, eq_iff, if◌then◌else◌,
}
use llmgateway.Prelude.Dict.{lookup, lookup-insert}
use llmgateway.Prelude.Int.{ℤ, pos, inc, dec, inc-pos, dec-pos, int64_half}
use llmgateway.Queue.{
  Scope, Manager, Answer, granted, full, gave_up, new_scope, get_scope, arrive, leave, try_send,
  select_place, acquire_place, put_scope, acquire, receive, pop_token, release,
}

-- The tokens in the channel of a scope and the calls that count as queued: both 0 for a scope that
-- was not made.
abbrev pub places : String → Manager → ℕ × ℤ
places id m = elim (lookup id m.scopes) [ none ↦ (0, pos 0) | some s ↦ (s.sem, s.queued) ]

places-put_scope :
    (id j : String) (s : Scope) (m : Manager)
    → places j (put_scope id s m) ≡ (if str_eq id j then (s.sem, s.queued) else places j m)
unfolding put_scope
places-put_scope id j s m = elim (Bool-cases (str_eq id j)) [
  | inl e ↦ ground (arith, lookup-insert id j s m.scopes)
  | inr e ↦ ground (arith, lookup-insert id j s m.scopes)
]

-- The scope that `get` finds or makes has the places of its id, and making it changes none.
get_scope-places :
    (id j : String) (m : Manager)
    → (((get_scope id m).1.sem, (get_scope id m).1.queued) ≡ places id m)
      × (places j (get_scope id m).0 ≡ places j m)
unfolding get_scope new_scope
get_scope-places id j m = elim (Option-cases (lookup id m.scopes)) [
  | inl e ↦
      let added = lookup-insert id j (new_scope m) m.scopes in
      (rw (get_scope, e) (ground arith), rw (get_scope, e) (ground (arith, added, eq_iff id j)))
  | inr (s, e) ↦ (rw (get_scope, e) (ground arith), rw (get_scope, e) refl)
]

-- The tokens that a call leaves in the channel.
unfoldable pub taken : Answer → ℕ
taken granted = 1
taken _ = 0

acquire_place-scope :
    (expires : Bool) (s : Scope) (q : ℕ)
    → s.queued ≡ pos q
    → suc q < int64_half
    → ((acquire_place expires s).0.queued ≡ pos q)
      × ((acquire_place expires s).0.sem ≡ taken (acquire_place expires s).1 + s.sem)
unfolding acquire_place select_place arrive try_send leave taken
acquire_place-scope expires s q e h =
    let up : inc s.queued ≡ pos (suc q) = ap inc e ∙ inc-pos q h in
    let down : dec (inc s.queued) ≡ pos q = ap dec up ∙ dec-pos q (omega arith) in
    (ground (arith, up, down), ground arith)

-- A call that is granted leaves one token in the channel of its scope, and any other call leaves
-- none. No call stays queued, and no other scope changes.
pub acquire-places :
    (expires : Bool) (id j : String) (m : Manager) (q : ℕ)
    → (places id m).1 ≡ pos q
    → suc q < int64_half
    → places j (acquire expires id m).0 ≡ (
        if str_eq id j
        then (taken (acquire expires id m).1 + (places id m).0, pos q)
        else places j m)
unfolding acquire
acquire-places expires id j m q e h =
    let (found, kept) = get_scope-places id j m in
    let s = (get_scope id m).1 in
    let (queued, sem) = acquire_place-scope expires s q (ap (λ p. p.1) found ∙ e) h in
    let put = places-put_scope id j (acquire_place expires s).0 (get_scope id m).0 in
    ground (arith, put, found, kept, queued, sem)

pub release-places :
    (id j : String) (m : Manager)
    → places j (release id m)
      ≡ (if str_eq id j then ((places id m).0 - 1, (places id m).1) else places j m)
unfolding release receive pop_token
release-places id j m = elim (Option-cases (lookup id m.scopes)) [
  | inl e ↦ rw (release, e) (ground (arith, eq_iff id j))
  | inr (s, e) ↦ rw (release, e) (pops s.sem s refl e)
]
  where
    pops :
        (n : ℕ) (s : Scope)
        → s.sem ≡ n
        → lookup id m.scopes ≡ some s
        → places j (elim (pop_token s.sem s) [ none ↦ m | some t ↦ put_scope id t m ])
          ≡ (if str_eq id j then ((places id m).0 - 1, (places id m).1) else places j m)
    pops zero s n e = ground (arith, eq_iff id j)
    pops (suc k) s n e = ground (arith, eq_iff id j, places-put_scope id j (record s { sem = k }) m)

-- The release function behind a granted call restores the places of all scopes, and a call that is
-- not granted changes none.
pub acquire-undone :
    (expires : Bool) (id j : String) (m : Manager) (q : ℕ)
    → (places id m).1 ≡ pos q
    → suc q < int64_half
    → places j (elim (acquire expires id m).1 [
      | granted ↦ release id (acquire expires id m).0
      | _ ↦ (acquire expires id m).0
    ])
      ≡ places j m
unfolding taken
acquire-undone expires id j m q e h =
    let here = acquire-places expires id id m q e h in
    let there = acquire-places expires id j m q e h in
    by_answer (acquire expires id m).1 (acquire expires id m).0 here there
  where
    by_answer :
        (a : Answer) (n : Manager)
        → places id n ≡ (if str_eq id id then (taken a + (places id m).0, pos q) else places id m)
        → places j n ≡ (if str_eq id j then (taken a + (places id m).0, pos q) else places j m)
        → places j (elim a [ granted ↦ release id n | _ ↦ n ]) ≡ places j m
    by_answer granted n here there =
        ground (arith, release-places id j n, eq_iff id j, str_eq_self id)
    by_answer full n here there = ground (arith, eq_iff id j)
    by_answer gave_up n here there = ground (arith, eq_iff id j)
