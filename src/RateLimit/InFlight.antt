-- ===== src/RateLimit/InFlight.antt =====
-- The concurrency counter over the requests of many keys.
use llmgateway.Prelude.{
  ℕ, zero, suc, ◌-◌, ◌≤◌, ◌<◌, ◌≡◌, ◌≢◌, refl, ap, ◌∙◌, ◌⊎◌, inl, inr, Bool, true, false, leb, List,
  [], ◌∷◌, Option, none, some, arith, String, str_eq, str_eq_self, str_eq_ne, ne_str_eq, eq_iff,
  Bool-cases, if◌then◌else◌,
}
use llmgateway.Prelude.Dict.{lookup, lookup-insert, lookup-delete}
use llmgateway.Prelude.Int.{ℤ, pos, negsuc, inc, dec, inc-pos, dec-pos, int64_half, is_pos}
use llmgateway.RateLimit.Concurrency.{Concurrency, get, acquire, release, release_one, drop_zero}

-- The entry of a key with `n` requests in flight: none at all for 0.
abbrev pub entry : ℕ → Option ℤ
entry zero = none
entry (suc n) = some (pos (suc n))

module _ (key : String) (r : ℕ) (c : Concurrency) (n : ℕ) (pos_r : 0 < r)
    (small : suc n < int64_half) (holds : lookup key c ≡ entry n) where
  get-entry : get key c ≡ pos n
  unfolding get
  get-entry = ground (arith, entry_cases n)
    where
      entry_cases : (m : ℕ) → ((m ≡ 0) × (entry m ≡ none)) ⊎ (entry m ≡ some (pos m))
      entry_cases zero = inl (refl, refl)
      entry_cases (suc m) = inr refl

  -- `Acquire` grants exactly below the limit, and then counts one more.
  pub acquire-entry :
      (lookup key (acquire key (pos r) c).0 ≡ entry (if leb r n then n else suc n))
      × ((acquire key (pos r) c).1 ≡ (if leb r n then false else true))
  unfolding acquire
  acquire-entry = elim (Bool-cases (leb r n)) [
    | inl f ↦ (ground (arith, get-entry), ground (arith, get-entry))
    | inr f ↦ (
      ground (arith, get-entry, inc-pos n, str_eq_self key, lookup-insert key key (pos (suc n)) c),
      ground (arith, get-entry),
    )
  ]

-- The entry that a value in the map becomes: `drop_zero` forgets 0.
drop_zero-entry :
    (key : String) (c : Concurrency) (n : ℕ)
    → lookup key c ≡ some (pos n)
    → lookup key (drop_zero key c) ≡ entry n
unfolding drop_zero
drop_zero-entry key c zero e = ground (arith, lookup-delete key key c, str_eq_self key)
drop_zero-entry key c (suc n) e = ground arith

-- `Release` counts one less, and forgets the key at 0.
pub release-entry :
    (key : String) (r : ℕ) (c : Concurrency) (n : ℕ)
    → 0 < r
    → n < int64_half
    → lookup key c ≡ entry n
    → lookup key (release key (pos r) c) ≡ entry (n - 1)
unfolding release
release-entry key r c zero p h e = ground (arith, lookup-delete key key c, str_eq_self key)
release-entry key r c (suc n) p h e =
    let one : suc n - 1 ≡ n = omega arith in
    let r1 : lookup key (release_one key c) ≡ some (pos n) =
      unfold release_one in
      ground (arith, dec-pos n, str_eq_self key, lookup-insert key key (pos n) c) in
    rw one (ground (arith, drop_zero-entry key (release_one key c) n r1))

-- The calls for one key leave the entries of the others alone.
pub acquire-ne :
    (k key : String) (limit : ℤ) (c : Concurrency)
    → k ≢ key
    → lookup key (acquire k limit c).0 ≡ lookup key c
unfolding acquire
acquire-ne k key limit c n =
    ground (arith, str_eq_ne k key n, lookup-insert k key (inc (get k c)) c)

release_one-ne :
    (k key : String) (c : Concurrency) → k ≢ key → lookup key (release_one k c) ≡ lookup key c
unfolding release_one
release_one-ne k key c n = ground (arith, str_eq_ne k key n, lookup-insert k key (dec (get k c)) c)

drop_zero-ne :
    (k key : String) (c : Concurrency) → k ≢ key → lookup key (drop_zero k c) ≡ lookup key c
unfolding drop_zero
drop_zero-ne k key c n = ground (arith, str_eq_ne k key n, lookup-delete k key c)

pub release-ne :
    (k key : String) (limit : ℤ) (c : Concurrency)
    → k ≢ key
    → lookup key (release k limit c) ≡ lookup key c
unfolding release
release-ne k key limit c n = elim (Bool-cases (is_pos limit)) [
  | inl p ↦ rw p (drop_zero-ne k key (release_one k c) n ∙ release_one-ne k key c n)
  | inr p ↦ rw p refl
]

acquired-undone :
    (key asked : String) (r : ℕ) (c : Concurrency) (n : ℕ)
    → suc n < int64_half
    → lookup key c ≡ entry n
    → lookup asked (
        if (acquire key (pos (suc r)) c).1
        then release key (pos (suc r)) (acquire key (pos (suc r)) c).0
        else (acquire key (pos (suc r)) c).0)
      ≡ lookup asked c
acquired-undone key asked r c n h e =
    let (look, ans) = acquire-entry key (suc r) c n (omega arith) h e in
    let next : ℕ = suc n in
    let back = release-entry key (suc r) (acquire key (pos (suc r)) c).0 next (omega arith) h in
    let there = acquire-ne key asked (pos (suc r)) c in
    let back' = release-ne key asked (pos (suc r)) (acquire key (pos (suc r)) c).0 in
    elim (Bool-cases (str_eq key asked)) [
      | inl same ↦
          let q : key ≡ asked = (eq_iff key asked).0 same in
          elim (Bool-cases (leb (suc r) n)) [
            | inl f ↦ ground (arith, look, ans)
            | inr f ↦ ground (arith, look, ans, back)
          ]
      | inr other ↦
          let ne : key ≢ asked = ne_str_eq key asked other in
          ground (arith, there ne, back' ne, Bool-cases (acquire key (pos (suc r)) c).1)
    ]

-- `Release` behind a granted `Acquire` restores the entries of all keys, and an `Acquire` that is
-- refused changes none.
pub acquire-undone :
    (key asked : String) (limit : ℤ) (c : Concurrency) (n : ℕ)
    → suc n < int64_half
    → lookup key c ≡ entry n
    → lookup asked (
        if (acquire key limit c).1
        then release key limit (acquire key limit c).0
        else (acquire key limit c).0)
      ≡ lookup asked c
unfolding acquire release
acquire-undone key asked (negsuc r) c n h e = refl
acquire-undone key asked (pos zero) c n h e = refl
acquire-undone key asked (pos (suc r)) c n h e = acquired-undone key asked r c n h e

-- A request starts, or one that was admitted ends.
pub data Event : Type 0 where
  starts ends : String → Event

module _ (limits : String → ℤ) where
  unfoldable pub step : Event → Concurrency → Concurrency
  step (starts k) c = (acquire k (limits k) c).0
  step (ends k) c = release k (limits k) c

  unfoldable pub run : List Event → Concurrency → Concurrency
  run [] c = c
  run (e ∷ es) c = run es (step e c)

  -- The requests of `key` in flight, told from the answers of `Acquire` alone.
  unfoldable pub in_flight : String → ℕ → Event → Concurrency → ℕ
  in_flight key n (starts k) c =
      if str_eq k key then (if (acquire k (limits k) c).1 then suc n else n) else n
  in_flight key n (ends k) c = if str_eq k key then n - 1 else n

  unfoldable pub flights : String → ℕ → List Event → Concurrency → ℕ
  flights key n [] c = n
  flights key n (e ∷ es) c = flights key (in_flight key n e c) es (step e c)

  step-entry :
      (key : String) (r n : ℕ) (e : Event) (c : Concurrency)
      → limits key ≡ pos r
      → 0 < r
      → suc r < int64_half
      → n ≤ r
      → lookup key c ≡ entry n
      → (lookup key (step e c) ≡ entry (in_flight key n e c)) × (in_flight key n e c ≤ r)
  unfolding step in_flight
  step-entry key r n (starts k) c lim p h le e = elim (Bool-cases (str_eq k key)) [
    | inl same ↦
        let q : k ≡ key = (eq_iff k key).0 same in
        let (look, ans) = acquire-entry key r c n p (omega arith) e in
        let same_call : acquire k (limits k) c ≡ acquire key (pos r) c =
          ap (λ k'. acquire k' (limits k') c) q ∙ ap (λ m. acquire key m c) lim in
        rw (same, same_call, ans)
          (
            ap (λ (p : Concurrency × Bool). lookup key p.0) same_call
                ∙ look
                ∙ ap entry (ground arith),
            ground arith,
          )
    | inr other ↦
        rw other (acquire-ne k key (limits k) c (λ q. ground (arith, eq_iff k key)) ∙ e, le)
  ]
  step-entry key r n (ends k) c lim p h le e = elim (Bool-cases (str_eq k key)) [
    | inl same ↦
        let q : k ≡ key = (eq_iff k key).0 same in
        let same_call : release k (limits k) c ≡ release key (pos r) c =
          ap (λ k'. release k' (limits k') c) q ∙ ap (λ m. release key m c) lim in
        rw same (ap (lookup key) same_call ∙ release-entry key r c n p (omega arith) e, omega arith)
    | inr other ↦
        rw other (release-ne k key (limits k) c (λ q. ground (arith, eq_iff k key)) ∙ e, le)
  ]

  -- Through any sequence of starts and ends, under this and other keys, the map counts the
  -- requests of a key in flight, these stay within its limit, and a key with none has no entry,
  -- so the map does not grow with the keys that ever called.
  pub run-entry :
      (key : String) (r n : ℕ) (es : List Event) (c : Concurrency)
      → limits key ≡ pos r
      → 0 < r
      → suc r < int64_half
      → n ≤ r
      → lookup key c ≡ entry n
      → (lookup key (run es c) ≡ entry (flights key n es c)) × (flights key n es c ≤ r)
  unfolding run flights
  run-entry key r n [] c lim p h le e = (e, le)
  run-entry key r n (x ∷ es) c lim p h le e =
      let (e', le') = step-entry key r n x c lim p h le e in
      run-entry key r (in_flight key n x c) es (step x c) lim p h le' e'
