-- ===== src/Checker/Scanned.antt =====
-- The backends that have a stop channel after a rescan.
use llmgateway.Prelude.{
  ℕ, ◌≡◌, refl, ◌∙◌, inl, inr, Bool, true, false, not, ◌&&◌, ◌||◌, List, [], ◌∷◌, none, some,
  String, str_eq, any, arith, eq_iff, Bool-cases, Option-cases, if◌then◌else◌,
}
use llmgateway.Prelude.Dict.{Dict, lookup, lookup-insert, lookup-delete}
use llmgateway.Checker.{
  Checker, spawn, add_backend, remove_backend, add_all, remove_unseen, keys, rescan,
}
use llmgateway.Checker.Loops.{Tracked, add_all-Tracked, remove_unseen-Tracked}

-- Whether a backend has a stop channel in the map.
unfoldable pub has_loop : String → Checker → Bool
has_loop k c = elim (lookup k c.loops) [ none ↦ false | some ch ↦ true ]

spawn-has_loop :
    (id k : String) (c : Checker) → has_loop k (spawn id c) ≡ (str_eq id k || has_loop k c)
unfolding has_loop spawn
spawn-has_loop id k c = elim (Option-cases (lookup id c.loops)) [
  | inl e ↦ rw (spawn, e) (ground (arith, lookup-insert id k c.made c.loops))
  | inr (ch, e) ↦ rw (spawn, e) (ground (arith, eq_iff id k))
]

remove_backend-has_loop :
    (id k : String) (c : Checker)
    → has_loop k (remove_backend id c) ≡ (not (str_eq id k) && has_loop k c)
unfolding has_loop remove_backend
remove_backend-has_loop id k c = elim (Option-cases (lookup id c.loops)) [
  | inl e ↦ rw (remove_backend, e) (ground (arith, eq_iff id k))
  | inr (ch, e) ↦ rw (remove_backend, e) (ground (arith, lookup-delete id k c.loops))
]

-- The id stands in the list.
abbrev pub is_among : List String → String → Bool
is_among ids k = any (λ s. str_eq s k) ids

spawn-started : (id : String) (c : Checker) → (spawn id c).started ≡ c.started
unfolding spawn
spawn-started id c = elim (Option-cases (lookup id c.loops)) [
  | inl e ↦ rw (spawn, e) refl
  | inr (ch, e) ↦ rw (spawn, e) refl
]

if-run : {A : Type 0} (b : Bool) (x y : A) → b ≡ true → (if not b then x else y) ≡ y
if-run true x y h = refl
if-run false x y h = ground arith

add_backend-spawn : (id : String) (c : Checker) → c.started ≡ true → add_backend id c ≡ spawn id c
unfolding add_backend
add_backend-spawn id c s = if-run c.started c (spawn id c) s

add_all-has_loop :
    (ids : List String) (k : String) (c : Checker)
    → c.started ≡ true
    → has_loop k (add_all ids c) ≡ (is_among ids k || has_loop k c)
unfolding add_all any
add_all-has_loop [] k c s = refl
add_all-has_loop (id ∷ ids) k c s =
    let next = add_all-has_loop ids k (spawn id c) (spawn-started id c ∙ s) in
    rw (add_backend-spawn id c s, next, spawn-has_loop id k c) (ground arith)

keys-lookup :
    (k : String) (m : Dict ℕ)
    → (elim (lookup k m) [ none ↦ false | some ch ↦ true ]) ≡ is_among (keys m) k
unfolding lookup keys any
keys-lookup k [] = refl
keys-lookup k ((j, v) ∷ m) =
    let rest = keys-lookup k m in
    elim (Bool-cases (str_eq j k)) [ inl e ↦ rw e refl | inr e ↦ rw e rest ]

keys-has_loop : (k : String) (c : Checker) → has_loop k c ≡ is_among (keys c.loops) k
unfolding has_loop
keys-has_loop k c = keys-lookup k c.loops

remove_unseen-has_loop :
    (seen ids : List String) (k : String) (c : Checker)
    → has_loop k (remove_unseen seen ids c)
      ≡ (has_loop k c && not (is_among ids k && not (is_among seen k)))
unfolding remove_unseen any
remove_unseen-has_loop seen [] k c = ground arith
remove_unseen-has_loop seen (id ∷ ids) k c =
    let kept = remove_unseen-has_loop seen ids k c in
    let gone = remove_unseen-has_loop seen ids k (remove_backend id c) in
    elim (Bool-cases (is_among seen id)) [
      | inl e ↦ rw (remove_unseen, e) (ground (arith, kept, eq_iff id k))
      | inr e ↦
          rw (remove_unseen, e) (ground (arith, gone, eq_iff id k, remove_backend-has_loop id k c))
    ]

-- After a rescan of a checker that has started, the backends with a stop channel are those of the
-- store. If every loop that runs had the channel that the map keeps for its backend, this is still
-- so, and thus no loop is left running for a backend that has gone.
pub rescan-Tracked :
    (current : List String) (c : Checker)
    → c.started ≡ true
    → Tracked c
    → ((k : String) → has_loop k (rescan current c) ≡ is_among current k)
      × Tracked (rescan current c)
unfolding rescan
rescan-Tracked current c s h =
    let added = add_all current c in
    (
      λ k. ground (
        arith,
        remove_unseen-has_loop current (keys added.loops) k added,
        keys-has_loop k added,
        add_all-has_loop current k c s,
      ),
      remove_unseen-Tracked current (keys added.loops) added (add_all-Tracked current c h),
    )
