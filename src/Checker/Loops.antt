-- ===== src/Checker/Loops.antt =====
-- The probe loops that run, and the map of their stop channels.
use llmgateway.Prelude.{
  ℕ, ◌≡◌, ◌==◌, inl, inr, Bool, true, false, not, List, [], ◌∷◌, none, some, String, str_eq,
  str_eq_self, any, keep_if, All, arith, eq_iff, Bool-cases, Option-cases, if◌then◌else◌,
}
use llmgateway.Prelude.Dict.{Dict, lookup, insert, delete, lookup-insert, lookup-delete}
use llmgateway.Checker.{Checker, spawn, add_backend, close, remove_backend, add_all, remove_unseen}

-- A running loop is that of its backend in the map.
abbrev pub IsOwned : Dict ℕ → ℕ × String → Type 0
IsOwned loops r = lookup r.1 loops ≡ some r.0

abbrev pub Tracked : Checker → Type 0
Tracked c = All (IsOwned c.loops) c.running

insert-IsOwned :
    (id : String) (ch : ℕ) (loops : Dict ℕ) (rs : List (ℕ × String))
    → lookup id loops ≡ none
    → All (IsOwned loops) rs
    → All (IsOwned (insert id ch loops)) rs
insert-IsOwned id ch loops [] e h = tt
insert-IsOwned id ch loops (r ∷ rs) e (here, later) = (
  ground (arith, lookup-insert id r.1 ch loops, eq_iff id r.1),
  insert-IsOwned id ch loops rs e later,
)

spawn-Tracked : (id : String) (c : Checker) → Tracked c → Tracked (spawn id c)
unfolding spawn
spawn-Tracked id c h = elim (Option-cases (lookup id c.loops)) [
  | inl e ↦
      rw (spawn, e)
        (
          ground (arith, lookup-insert id id c.made c.loops, str_eq_self id),
          insert-IsOwned id c.made c.loops c.running e h,
        )
  | inr (ch, e) ↦ rw (spawn, e) h
]

close-IsOwned :
    (id : String) (ch : ℕ) (loops : Dict ℕ) (rs : List (ℕ × String))
    → lookup id loops ≡ some ch
    → All (IsOwned loops) rs
    → All (IsOwned (delete id loops)) (close ch rs)
unfolding close keep_if
close-IsOwned id ch loops [] e h = tt
close-IsOwned id ch loops (r ∷ rs) e (here, later) =
    let rest = close-IsOwned id ch loops rs e later in
    elim (Bool-cases (r.0 == ch)) [
      | inl q ↦ rw q rest
      | inr q ↦ rw q (ground (arith, lookup-delete id r.1 loops, eq_iff id r.1), rest)
    ]

remove_backend-Tracked : (id : String) (c : Checker) → Tracked c → Tracked (remove_backend id c)
unfolding remove_backend
remove_backend-Tracked id c h = elim (Option-cases (lookup id c.loops)) [
  | inl e ↦ rw (remove_backend, e) h
  | inr (ch, e) ↦ rw (remove_backend, e) (close-IsOwned id ch c.loops c.running e h)
]

if-Tracked : (b : Bool) (c d : Checker) → Tracked c → Tracked d → Tracked (if b then c else d)
if-Tracked true c d h k = h
if-Tracked false c d h k = k

add_backend-Tracked : (id : String) (c : Checker) → Tracked c → Tracked (add_backend id c)
unfolding add_backend
add_backend-Tracked id c h = if-Tracked (not c.started) c (spawn id c) h (spawn-Tracked id c h)

pub add_all-Tracked : (ids : List String) (c : Checker) → Tracked c → Tracked (add_all ids c)
unfolding add_all
add_all-Tracked [] c h = h
add_all-Tracked (id ∷ ids) c h = add_all-Tracked ids (add_backend id c) (add_backend-Tracked id c h)

pub remove_unseen-Tracked :
    (seen ids : List String) (c : Checker) → Tracked c → Tracked (remove_unseen seen ids c)
unfolding remove_unseen
remove_unseen-Tracked seen [] c h = h
remove_unseen-Tracked seen (id ∷ ids) c h = elim (Bool-cases (any (λ s. str_eq s id) seen)) [
  | inl e ↦ rw (remove_unseen, e) (remove_unseen-Tracked seen ids c h)
  | inr e ↦
      rw (remove_unseen, e)
        (remove_unseen-Tracked seen ids (remove_backend id c) (remove_backend-Tracked id c h))
]
