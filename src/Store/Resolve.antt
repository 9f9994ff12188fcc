-- ===== src/Store/Resolve.antt =====
-- Where `ResolveAlias` ends.
use mathlib.Core.Path.{subst}
use llmgateway.Prelude.{
  if◌then◌else◌, ℕ, zero, suc, ◌+◌, ◌⊎◌, true, ◌≤◌, ◌<◌, ◌≡◌, refl, sym, ap, ◌∙◌, inl, inr, false,
  List, [], ◌∷◌, none, some, String, str_eq, eq_iff, any, arith, All, Bool-cases, Option-cases,
}
use llmgateway.Store.Catalog.{
  Store, ModelAlias, live_alias, hops, keep_external, resolve_alias, max_alias_hops,
}

-- `n` hops over enabled aliases lead from a name to another.
abbrev pub Chain : Store → ℕ → String → String → Type 0
Chain s zero x y = x ≡ y
Chain s (suc n) x y = (a : ModelAlias) × (live_alias x s ≡ some a) × Chain s n a.internal_model y

-- A name ends the walk where it is no enabled alias.
abbrev pub IsTerminal : Store → String → Type 0
IsTerminal s y = live_alias y s ≡ none

Chain-snoc :
    (n : ℕ) (x y : String) (s : Store) (a : ModelAlias)
    → Chain s n x y
    → live_alias y s ≡ some a
    → Chain s (suc n) x a.internal_model
Chain-snoc zero x y s a c e = (a, ap (λ z. live_alias z s) c ∙ e, refl)
Chain-snoc (suc n) x y s a (b, f, c) e = (b, f, Chain-snoc n b.internal_model y s a c e)

-- A name that is fewer than `m` hops from the start.
abbrev pub IsBefore : Store → String → ℕ → String → Type 0
IsBefore s x m z = (k : ℕ) × (k < m) × Chain s k x z

IsBefore-suc :
    (s : Store) (x : String) (m : ℕ) (seen : List String)
    → All (IsBefore s x m) seen
    → All (IsBefore s x (suc m)) seen
IsBefore-suc s x m [] f = tt
IsBefore-suc s x m (z ∷ seen) ((k, lt, c), f) = ((k, omega arith, c), IsBefore-suc s x m seen f)

any-IsBefore :
    (s : Store) (x y : String) (m : ℕ) (seen : List String)
    → All (IsBefore s x m) seen
    → any (λ z. str_eq z y) seen ≡ true
    → IsBefore s x m y
unfolding any
any-IsBefore s x y m [] f h = cc
any-IsBefore s x y m (z ∷ seen) (before, f) h = elim (Bool-cases (str_eq z y)) [
  | inl e ↦ subst (IsBefore s x m) ((eq_iff z y).0 e) before
  | inr e ↦ any-IsBefore s x y m seen f (rw (e, any) at h)
]

-- A walk of at most `n` hops over enabled aliases. It has ended in a name that is no enabled alias, or
-- with its last hop, or in a name that it had been to.
pub record IsWalk (s : Store) (n : ℕ) (x y : String) : Type 0 where
  pub length : ℕ
  pub few : length ≤ n
  pub chain : Chain s length x y
  pub ended : IsTerminal s y ⊎ ((length ≡ n) ⊎ IsBefore s x length y)

hops-IsWalk :
    (n i : ℕ) (seen : List String) (x y : String) (s : Store)
    → Chain s i x y
    → All (IsBefore s x i) seen
    → IsWalk s (i + n) x (hops n seen y s)
unfolding hops
hops-IsWalk zero i seen x y s c f = record {
  length = i;
  few = omega arith;
  chain = c;
  ended = inr (inl (omega arith));
}
hops-IsWalk (suc n) i seen x y s c f = elim (Option-cases (live_alias y s)) [
  | inl e ↦ rw (e, hops) (record { length = i; few = omega arith; chain = c; ended = inl e })
  | inr (a, e) ↦ elim (Bool-cases (any (λ z. str_eq z y) seen)) [
    | inl h ↦
        rw (e, h, hops)
          (record {
            length = i;
            few = omega arith;
            chain = c;
            ended = inr (inr (any-IsBefore s x y i seen f h));
          })
    | inr h ↦
        let rest : IsWalk s (suc i + n) x (hops n (y ∷ seen) a.internal_model s) =
          hops-IsWalk n (suc i) (y ∷ seen) x a.internal_model s (Chain-snoc i x y s a c e)
            ((i, omega arith, c), IsBefore-suc s x i seen f) in
        let same : suc i + n ≡ i + suc n = omega arith in
        rw (e, h, hops) (subst (λ k. IsWalk s k x (hops n (y ∷ seen) a.internal_model s)) same rest)
  ]
]

-- From a name, the number of hops to a terminal name is one number.
Chain-length :
    (m n : ℕ) (x y : String) (s : Store) → IsTerminal s y → Chain s m x y → Chain s n x y → m ≡ n
Chain-length zero zero x y s t c d = refl
Chain-length zero (suc n) x y s t c (a, e, d) = absurd (ground (arith, e, c, t))
Chain-length (suc m) zero x y s t (a, e, c) d = absurd (ground (arith, e, d, t))
Chain-length (suc m) (suc n) x y s t (a, e, c) (b, f, d) =
    let same : b.internal_model ≡ a.internal_model = ground (arith, e, f) in
    ap suc (Chain-length m n a.internal_model y s t c (subst (λ z. Chain s n z y) same d))

-- Every name of the list is further than `m` hops from `y`.
abbrev Further : Store → String → ℕ → List String → Type 0
Further s y m = All (λ z. (k : ℕ) × (m < k) × Chain s k z y)

Further-mono :
    (s : Store) (y : String) (m : ℕ) (seen : List String)
    → Further s y (suc m) seen
    → Further s y m seen
Further-mono s y m [] f = tt
Further-mono s y m (z ∷ seen) ((k, lt, c), f) = ((k, omega arith, c), Further-mono s y m seen f)

-- A name that is `m` hops away is not among those seen.
not_seen :
    (s : Store) (x y : String) (m : ℕ) (seen : List String)
    → IsTerminal s y
    → Chain s m x y
    → Further s y m seen
    → any (λ z. str_eq z x) seen ≡ false
unfolding any
not_seen s x y m [] t c f = refl
not_seen s x y m (z ∷ seen) t c ((k, lt, d), f) = elim (Bool-cases (str_eq z x)) [
  | inl e ↦
      let same = (eq_iff z x).0 e in
      let eq = Chain-length m k x y s t c (subst (λ w. Chain s k w y) same d) in
      absurd (omega arith)
  | inr e ↦ rw (e, any) (not_seen s x y m seen t c f)
]

hops_terminal :
    (m n : ℕ) (seen : List String) (x y : String) (s : Store)
    → IsTerminal s y
    → Chain s m x y
    → m ≤ n
    → Further s y m seen
    → hops n seen x s ≡ y
unfolding hops
hops_terminal zero zero seen x y s t c le f = c
hops_terminal zero (suc n) seen x y s t c le f =
    let stop : live_alias x s ≡ none = ap (λ z. live_alias z s) c ∙ t in rw (stop, hops) c
hops_terminal (suc m) zero seen x y s t c le f = absurd (omega arith)
hops_terminal (suc m) (suc n) seen x y s t (a, e, c) le f =
    let fresh = not_seen s x y (suc m) seen t (a, e, c) f in
    rw (e, fresh, hops)
      (hops_terminal m n (x ∷ seen) a.internal_model y s t c (omega arith)
        ((suc m, omega arith, (a, e, c)), Further-mono s y m seen f))

-- `ResolveAlias` follows a chain of enabled aliases to its end, if it has at most eight hops: the
-- internal model is the terminal name.
pub resolve_alias-IsTerminal :
    (m : ℕ) (x y : String) (s : Store)
    → IsTerminal s y
    → Chain s m x y
    → m ≤ max_alias_hops
    → (resolve_alias x s).0 ≡ y
unfolding resolve_alias
resolve_alias-IsTerminal m x y s t c le =
    let e = hops_terminal m max_alias_hops [] x y s t c le tt in ground (arith, e)

-- The name for upstream: the one asked for, if it is an enabled alias that keeps external names.
abbrev pub name_upstream : String → Store → String → String
name_upstream x s y = elim (live_alias x s) [
  | none ↦ y
  | some a ↦ if str_eq a.forwarding_mode "keep_external" then x else y
]

-- Where `ResolveAlias` ends, whatever the aliases are, cycles included. The internal model is reached
-- from the name asked for by hops over enabled aliases, eight at most, and the walk has stopped there
-- for a reason: the name is no enabled alias, or it was the eighth hop, or the walk had been to
-- the name before. The name sent upstream is the one asked for if that is an enabled alias whose mode
-- is keep_external, and the internal model otherwise.
pub resolve_alias-IsWalk :
    (x : String) (s : Store)
    → IsWalk s 8 x (resolve_alias x s).0
      × ((resolve_alias x s).1 ≡ name_upstream x s (resolve_alias x s).0)
unfolding resolve_alias keep_external
resolve_alias-IsWalk x s =
    let walk : IsWalk s 8 x (hops max_alias_hops [] x s) =
      subst (λ k. IsWalk s k x (hops max_alias_hops [] x s)) (omega arith)
        (hops-IsWalk max_alias_hops 0 [] x x s refl tt) in
    let same : (resolve_alias x s).0 ≡ hops max_alias_hops [] x s = ground arith in
    (subst (IsWalk s 8 x) (sym same) walk, ground arith)
