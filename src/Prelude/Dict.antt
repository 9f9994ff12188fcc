-- ===== src/Prelude/Dict.antt =====
-- A Go map with text keys, as an association list. Ranging over the map follows the list, so a
-- statement for every list holds for every order of iteration.
use mathlib.Core.Path.{◌≡◌, refl}
use mathlib.Core.Option.{Option, none, some}
use mathlib.Core.List.{List, [], ◌∷◌, map}
use Prim.Native.String.{String}
use native.Mathlib.Omega.{arith}
use text.Mathlib.TextEquality.{eq_iff}
use mathlib.Core.Logic.{inl, inr}
use llmgateway.Prelude.Tests.{str_eq, if◌then◌else◌, Bool-cases}
use llmgateway.Prelude.Lists.{All}

abbrev pub Dict {ℓ} : Type ℓ → Type ℓ
Dict V = List (String × V)

module _ {ℓ} {V : Type ℓ} where
  -- `v, ok := m[k]`
  unfoldable pub lookup : String → Dict V → Option V
  lookup k [] = none
  lookup k ((j, v) ∷ m) = if str_eq j k then some v else lookup k m

  -- `m[k] = v`
  unfoldable pub insert : String → V → Dict V → Dict V
  insert k v [] = (k, v) ∷ []
  insert k v ((j, w) ∷ m) = if str_eq j k then (k, v) ∷ m else (j, w) ∷ insert k v m

  -- `delete(m, k)`
  unfoldable pub delete : String → Dict V → Dict V
  delete k [] = []
  delete k ((j, w) ∷ m) = let rest = delete k m in if str_eq j k then rest else (j, w) ∷ rest

  -- `for _, v := range m`
  unfoldable pub values : Dict V → List V
  values m = map (λ e. e.1) m

  -- Reading behind a write, and behind a deletion.
  pub lookup-insert :
      (key asked : String) (v : V) (m : Dict V)
      → lookup asked (insert key v m) ≡ (if str_eq key asked then some v else lookup asked m)
  unfolding lookup insert
  lookup-insert key asked v [] = refl
  lookup-insert key asked v ((held, w) ∷ m) =
      let rest = lookup-insert key asked v m in
      ground (arith, eq_iff held asked, eq_iff held key, eq_iff key asked, rest)

  pub lookup-delete :
      (key asked : String) (m : Dict V)
      → lookup asked (delete key m) ≡ (if str_eq key asked then none else lookup asked m)
  unfolding lookup delete
  lookup-delete key asked [] = ground arith
  lookup-delete key asked ((held, w) ∷ m) =
      let rest = lookup-delete key asked m in
      ground (arith, eq_iff held asked, eq_iff held key, eq_iff key asked, rest)

-- What holds of every entry, behind a write and a deletion.
pub insert-All {κ} :
    {V : Type 0} (P : String × V → Type κ) (k : String) (v : V) (m : Dict V)
    → P (k, v)
    → All P m
    → All P (insert k v m)
unfolding insert
insert-All P k v [] p h = (p, tt)
insert-All P k v ((j, w) ∷ m) p (here, later) =
    let rest = insert-All P k v m p later in
    elim (Bool-cases (str_eq j k)) [ inl e ↦ rw e (p, later) | inr e ↦ rw e (here, rest) ]

pub delete-All {κ} :
    {V : Type 0} (P : String × V → Type κ) (k : String) (m : Dict V) → All P m → All P (delete k m)
unfolding delete
delete-All P k [] h = tt
delete-All P k ((j, w) ∷ m) (here, later) =
    let rest = delete-All P k m later in
    elim (Bool-cases (str_eq j k)) [ inl e ↦ rw e rest | inr e ↦ rw e (here, rest) ]
