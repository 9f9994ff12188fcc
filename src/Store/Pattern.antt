-- ===== src/Store/Pattern.antt =====
-- `matchPattern` of internal/store/store.go, on the bytes of the two strings.
use llmgateway.Prelude.{
  ℕ, ◌==◌, Bool, true, false, not, ◌&&◌, ◌||◌, List, [], ◌∷◌, Option, none, some, if◌then◌else◌,
}

abbrev pub star : ℕ
star = b'*'

-- `==` on byte strings.
unfoldable pub bytes_eq : List ℕ → List ℕ → Bool
bytes_eq [] [] = true
bytes_eq (x ∷ xs) (y ∷ ys) = x == y && bytes_eq xs ys
bytes_eq _ _ = false

-- `strings.ContainsRune(s, '*')`
unfoldable pub has_star : List ℕ → Bool
has_star [] = false
has_star (c ∷ cs) = c == star || has_star cs

-- `strings.Split(s, "*")`: the first part, and the others.
unfoldable pub split : List ℕ → List ℕ × List (List ℕ)
split [] = ([], [])
split (c ∷ cs) =
    let (first, rest) = split cs in if c == star then ([], first ∷ rest) else (c ∷ first, rest)

-- `strings.HasPrefix(s, p)`, with what follows the prefix.
unfoldable pub strip_prefix : List ℕ → List ℕ → Option (List ℕ)
strip_prefix [] s = some s
strip_prefix (x ∷ p) [] = none
strip_prefix (x ∷ p) (y ∷ s) = if x == y then strip_prefix p s else none

-- `strings.HasSuffix(s, t)`
unfoldable pub has_suffix : List ℕ → List ℕ → Bool
unfolding bytes_eq
has_suffix [] t = bytes_eq [] t
has_suffix (x ∷ s) t = bytes_eq (x ∷ s) t || has_suffix s t

-- `strings.Index(s, seg)`, as what follows the first occurrence.
unfoldable pub after_first : List ℕ → List ℕ → Option (List ℕ)
unfolding strip_prefix
after_first seg [] = strip_prefix seg []
after_first seg (x ∷ s) = elim (strip_prefix seg (x ∷ s)) [
  | some r ↦ some r
  | none ↦ after_first seg s
]

-- The loop over the parts behind the first, and the test of the last part. `value` is what is left
-- of it from `pos`.
unfoldable pub match_rest : List ℕ → List (List ℕ) → List ℕ → Bool
unfolding bytes_eq has_suffix after_first
match_rest part [] value = if bytes_eq part [] then true else has_suffix value part
match_rest part (next ∷ parts) value =
    let skip = match_rest next parts value in
    if bytes_eq part []
    then skip
    else elim (after_first part value) [ none ↦ false | some r ↦ match_rest next parts r ]

-- Behind the first part: a pattern with a star has a second one.
unfoldable pub match_parts : List (List ℕ) → List ℕ → Bool
unfolding match_rest
match_parts [] value = true
match_parts (p ∷ ps) value = match_rest p ps value

unfoldable pub match_pattern : List ℕ → List ℕ → Bool
unfolding bytes_eq has_star split strip_prefix match_parts
match_pattern pattern_ value =
    if bytes_eq pattern_ []
    then false
    else if bytes_eq pattern_ (star ∷ []) || bytes_eq pattern_ value
    then true
    else if not (has_star pattern_)
    then false
    else let (first, parts) = split pattern_ in
      elim (strip_prefix first value) [ none ↦ false | some rest ↦ match_parts parts rest ]
