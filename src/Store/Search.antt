-- ===== src/Store/Search.antt =====
-- The searches of `matchPattern`: prefix, suffix, first occurrence, and the parts behind a star.
use mathlib.Core.Path.{subst}
use mathlib.Core.List.{append-nil, append_assoc}
use llmgateway.Prelude.{
  ℕ, ◌≤◌, ◌≡◌, refl, ap, sym, ◌∙◌, ◌↔◌, inl, inr, true, List, [], ◌∷◌, ◌++◌, some, arith,
  Bool-cases, Option-cases, length, length-append,
}
use llmgateway.Store.Pattern.{bytes_eq, strip_prefix, has_suffix, after_first, match_rest}

pub bytes_eq_iff : (a b : List ℕ) → (bytes_eq a b ≡ true) ↔ (a ≡ b)
unfolding bytes_eq
bytes_eq_iff [] [] = (λ h. refl, λ h. refl)
bytes_eq_iff [] (y ∷ b) = (λ h. cc, λ h. cc)
bytes_eq_iff (x ∷ a) [] = (λ h. cc, λ h. cc)
bytes_eq_iff (x ∷ a) (y ∷ b) =
    let ih = bytes_eq_iff a b in (λ h. ground (arith, ih), λ h. ground (arith, ih))

pub strip_prefix_sound : (p s r : List ℕ) → strip_prefix p s ≡ some r → s ≡ p ++ r
unfolding strip_prefix
strip_prefix_sound [] s r h = ground arith
strip_prefix_sound (x ∷ p) [] r h = cc
strip_prefix_sound (x ∷ p) (y ∷ s) r h = ground (arith, strip_prefix_sound p s r)

pub strip_prefix-append : (p r : List ℕ) → strip_prefix p (p ++ r) ≡ some r
unfolding strip_prefix
strip_prefix-append [] r = refl
strip_prefix-append (x ∷ p) r = ground (arith, strip_prefix-append p r)

has_suffix_sound : (s t : List ℕ) → has_suffix s t ≡ true → (u : List ℕ) × (s ≡ u ++ t)
unfolding has_suffix
has_suffix_sound [] t h = ([], (bytes_eq_iff [] t).0 h)
has_suffix_sound (x ∷ s) t h = elim (Bool-cases (bytes_eq (x ∷ s) t)) [
  | inl e ↦ ([], (bytes_eq_iff (x ∷ s) t).0 e)
  | inr e ↦ let (u, q) = has_suffix_sound s t (ground (arith, e)) in (x ∷ u, ap (◌∷◌ x) q)
]

has_suffix-append : (u t : List ℕ) → has_suffix (u ++ t) t ≡ true
unfolding has_suffix
has_suffix-append [] [] = refl
has_suffix-append [] (y ∷ t) = rw ((bytes_eq_iff (y ∷ t) (y ∷ t)).1 refl) refl
has_suffix-append (x ∷ u) t = rw (has_suffix-append u t) (ground arith)

after_first_sound :
    (seg s r : List ℕ) → after_first seg s ≡ some r → (u : List ℕ) × (s ≡ u ++ (seg ++ r))
unfolding after_first
after_first_sound seg [] r h = ([], strip_prefix_sound seg [] r h)
after_first_sound seg (x ∷ s) r h = elim (Option-cases (strip_prefix seg (x ∷ s))) [
  | inl e ↦
      let (u, q) = after_first_sound seg s r (rw (e, after_first) at h) in (x ∷ u, ap (◌∷◌ x) q)
  | inr (r', e) ↦ ([], strip_prefix_sound seg (x ∷ s) r (e ∙ (rw (e, after_first) at h)))
]

-- Of two ways to cut a list, the one that cuts off less keeps the other's rest at its end.
longer_rest :
    (a w s r : List ℕ) → a ++ w ≡ s ++ r → length s ≤ length a → (t : List ℕ) × (r ≡ t ++ w)
longer_rest a w [] r e h = (a, sym e)
longer_rest [] w (x ∷ s) r e h = absurd (omega arith)
longer_rest (y ∷ a) w (x ∷ s) r e h = longer_rest a w s r (cc) (omega arith)

-- The first occurrence leaves at least what any occurrence leaves.
after_first_complete :
    (u seg w : List ℕ)
    → (r : List ℕ) × (after_first seg (u ++ (seg ++ w)) ≡ some r) × ((t : List ℕ) × (r ≡ t ++ w))
unfolding after_first
after_first_complete [] [] [] = ([], unfold strip_prefix in refl, ([], refl))
after_first_complete [] [] (x ∷ w) = (x ∷ w, unfold strip_prefix in refl, ([], refl))
after_first_complete [] (y ∷ seg) w =
    (w, rw (strip_prefix-append (y ∷ seg) w, after_first) refl, ([], refl))
after_first_complete (x ∷ u) seg w = elim (Option-cases (strip_prefix seg (x ∷ u ++ (seg ++ w)))) [
  | inl e ↦ let (r, q, t) = after_first_complete u seg w in (r, rw (e, after_first) q, t)
  | inr (r, e) ↦
      let cut = strip_prefix_sound seg (x ∷ u ++ (seg ++ w)) r e in
      let same : (x ∷ u ++ seg) ++ w ≡ seg ++ r = ap (◌∷◌ x) (append_assoc u seg w) ∙ cut in
      (
        r,
        rw (e, after_first) refl,
        longer_rest (x ∷ u ++ seg) w seg r same (omega (arith, length-append u seg)),
      )
]

-- The parts behind a star, each after any bytes, the last at the end.
abbrev pub Covers : List ℕ → List (List ℕ) → List ℕ → Type 0
Covers part [] v = (u : List ℕ) × (v ≡ u ++ part)
Covers part (next ∷ parts) v =
    (u : List ℕ) × (w : List ℕ) × (v ≡ u ++ (part ++ w)) × Covers next parts w

Covers-append :
    (part : List ℕ) (parts : List (List ℕ)) (t w : List ℕ)
    → Covers part parts w
    → Covers part parts (t ++ w)
Covers-append part [] t w (u, e) = (t ++ u, ap (◌++◌ t) e ∙ sym (append_assoc t u part))
Covers-append part (next ∷ parts) t w (u, w', e, c) =
    (t ++ u, w', ap (◌++◌ t) e ∙ sym (append_assoc t u (part ++ w')), c)

pub match_rest_sound :
    (part : List ℕ) (parts : List (List ℕ)) (v : List ℕ)
    → match_rest part parts v ≡ true
    → Covers part parts v
unfolding match_rest
match_rest_sound part [] v h = elim (Bool-cases (bytes_eq part [])) [
  | inl e ↦ let q = (bytes_eq_iff part []).0 e in (v, sym (append-nil v) ∙ ap (◌++◌ v) (sym q))
  | inr e ↦ has_suffix_sound v part (rw (e, match_rest) at h)
]
match_rest_sound part (next ∷ parts) v h = elim (Bool-cases (bytes_eq part [])) [
  | inl e ↦
      let q = (bytes_eq_iff part []).0 e in
      ([], v, ap (λ p. p ++ v) (sym q), match_rest_sound next parts v (rw (e, match_rest) at h))
  | inr e ↦ elim (Option-cases (after_first part v)) [
    | inl n ↦ ground (arith, e, n)
    | inr (r, f) ↦
        let (u, q) = after_first_sound part v r f in
        (u, r, q, match_rest_sound next parts r (rw (e, f, match_rest) at h))
  ]
]

pub match_rest_complete :
    (part : List ℕ) (parts : List (List ℕ)) (v : List ℕ)
    → Covers part parts v
    → match_rest part parts v ≡ true
unfolding match_rest
match_rest_complete part [] v (u, e) = elim (Bool-cases (bytes_eq part [])) [
  | inl q ↦ rw q refl
  | inr q ↦ rw (q, e) (has_suffix-append u part)
]
match_rest_complete part (next ∷ parts) v (u, w, e, c) = elim (Bool-cases (bytes_eq part [])) [
  | inl q ↦
      let p = (bytes_eq_iff part []).0 q in
      let all = Covers-append next parts u w c in
      rw (q, match_rest)
        (match_rest_complete next parts v
          (subst (Covers next parts) (sym (e ∙ ap (λ s. u ++ (s ++ w)) p)) all))
  | inr q ↦
      let (r, f, (t, g)) = after_first_complete u part w in
      let all = Covers-append next parts t w c in
      let found : after_first part v ≡ some r = ap (after_first part) e ∙ f in
      rw (q, found, match_rest)
        (match_rest_complete next parts r (subst (Covers next parts) (sym g) all))
]
