-- ===== src/Store/Glob.antt =====
-- What `matchPattern` means: `*` stands for any bytes, every other byte for itself.
use mathlib.Core.Path.{subst}
use mathlib.Core.List.{append-nil}
use llmgateway.Prelude.{
  ℕ, ◌≡◌, ◌≢◌, refl, ap, sym, ◌∙◌, ◌⊎◌, ◌↔◌, inl, inr, Bool, true, false, ◌==◌, ==_iff, List, [],
  ◌∷◌, ◌++◌, none, some, arith, Bool-cases, Option-cases,
}
use llmgateway.Store.Pattern.{
  star, bytes_eq, has_star, split, strip_prefix, match_parts, match_pattern,
}
use llmgateway.Store.Search.{
  bytes_eq_iff, strip_prefix_sound, strip_prefix-append, Covers, match_rest_sound,
  match_rest_complete,
}

-- `Glob p v`: the pattern matches the value.
abbrev pub Glob : List ℕ → List ℕ → Type 0
Glob [] v = v ≡ []
Glob (c ∷ p) v =
    ((c ≡ star) × ((u : List ℕ) × (w : List ℕ) × (v ≡ u ++ w) × Glob p w))
    ⊎ ((c ≢ star) × ((w : List ℕ) × (v ≡ c ∷ w) × Glob p w))

-- The parts of a whole pattern: the first at the start.
abbrev Parts : List ℕ → List (List ℕ) → List ℕ → Type 0
Parts first [] v = v ≡ first
Parts first (next ∷ parts) v = (w : List ℕ) × (v ≡ first ++ w) × Covers next parts w

Covers-Parts :
    (part : List ℕ) (parts : List (List ℕ)) (v : List ℕ)
    → Covers part parts v ↔ ((u : List ℕ) × (w : List ℕ) × (v ≡ u ++ w) × Parts part parts w)
Covers-Parts part [] v = (λ c. (c.0, part, c.1, refl), λ h. (h.0, h.2 ∙ ap (◌++◌ (h.0)) (h.3)))
Covers-Parts part (next ∷ parts) v = (
  λ c. (c.0, part ++ c.1, c.2, (c.1, refl, c.3)),
  λ h. (h.0, (h.3).0, h.2 ∙ ap (◌++◌ (h.0)) ((h.3).1), (h.3).2),
)

Parts-cons :
    (c : ℕ) (first : List ℕ) (parts : List (List ℕ)) (v : List ℕ)
    → Parts (c ∷ first) parts v ↔ ((w : List ℕ) × (v ≡ c ∷ w) × Parts first parts w)
Parts-cons c first [] v = (λ h. (first, h, refl), λ h. (h.1 ∙ ap (◌∷◌ c) (h.2)))
Parts-cons c first (next ∷ parts) v = (
  λ h. (first ++ h.0, h.1, (h.0, refl, h.2)),
  λ h. ((h.2).0, h.1 ∙ ap (◌∷◌ c) ((h.2).1), (h.2).2),
)

module _ (c : ℕ) (p v first : List ℕ) (parts : List (List ℕ))
    (ih : (w : List ℕ) → Glob p w ↔ Parts first parts w) where
  star_case : c ≡ star → Glob (c ∷ p) v ↔ Parts [] (first ∷ parts) v
  star_case e = (forth, back)
    where
      forth : Glob (c ∷ p) v → Parts [] (first ∷ parts) v
      forth (inl (_, (u, w, q, g))) =
          (v, refl, (Covers-Parts first parts v).1 (u, w, q, (ih w).0 g))
      forth (inr (n, _)) = absurd (n e)

      back : Parts [] (first ∷ parts) v → Glob (c ∷ p) v
      back (w, q, k) =
          let (u, w', q', g) = (Covers-Parts first parts w).0 k in
          inl (e, (u, w', q ∙ q', (ih w').1 g))

  lit_case : c ≢ star → Glob (c ∷ p) v ↔ Parts (c ∷ first) parts v
  lit_case n = (forth, back)
    where
      forth : Glob (c ∷ p) v → Parts (c ∷ first) parts v
      forth (inl (e, _)) = absurd (n e)
      forth (inr (_, (w, q, g))) = (Parts-cons c first parts v).1 (w, q, (ih w).0 g)

      back : Parts (c ∷ first) parts v → Glob (c ∷ p) v
      back k = let (w, q, g) = (Parts-cons c first parts v).0 k in inr (n, (w, q, (ih w).1 g))

split-Glob : (p v : List ℕ) → Glob p v ↔ Parts (split p).0 (split p).1 v
unfolding split
split-Glob [] v = (λ h. h, λ h. h)
split-Glob (c ∷ p) v = elim (Bool-cases (c == star)) [
  | inl e ↦
      rw (e, split) (star_case c p v (split p).0 (split p).1 (split-Glob p) ((==_iff c star).0 e))
  | inr e ↦
      rw (e, split)
        (lit_case c p v (split p).0 (split p).1 (split-Glob p) (λ q. ground (arith, e, q)))
]

-- A pattern matches itself, and the star alone anything.
Glob-refl : (p : List ℕ) → Glob p p
Glob-refl [] = refl
Glob-refl (c ∷ p) = elim (Bool-cases (c == star)) [
  | inl e ↦ inl ((==_iff c star).0 e, (c ∷ [], p, refl, Glob-refl p))
  | inr e ↦ inr (λ q. ground (arith, e, q), (p, refl, Glob-refl p))
]

Glob-star : (v : List ℕ) → Glob (star ∷ []) v
Glob-star v = inl (refl, (v, [], sym (append-nil v), refl))

-- A pattern without a star has one part, itself.
split-no_star : (p : List ℕ) → has_star p ≡ false → split p ≡ (p, [])
unfolding split has_star
split-no_star [] h = refl
split-no_star (c ∷ p) h = elim (Bool-cases (c == star)) [
  | inl e ↦ ground (arith, e)
  | inr e ↦ rw (e, split-no_star p (rw (e, has_star) at h)) refl
]

split-has_star :
    (p : List ℕ)
    → has_star p ≡ true
    → (f : List ℕ) × (q : List ℕ) × (qs : List (List ℕ)) × (split p ≡ (f, q ∷ qs))
unfolding split has_star
split-has_star [] h = cc
split-has_star (c ∷ p) h = elim (Bool-cases (c == star)) [
  | inl e ↦ ([], (split p).0, (split p).1, rw e refl)
  | inr e ↦
      let (f, q, qs, r) = split-has_star p (rw (e, has_star) at h) in (c ∷ f, q, qs, rw (e, r) refl)
]

-- What the code does behind its early returns.
abbrev tail_test : List ℕ → List ℕ → Bool
tail_test p v = elim (strip_prefix (split p).0 v) [
  | none ↦ false
  | some rest ↦ match_parts (split p).1 rest
]

tail_test-Parts :
    (f q : List ℕ) (qs : List (List ℕ)) (v : List ℕ)
    → ((elim (strip_prefix f v) [ none ↦ false | some rest ↦ match_parts (q ∷ qs) rest ]) ≡ true)
      ↔ Parts f (q ∷ qs) v
unfolding match_parts
tail_test-Parts f q qs v = (forth, back)
  where
    forth :
        (elim (strip_prefix f v) [ none ↦ false | some rest ↦ match_parts (q ∷ qs) rest ]) ≡ true
        → Parts f (q ∷ qs) v
    forth h = elim (Option-cases (strip_prefix f v)) [
      | inl n ↦ ground (arith, n)
      | inr (r, e) ↦ (r, strip_prefix_sound f v r e, match_rest_sound q qs r (ground (arith, e)))
    ]

    back :
        Parts f (q ∷ qs) v
        → (elim (strip_prefix f v) [ none ↦ false | some rest ↦ match_parts (q ∷ qs) rest ]) ≡ true
    back (r, e, k) =
        let found : strip_prefix f v ≡ some r = ap (strip_prefix f) e ∙ strip_prefix-append f r in
        let ok = match_rest_complete q qs r k in ground (arith, found, ok)

starless : (p v : List ℕ) → has_star p ≡ false → Glob p v → v ≡ p
starless p v h g =
    let k = (split-Glob p v).0 g in
    subst (λ (s : List ℕ × List (List ℕ)). Parts s.0 s.1 v) (split-no_star p h) k

starry : (p v : List ℕ) → has_star p ≡ true → (tail_test p v ≡ true) ↔ Glob p v
starry p v h =
    let (f, q, qs, r) = split-has_star p h in
    let g = split-Glob p v in
    let t = tail_test-Parts f q qs v in
    let P = λ (s : List ℕ × List (List ℕ)). Parts s.0 s.1 v in
    let T = λ (s : List ℕ × List (List ℕ)).
      (elim (strip_prefix s.0 v) as (λ _. Bool) [ none ↦ false | some rest ↦ match_parts s.1 rest ])
      ≡ true in
    (λ k. g.1 (subst P (sym r) (t.0 (subst T r k))), λ k. subst T (sym r) (t.1 (subst P r (g.0 k))))

-- `matchPattern` accepts a value exactly when the pattern is not empty and the value is the pattern
-- with any bytes in the place of each `*`. The greedy search for the parts misses no match.
pub match_pattern-Glob : (p v : List ℕ) → (match_pattern p v ≡ true) ↔ ((p ≢ []) × Glob p v)
unfolding match_pattern
match_pattern-Glob p v = elim (Bool-cases (bytes_eq p [])) [
  | inl e ↦ (λ h. ground (arith, e), λ k. absurd (k.0 ((bytes_eq_iff p []).0 e)))
  | inr e ↦
      let ne : p ≢ [] = λ q. ground (arith, e, (bytes_eq_iff p []).1 q) in
      elim (Bool-cases (bytes_eq p (star ∷ []))) [
        | inl s ↦ (
          λ _. (ne, subst (λ q. Glob q v) (sym ((bytes_eq_iff p (star ∷ [])).0 s)) (Glob-star v)),
          λ _. rw (e, s, match_pattern) refl,
        )
        | inr s ↦ elim (Bool-cases (bytes_eq p v)) [
          | inl q ↦ (
            λ _. (ne, subst (Glob p) ((bytes_eq_iff p v).0 q) (Glob-refl p)),
            λ _. rw (e, s, q, match_pattern) refl,
          )
          | inr q ↦ elim (Bool-cases (has_star p)) [
            | inl t ↦ (
              λ h. (ne, (starry p v t).0 (rw (e, s, q, t, match_pattern) at h)),
              λ k. rw (e, s, q, t, match_pattern) ((starry p v t).1 k.1),
            )
            | inr t ↦ (
              λ h. ground (arith, e, s, q, t),
              λ k. ground (arith, q, (bytes_eq_iff p v).1 (sym (starless p v t k.1))),
            )
          ]
        ]
      ]
]
