-- ===== src/Capability/Allowed.antt =====
-- What a mode asks of the capabilities that a body uses.
use llmgateway.Prelude.{
  sym, ap, ◌∙◌, ne_str_eq, ◌≡◌, ◌≢◌, ◌⊎◌, ◌↔◌, inl, inr, refl, Bool, true, false, not, ◌&&◌, some,
  String, str_eq, arith, eq_iff, Bool-cases, [], ◌∷◌,
}
use llmgateway.Prelude.Dict.{Dict, lookup}
use llmgateway.Json.{JsonPackage}
use llmgateway.Capability.{
  admissible, cap, uses_tools, uses_thinking, references_image, is_unset, check_declared, check,
}

-- Under `strict` a capability has to be declared true, under `declared` not to be declared false.
abbrev pub IsAllowed : Bool → Dict Bool → String → Type 0
IsAllowed true caps key = lookup key caps ≡ some true
IsAllowed false caps key = lookup key caps ≢ some false

-- The test of `checkDeclared` for one capability.
bars-IsAllowed :
    (uses strict : Bool) (caps : Dict Bool) (key : String)
    → ((uses && not (cap caps key (not strict))) ≡ false)
      ↔ ((uses ≡ false) ⊎ IsAllowed strict caps key)
unfolding cap
bars-IsAllowed uses true caps key = (λ h. ground arith, λ h. ground arith)
bars-IsAllowed uses false caps key = (λ h. ground arith, λ h. ground arith)

unset-IsAllowed :
    (caps : Dict Bool) (key : String) → is_unset caps ≡ true → IsAllowed false caps key
unfolding is_unset lookup
unset-IsAllowed [] key h = cc
unset-IsAllowed (x ∷ caps) key h = cc

module _ (J : JsonPackage) where
  -- Each feature that the body uses is allowed.
  pub record Allows (strict : Bool) (caps : Dict Bool) (body : String) : Type 0 where
    pub tools : (uses_tools J body ≡ false) ⊎ IsAllowed strict caps "tool_call"
    pub images : (references_image J body ≡ false) ⊎ IsAllowed strict caps "vision"
    pub thinking : (uses_thinking J body ≡ false) ⊎ IsAllowed strict caps "thinking"

  unset-Allows :
      (strict : Bool) (caps : Dict Bool) (body : String)
      → (not strict && is_unset caps) ≡ true
      → Allows strict caps body
  unset-Allows true caps body h = cc
  unset-Allows false caps body h = record {
    tools = inr (unset-IsAllowed caps "tool_call" h);
    images = inr (unset-IsAllowed caps "vision" h);
    thinking = inr (unset-IsAllowed caps "thinking" h);
  }

  check_declared-Allows :
      (strict : Bool) (caps : Dict Bool) (body : String)
      → (check_declared J strict caps body ≡ admissible) ↔ Allows strict caps body
  unfolding check_declared
  check_declared-Allows strict caps body =
      let c1 = bars-IsAllowed (uses_tools J body) strict caps "tool_call" in
      let c2 = bars-IsAllowed (references_image J body) strict caps "vision" in
      let c3 = bars-IsAllowed (uses_thinking J body) strict caps "thinking" in
      elim (Bool-cases (not strict && is_unset caps)) [
        | inl u ↦ (λ h. unset-Allows strict caps body u, λ v. rw u refl)
        | inr u ↦ (
          λ h. record {
            tools = c1.0 (ground arith);
            images = c2.0 (ground arith);
            thinking = c3.0 (ground arith);
          },
          λ v. rw (u, c1.1 v.tools, c2.1 v.images, c3.1 v.thinking) refl,
        )
      ]

  -- Under the mode "strict" `Check` admits a body exactly when every feature that the body uses
  -- is a capability declared true, and under "declared" exactly when none of them is declared
  -- false. Every other mode, also one of these words in capitals, admits every body.
  pub check-Allows :
      (mode : String) (caps : Dict Bool) (body : String)
      → (check J mode caps body ≡ admissible) ↔ (
          ((mode ≢ "strict") ⊎ Allows true caps body)
          × ((mode ≢ "declared") ⊎ Allows false caps body))
  unfolding check
  check-Allows mode caps body =
      let strict = check_declared-Allows true caps body in
      let declared = check_declared-Allows false caps body in
      elim (Bool-cases (str_eq mode "strict")) [
        | inl s ↦
            let q : mode ≡ "strict" = (eq_iff mode "strict").0 s in
            let run : check J mode caps body ≡ check_declared J true caps body =
              ap (λ m. check J m caps body) q in
            let other : mode ≢ "declared" = λ h. ne_str_eq "strict" "declared" refl (sym q ∙ h) in
            (
              λ h. (inr (strict.0 (sym run ∙ h)), inl other),
              λ v. elim v.0 [ inl n ↦ absurd (n q) | inr a ↦ run ∙ strict.1 a ],
            )
        | inr s ↦ elim (Bool-cases (str_eq mode "declared")) [
          | inl d ↦
              let q : mode ≡ "declared" = (eq_iff mode "declared").0 d in
              let run : check J mode caps body ≡ check_declared J false caps body =
                ap (λ m. check J m caps body) q in
              (
                λ h. (inl (ne_str_eq mode "strict" s), inr (declared.0 (sym run ∙ h))),
                λ v. elim v.1 [ inl n ↦ absurd (n q) | inr a ↦ run ∙ declared.1 a ],
              )
          | inr d ↦ (
            λ h. (inl (ne_str_eq mode "strict" s), inl (ne_str_eq mode "declared" d)),
            λ v. ground (arith, s, d),
          )
        ]
      ]
