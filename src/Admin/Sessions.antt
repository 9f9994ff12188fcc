-- ===== src/Admin/Sessions.antt =====
-- The life of a session token.
use llmgateway.Prelude.{
  ℕ, ◌+◌, ◌≤◌, ◌≡◌, refl, sym, ◌∙◌, inl, inr, not, List, [], ◌∷◌, Option, none, some, String,
  str_eq, str_eq_self, str_append, ltb, arith, Bool-cases, Option-cases, if◌then◌else◌,
}
use llmgateway.Prelude.Dict.{Dict, lookup, insert, lookup-insert}
use text.Mathlib.TextLemmas.{nil-append, cons-append}
use llmgateway.Auth.{strip}
use llmgateway.Time.{Time}
use llmgateway.Admin.{
  AdminPackage, SessionClaim, SessionManager, split_dot, revoke_id, sign, mint, read_claim, verify,
  logout,
}

-- What the packages promise of the token of a claim: what they encode they decode, and the alphabet
-- of base64.RawURLEncoding has no dot.
pub record IsLossless (P : AdminPackage) (c : SessionClaim) : Type 0 where
  pub json : P.unmarshal (P.marshal c) ≡ some c
  pub base64 : P.decode_string (P.encode_to_string (P.marshal c)) ≡ some (P.marshal c)
  pub no_dot : split_dot (P.encode_to_string (P.marshal c)) ≡ none

split_dot-join :
    (a b : String) → split_dot a ≡ none → split_dot (str_append a (str_append "." b)) ≡ some (a, b)
unfolding split_dot
split_dot-join String.[] b h =
    rw (nil-append (str_append "." b), split_dot, cons-append, nil-append b) refl
split_dot-join (String.◌∷◌ c a) b h =
    let rest = split_dot-join a b in
    rw (cons-append c a (str_append "." b)) (ground (arith, h, rest))

-- The claim of a session that starts at `now`.
abbrev pub claim_of : String → String → String → ℕ → Time → SessionClaim
claim_of id username role ttl now = record {
  id = id;
  username = username;
  role = role;
  expires_at = now + ttl;
}

-- A minted token is accepted until its time is over or its id is revoked, and then it gives the
-- user and the role that it was minted with. After that it is refused.
pub verify-mint :
    (P : AdminPackage) (id username role : String) (ttl now later : ℕ) (m : SessionManager)
    → IsLossless P (claim_of id username role ttl now)
    → verify P later m (mint P id username role ttl now m) ≡ (
        if ltb (now + ttl) later then none else elim (lookup id m.revoke) [
          | none ↦ some (claim_of id username role ttl now)
          | some at ↦ none
        ])
unfolding verify mint read_claim
verify-mint P id username role ttl now later m L =
    let claim = claim_of id username role ttl now in
    let enc = P.encode_to_string (P.marshal claim) in
    rw (verify, mint, split_dot-join enc (sign P m enc) L.no_dot, str_eq_self (sign P m enc))
      (rw (read_claim, L.base64, L.json) refl)

-- The claim of a token with a good signature.
unfoldable signed : AdminPackage → String → String → Option SessionClaim
unfolding split_dot
signed P secret token = elim (split_dot token) [
  | none ↦ none
  | some (text, signature) ↦
      if not (str_eq (P.encode_to_string (P.hmac secret text)) signature)
      then none
      else elim (P.decode_string text) [ none ↦ none | some payload ↦ P.unmarshal payload ]
]

-- The claim is in time and not revoked.
unfoldable accept : Time → Dict Time → SessionClaim → Option SessionClaim
accept now revoked c =
    if ltb c.expires_at now
    then none
    else elim (lookup c.id revoked) [ none ↦ some c | some at ↦ none ]

unfoldable accepted : Time → Dict Time → Option SessionClaim → Option SessionClaim
unfolding accept
accepted now revoked none = none
accepted now revoked (some c) = accept now revoked c

-- The logouts of a list of headers, each at its time.
unfoldable pub log_out_all : AdminPackage → List (Time × String) → SessionManager → SessionManager
unfolding logout
log_out_all P [] m = m
log_out_all P ((at, header) ∷ rest) m = log_out_all P rest (logout P at header m)

accepted-insert :
    (later at : Time) (id : String) (revoked : Dict Time) (o : Option SessionClaim)
    → accepted later revoked o ≡ none
    → accepted later (insert id at revoked) o ≡ none
unfolding accepted accept
accepted-insert later at id revoked none h = refl
accepted-insert later at id revoked (some c) h = ground (arith, h, lookup-insert id c.id at revoked)

accepted-insert_own :
    (now later : Time) (revoked : Dict Time) (c : SessionClaim)
    → accepted later (insert c.id now revoked) (some c) ≡ none
unfolding accepted accept
accepted-insert_own now later revoked c =
    ground (arith, lookup-insert c.id c.id now revoked, str_eq_self c.id)

accepted-later :
    (now later : Time) (revoked : Dict Time) (o : Option SessionClaim)
    → now ≤ later
    → accepted now revoked o ≡ none
    → accepted later revoked o ≡ none
unfolding accepted accept
accepted-later now later revoked none le h = refl
accepted-later now later revoked (some c) le h = ground (arith, h, le)

accepted-some :
    (now : Time) (revoked : Dict Time) (o : Option SessionClaim) (c : SessionClaim)
    → accepted now revoked o ≡ some c
    → o ≡ some c
unfolding accepted accept
accepted-some now revoked none c h = h
accepted-some now revoked (some d) c h = ground (arith, h)

module _ (P : AdminPackage) where
  read_claim-accepted :
      (now : Time) (m : SessionManager) (text : String)
      → read_claim P now m text
        ≡ accepted now m.revoke
            (elim (P.decode_string text) [ none ↦ none | some payload ↦ P.unmarshal payload ])
  unfolding read_claim accepted accept
  read_claim-accepted now m text = elim (Option-cases (P.decode_string text)) [
    | inl e ↦ rw (read_claim, e) refl
    | inr (payload, e) ↦ elim (Option-cases (P.unmarshal payload)) [
      | inl f ↦ rw (read_claim, e, f) refl
      | inr (c, f) ↦ rw (read_claim, e, f) refl
    ]
  ]

  verify-accepted :
      (now : Time) (m : SessionManager) (token : String)
      → verify P now m token ≡ accepted now m.revoke (signed P m.secret token)
  unfolding verify signed sign accepted
  verify-accepted now m token = elim (Option-cases (split_dot token)) [
    | inl e ↦ rw (verify, signed, e) refl
    | inr ((text, signature), e) ↦
        elim (Bool-cases (str_eq (P.encode_to_string (P.hmac m.secret text)) signature)) [
          | inl f ↦ rw (verify, signed, e, f) (read_claim-accepted now m text)
          | inr f ↦ rw (verify, signed, e, f) refl
        ]
  ]

  logout-verify-none :
      (now later : Time) (header token : String) (m : SessionManager)
      → strip "Bearer " header ≡ some token
      → now ≤ later
      → verify P later (logout P now header m) token ≡ none
  unfolding logout revoke_id
  logout-verify-none now later header token m e le = elim (Option-cases (verify P now m token)) [
    | inl f ↦
        rw (logout, e, f, verify-accepted later m token)
          (accepted-later now later m.revoke (signed P m.secret token) le
            (sym (verify-accepted now m token) ∙ f))
    | inr (c, f) ↦
        let known =
          accepted-some now m.revoke (signed P m.secret token) c
            (sym (verify-accepted now m token) ∙ f) in
        rw (logout, e, f, verify-accepted later (revoke_id c.id now m) token, known)
          (accepted-insert_own now later m.revoke c)
  ]

  logout-kept :
      (later at : Time) (header token : String) (m : SessionManager)
      → verify P later m token ≡ none
      → verify P later (logout P at header m) token ≡ none
  unfolding logout revoke_id
  logout-kept later at header token m h = elim (Option-cases (strip "Bearer " header)) [
    | inl e ↦ rw (logout, e) h
    | inr (own, e) ↦ elim (Option-cases (verify P at m own)) [
      | inl f ↦ rw (logout, e, f) h
      | inr (c, f) ↦
          rw (logout, e, f, verify-accepted later (revoke_id c.id at m) token)
            (accepted-insert later at c.id m.revoke (signed P m.secret token)
              (sym (verify-accepted later m token) ∙ h))
    ]
  ]

  log_out_all-kept :
      (later : Time) (token : String) (rest : List (Time × String)) (m : SessionManager)
      → verify P later m token ≡ none
      → verify P later (log_out_all P rest m) token ≡ none
  unfolding log_out_all
  log_out_all-kept later token [] m h = h
  log_out_all-kept later token ((at, header) ∷ rest) m h =
      log_out_all-kept later token rest (logout P at header m)
        (logout-kept later at header token m h)

  -- A session ends with its logout. The token of a logout's header is refused from then on, whatever
  -- it is and whatever logouts of this token or of others follow.
  pub logout-refused :
      (now later : Time) (header token : String) (rest : List (Time × String)) (m : SessionManager)
      → strip "Bearer " header ≡ some token
      → now ≤ later
      → verify P later (log_out_all P rest (logout P now header m)) token ≡ none
  logout-refused now later header token rest m e le =
      log_out_all-kept later token rest (logout P now header m)
        (logout-verify-none now later header token m e le)
