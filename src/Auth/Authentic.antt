-- ===== src/Auth/Authentic.antt =====
-- Which requests get past the middleware.
use llmgateway.Prelude.{
  ◌≡◌, ◌≢◌, ◌≤◌, ◌⊎◌, ◌↔◌, inl, inr, refl, sym, ap, ◌∙◌, true, false, [], Option, some, String,
  str_eq, arith, eq_iff, ne_str_eq, Bool-cases, Option-cases,
}
use mathlib.Core.Path.{subst}
use llmgateway.Time.{Time}
use llmgateway.NetUtil.{NetPackage, Extractor, match_any}
use llmgateway.Store.Keys.{ApiKey, is_empty}
use llmgateway.Store.Catalog.{Store, Pointer, api_key_by_raw}
use llmgateway.Auth.{
  extract_key, authenticated, Incoming, client_address, check_key, find_key, middleware,
}

module _ (N : NetPackage) (hash_key : String → String) (now : Time) where
  -- The key may be used now, from this address.
  pub record IsUsable (ip : String) (k : ApiKey) : Type 0 where
    pub enabled : k.enabled ≡ true
    pub fresh : (k.expires_at ≡ 0) ⊎ (now ≤ k.expires_at)
    pub not_denied : (k.denied_client_ips ≡ []) ⊎ (match_any N ip k.denied_client_ips ≡ false)
    pub allowed : (k.allowed_client_ips ≡ []) ⊎ (match_any N ip k.allowed_client_ips ≡ true)

  -- The key of the header stands in the store and may be used.
  pub record Authentic (extractor : Option (Extractor N)) (prefix : String) (r : Incoming)
      (s : Store) (p : Pointer) : Type 0 where
    pub raw : String
    pub given : extract_key prefix r.key_header ≡ some raw
    pub not_blank : raw ≢ ""
    pub known : api_key_by_raw hash_key raw s ≡ some p
    pub usable : IsUsable (client_address N extractor r) (s.heap p)

  check_key-IsUsable :
      (ip : String) (p q : Pointer) (k : ApiKey)
      → (check_key N hash_key now ip p k ≡ authenticated q) ↔ ((p ≡ q) × IsUsable ip k)
  unfolding check_key is_empty
  check_key-IsUsable ip p q k = (
    λ h. (
      ground (arith, h),
      record {
        enabled = ground (arith, h);
        fresh = ground (arith, h);
        not_denied = ground (arith, h);
        allowed = ground (arith, h);
      },
    ),
    λ (e, v). ground (arith, e, v),
  )

  find_key-Known :
      (ip raw : String) (s : Store) (p : Pointer)
      → (find_key N hash_key now ip raw s ≡ authenticated p)
        ↔ ((raw ≢ "") × ((api_key_by_raw hash_key raw s ≡ some p) × IsUsable ip (s.heap p)))
  unfolding find_key
  find_key-Known ip raw s p = elim (Bool-cases (str_eq raw "")) [
    | inl e ↦ (λ h. cc, λ (n, v). absurd (n ((eq_iff raw "").0 e)))
    | inr e ↦ elim (Option-cases (api_key_by_raw hash_key raw s)) [
      | inl f ↦ (λ h. cc, λ (n, v). cc)
      | inr (q, f) ↦
          let run : find_key N hash_key now ip raw s ≡ check_key N hash_key now ip q (s.heap q) =
            rw (find_key, e, f) refl in
          let iff = check_key-IsUsable ip q p (s.heap q) in
          (
            λ h.
                let (same, usable) = iff.0 (sym run ∙ h) in
                (
                  ne_str_eq raw "" e,
                  (f ∙ ap some same, subst (λ x. IsUsable ip (s.heap x)) same usable),
                ),
            λ (n, (known, usable)).
                let same : q ≡ p = cc in
                run ∙ iff.1 (same, subst (λ x. IsUsable ip (s.heap x)) (sym same) usable),
          )
    ]
  ]

  -- On a path that needs a key the middleware passes a request on exactly if the header has the
  -- prefix and a text behind it, the hash of that text is that of a key of the store, and the key
  -- is enabled, has not expired, and may be used from the client's address: this is not on the
  -- key's deny list, and it is on the allow list if there is one. The key in the request's context
  -- is then that key.
  pub middleware-Authentic :
      (extractor : Option (Extractor N)) (prefix : String) (r : Incoming) (s : Store) (p : Pointer)
      → r.needs_key ≡ true
      → (middleware N hash_key now extractor prefix r s ≡ authenticated p)
        ↔ Authentic extractor prefix r s p
  unfolding middleware
  middleware-Authentic extractor prefix r s p needs =
      elim (Option-cases (extract_key prefix r.key_header)) [
        | inl e ↦ (λ h. cc, λ v. let given = v.given in cc)
        | inr (raw, e) ↦
            let ip = client_address N extractor r in
            let run : middleware N hash_key now extractor prefix r s
                ≡ find_key N hash_key now ip raw s =
              rw (middleware, needs, e) refl in
            let iff = find_key-Known ip raw s p in
            (
              λ h.
                  let (n, (known, usable)) = iff.0 (sym run ∙ h) in
                  record { raw = raw; given = e; not_blank = n; known = known; usable = usable },
              λ v.
                  let given = v.given in
                  let same : v.raw ≡ raw = cc in
                  run
                  ∙ iff.1 (
                      subst
                        (λ x.
                          (x ≢ "")
                          × ((api_key_by_raw hash_key x s ≡ some p) × IsUsable ip (s.heap p)))
                        same (v.not_blank, (v.known, v.usable))),
            )
      ]
