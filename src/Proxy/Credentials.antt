-- ===== src/Proxy/Credentials.antt =====
-- Whose credentials go to a backend.
use llmgateway.Prelude.{
  ◌≡◌, ◌≢◌, ◌⊎◌, ◌||◌, any, arith, inl, inr, refl, sym, ap, ◌∙◌, Bool, true, false, not, List, [],
  ◌∷◌, Option, none, some, String, str_eq, str_eq_self, str_append, All, eq_iff, Bool-cases,
  if◌then◌else◌,
}
use llmgateway.Prelude.Bytes.{bytes}
use llmgateway.Store.Pattern.{bytes_eq}
use llmgateway.Store.Search.{bytes_eq_iff}
use llmgateway.Prelude.Dict.{lookup, lookup-insert, lookup-delete}
use llmgateway.Proxy.{
  Header, HttpPackage, to_lower, hop_by_hop, drop_forward, is_listed, set_header, del_header,
  get_header, copy_forward_headers, put_credentials, default_header, upstream_headers,
}
use llmgateway.Proxy.Headers.{All-mono, is_listed-to_lower, IsSafe, upstream_headers-IsSafe}

-- Headers of one connection (RFC 9110 and its forerunners, with the host and the length of the body).
abbrev pub of_connection : List String
of_connection =
    "connection" ∷ "proxy-connection" ∷ "keep-alive" ∷ "proxy-authenticate" ∷ "proxy-authorization"
    ∷ "te" ∷ "trailer" ∷ "transfer-encoding" ∷ "upgrade" ∷ "host" ∷ "content-length" ∷ []

-- The name of a header, in lower case, is another one.
abbrev pub IsNamedOther : String → String → Type 0
IsNamedOther k name = to_lower k ≢ bytes name

-- A header that may go upstream, with the backend's key: no header of a connection, no cookie, no
-- X-Api-Key; and Authorization only with the backend's key, if it has one.
pub record MayGo (api_key : String) (h : String × List String) : Type 0 where
  pub no_connection : All (IsNamedOther h.0) of_connection
  pub no_api_key : IsNamedOther h.0 "x-api-key"
  pub no_cookie : IsNamedOther h.0 "cookie"
  pub own :
      IsNamedOther h.0 "authorization"
      ⊎ ((api_key ≢ "") × (h.1 ≡ str_append "Bearer " api_key ∷ []))

-- A name that is not listed is none of the list.
is_listed-IsNamedOther :
    (names : List String) (k : String) → is_listed names k ≡ false → All (IsNamedOther k) names
unfolding is_listed any
is_listed-IsNamedOther [] k h = tt
is_listed-IsNamedOther (n ∷ names) k h = (
  λ e. let equal = (bytes_eq_iff (bytes n) (to_lower k)).1 (sym e) in ground (arith, equal, h),
  is_listed-IsNamedOther names k (ground (arith, h)),
)

or-false : (b c : Bool) → (b || c) ≡ false → (b ≡ false) × (c ≡ false)
or-false true c h = cc
or-false false c h = (refl, h)

IsSafe-MayGo : (api_key : String) (h : String × List String) → IsSafe api_key h → MayGo api_key h
unfolding is_listed any to_lower bytes bytes_eq
IsSafe-MayGo api_key h (inl plain) =
    let (c, d) = or-false (is_listed hop_by_hop h.0) (is_listed drop_forward h.0) plain in
    let (authorization, (key, (cookie, nothing))) = is_listed-IsNamedOther drop_forward h.0 d in
    record {
      no_connection = is_listed-IsNamedOther hop_by_hop h.0 c;
      no_api_key = key;
      no_cookie = cookie;
      own = inl authorization;
    }
IsSafe-MayGo api_key h (inr (name, own)) =
    let others : List String = "x-api-key" ∷ "cookie" ∷ [] in
    let (key, (cookie, nothing)) =
      is_listed-IsNamedOther others h.0
        (is_listed-to_lower others h.0 "Authorization" name ∙ refl) in
    record {
      no_connection =
          is_listed-IsNamedOther hop_by_hop h.0
            (is_listed-to_lower hop_by_hop h.0 "Authorization" name ∙ refl);
      no_api_key = key;
      no_cookie = cookie;
      own = inr own;
    }

module _ (P : HttpPackage) (same : (k : String) → to_lower (P.canonical k) ≡ to_lower k) where
  -- The value of the header with the credentials.
  abbrev credentials : Header → Option (List String)
  credentials h = lookup (P.canonical "Authorization") h

  credentials-set_header :
      (k v : String) (h : Header)
      → bytes_eq (to_lower k) (to_lower "Authorization") ≡ false
      → credentials (set_header P k v h) ≡ credentials h
  unfolding set_header
  credentials-set_header k v h other =
      let apart : str_eq (P.canonical k) (P.canonical "Authorization") ≡ false =
        elim (Bool-cases (str_eq (P.canonical k) (P.canonical "Authorization"))) [
          | inr e ↦ e
          | inl e ↦
              let both : to_lower k ≡ to_lower "Authorization" =
                sym (same k)
                ∙ (ap to_lower ((eq_iff (P.canonical k) (P.canonical "Authorization")).0 e)
                    ∙ same "Authorization") in
              let equal =
                (bytes_eq_iff (to_lower "Authorization") (to_lower "Authorization")).1 refl in
              let clash : true ≡ false =
                sym equal ∙ (ap (λ x. bytes_eq x (to_lower "Authorization")) (sym both) ∙ other) in
              cc
        ] in
      lookup-insert (P.canonical k) (P.canonical "Authorization") (v ∷ []) h ∙ rw apart refl

  credentials-default_header :
      (k v : String) (h : Header)
      → bytes_eq (to_lower k) (to_lower "Authorization") ≡ false
      → credentials (default_header P k v h) ≡ credentials h
  unfolding default_header
  credentials-default_header k v h other = elim (Bool-cases (str_eq (get_header P k h) "")) [
    | inl e ↦ rw (default_header, e) (credentials-set_header k v h other)
    | inr e ↦ rw (default_header, e) refl
  ]

  credentials-put_credentials :
      (api_key : String) (h : Header)
      → credentials (put_credentials P api_key h)
        ≡ (if str_eq api_key "" then none else some (str_append "Bearer " api_key ∷ []))
  unfolding put_credentials set_header del_header
  credentials-put_credentials api_key h =
      let name = P.canonical "Authorization" in
      elim (Bool-cases (str_eq api_key "")) [
        | inl e ↦ rw (put_credentials, e) (lookup-delete name name h ∙ rw (str_eq_self name) refl)
        | inr e ↦
            rw (put_credentials, e)
              (lookup-insert name name (str_append "Bearer " api_key ∷ []) h
                ∙ rw (str_eq_self name) refl)
      ]

  if-credentials :
      (b : Bool) (g h k : Header)
      → credentials g ≡ credentials k
      → credentials h ≡ credentials k
      → credentials (if b then g else h) ≡ credentials k
  if-credentials true g h k p q = p
  if-credentials false g h k p q = q

  credentials-upstream_headers :
      (api_key content_type : String) (is_stream : Bool) (src : Header)
      → credentials (upstream_headers P api_key content_type is_stream src)
        ≡ (if str_eq api_key "" then none else some (str_append "Bearer " api_key ∷ []))
  unfolding upstream_headers to_lower bytes
  credentials-upstream_headers api_key content_type is_stream src =
      let copied = copy_forward_headers P [] src in
      let own = put_credentials P api_key copied in
      let typed =
        if not (str_eq content_type "")
        then set_header P "Content-Type" content_type own
        else default_header P "Content-Type" "application/json" own in
      let plain = set_header P "Accept-Encoding" "identity" typed in
      let kept : credentials (upstream_headers P api_key content_type is_stream src)
          ≡ credentials plain =
        if-credentials is_stream _ _ plain
          (credentials-set_header "Accept" "text/event-stream" plain refl)
          (credentials-default_header "Accept" "application/json" plain refl) in
      let same_type : credentials typed ≡ credentials own =
        if-credentials (not (str_eq content_type "")) _ _ own
          (credentials-set_header "Content-Type" content_type own refl)
          (credentials-default_header "Content-Type" "application/json" own refl) in
      kept
      ∙ (credentials-set_header "Accept-Encoding" "identity" typed refl
          ∙ (same_type ∙ credentials-put_credentials api_key copied))

  -- Which headers go upstream. Whatever headers the client sends, none of the request to the
  -- backend is X-Api-Key, Cookie or a header of the client's connection, in any capitals; and one
  -- that is Authorization has the key of the backend, which has one. Where the backend has a key,
  -- Authorization is there with it, and where it has none, there is no Authorization. The canonical form
  -- of a name changes nothing but its capitals. A header that carries the client's key under another
  -- name, which the configuration allows, is not covered.
  pub upstream_headers-authorization :
      (api_key content_type : String) (is_stream : Bool) (src : Header)
      → All (MayGo api_key) (upstream_headers P api_key content_type is_stream src)
        × (lookup
              (P.canonical "Authorization")
              (upstream_headers P api_key content_type is_stream src)
            ≡ (if str_eq api_key "" then none else some (str_append "Bearer " api_key ∷ [])))
  upstream_headers-authorization api_key content_type is_stream src = (
    All-mono (IsSafe api_key) (MayGo api_key)
        (upstream_headers P api_key content_type is_stream src) (IsSafe-MayGo api_key)
        (upstream_headers-IsSafe P same api_key content_type is_stream src),
    credentials-upstream_headers api_key content_type is_stream src,
  )
