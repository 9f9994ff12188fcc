-- ===== src/Proxy/Headers.antt =====
-- The headers that are copied to a backend, and what is added to them.
use llmgateway.Prelude.{
  ◌≡◌, ◌≢◌, ◌⊎◌, inl, inr, refl, ap, Bool, true, false, not, ◌||◌, List, [], ◌∷◌, ◌++◌, none, some,
  String, str_eq, str_append, All, any, ne_str_eq, Bool-cases, if◌then◌else◌,
}
use llmgateway.Prelude.Bytes.{bytes}
use llmgateway.Store.Pattern.{bytes_eq}
use llmgateway.Prelude.Dict.{lookup, insert-All, delete-All}
use llmgateway.Proxy.{
  Header, HttpPackage, to_lower, hop_by_hop, drop_forward, is_listed, set_header, add_header,
  del_header, get_header, add_values, copy_forward_headers, put_credentials, default_header,
  upstream_headers,
}

-- A header that may be copied from the client.
abbrev pub HasPlainName : String → Type 0
HasPlainName k = (is_listed hop_by_hop k || is_listed drop_forward k) ≡ false

abbrev pub IsPlain : String × List String → Type 0
IsPlain h = HasPlainName h.0

-- A header of the upstream request: one that may be copied, or the key of the backend.
abbrev pub IsSafe : String → String × List String → Type 0
IsSafe api_key h =
    IsPlain h
    ⊎ ((to_lower h.0 ≡ to_lower "Authorization")
        × ((api_key ≢ "") × (h.1 ≡ str_append "Bearer " api_key ∷ [])))

pub All-mono {κ} :
    {A : Type 0} (P Q : A → Type κ) (xs : List A) → ((x : A) → P x → Q x) → All P xs → All Q xs
All-mono P Q [] f h = tt
All-mono P Q (x ∷ xs) f (here, later) = (f x here, All-mono P Q xs f later)

pub is_listed-to_lower :
    (names : List String) (j k : String)
    → to_lower j ≡ to_lower k
    → is_listed names j ≡ is_listed names k
unfolding is_listed
is_listed-to_lower names j k e = ap (λ x. any (λ n. bytes_eq (bytes n) x) names) e

module _ (P : HttpPackage) (same : (k : String) → to_lower (P.canonical k) ≡ to_lower k) where
  canonical-HasPlainName : (k : String) → HasPlainName k → HasPlainName (P.canonical k)
  canonical-HasPlainName k h =
      rw
        (
          is_listed-to_lower hop_by_hop (P.canonical k) k (same k),
          is_listed-to_lower drop_forward (P.canonical k) k (same k),
        )
        h

  add_values-IsPlain :
      (k : String) (vs : List String) (h : Header)
      → HasPlainName k
      → All IsPlain h
      → All IsPlain (add_values P k vs h)
  unfolding add_values add_header
  add_values-IsPlain k [] h p safe = safe
  add_values-IsPlain k (v ∷ vs) h p safe = add_values-IsPlain k vs (add_header P k v h) p (
      insert-All IsPlain (P.canonical k)
        (elim (lookup (P.canonical k) h) [ none ↦ v ∷ [] | some vs ↦ vs ++ v ∷ [] ]) h
        (canonical-HasPlainName k p) safe)

  copy_forward_headers-IsPlain :
      (dst src : Header) → All IsPlain dst → All IsPlain (copy_forward_headers P dst src)
  unfolding copy_forward_headers
  copy_forward_headers-IsPlain dst [] h = h
  copy_forward_headers-IsPlain dst ((k, vs) ∷ src) h =
      elim (Bool-cases (is_listed hop_by_hop k || is_listed drop_forward k)) [
        | inl e ↦ rw (copy_forward_headers, e) (copy_forward_headers-IsPlain dst src h)
        | inr e ↦
            rw (copy_forward_headers, e)
              (copy_forward_headers-IsPlain (add_values P k vs dst) src
                (add_values-IsPlain k vs dst e h))
      ]

  set_header-IsSafe :
      (api_key k v : String) (h : Header)
      → HasPlainName k
      → All (IsSafe api_key) h
      → All (IsSafe api_key) (set_header P k v h)
  unfolding set_header
  set_header-IsSafe api_key k v h p safe =
      insert-All (IsSafe api_key) (P.canonical k) (v ∷ []) h (inl (canonical-HasPlainName k p)) safe

  default_header-IsSafe :
      (api_key k v : String) (h : Header)
      → HasPlainName k
      → All (IsSafe api_key) h
      → All (IsSafe api_key) (default_header P k v h)
  unfolding default_header
  default_header-IsSafe api_key k v h p safe = elim (Bool-cases (str_eq (get_header P k h) "")) [
    | inl e ↦ rw (default_header, e) (set_header-IsSafe api_key k v h p safe)
    | inr e ↦ rw (default_header, e) safe
  ]

  put_credentials-IsSafe :
      (api_key : String) (h : Header)
      → All IsPlain h
      → All (IsSafe api_key) (put_credentials P api_key h)
  unfolding put_credentials set_header del_header
  put_credentials-IsSafe api_key h plain =
      let safe = All-mono IsPlain (IsSafe api_key) h (λ x p. inl p) plain in
      elim (Bool-cases (str_eq api_key "")) [
        | inl e ↦
            rw (put_credentials, e)
              (delete-All (IsSafe api_key) (P.canonical "Authorization") h safe)
        | inr e ↦
            rw (put_credentials, e)
              (insert-All (IsSafe api_key) (P.canonical "Authorization")
                (str_append "Bearer " api_key ∷ []) h
                (inr (same "Authorization", (ne_str_eq api_key "" e, refl))) safe)
      ]

  if-IsSafe :
      (b : Bool) (api_key : String) (g h : Header)
      → All (IsSafe api_key) g
      → All (IsSafe api_key) h
      → All (IsSafe api_key) (if b then g else h)
  if-IsSafe true api_key g h p q = p
  if-IsSafe false api_key g h p q = q

  pub upstream_headers-IsSafe :
      (api_key content_type : String) (is_stream : Bool) (src : Header)
      → All (IsSafe api_key) (upstream_headers P api_key content_type is_stream src)
  unfolding upstream_headers bytes
  upstream_headers-IsSafe api_key content_type is_stream src =
      let copied = copy_forward_headers P [] src in
      let own = put_credentials P api_key copied in
      let s0 = put_credentials-IsSafe api_key copied (copy_forward_headers-IsPlain [] src tt) in
      let typed =
        if not (str_eq content_type "")
        then set_header P "Content-Type" content_type own
        else default_header P "Content-Type" "application/json" own in
      let s1 =
        if-IsSafe (not (str_eq content_type "")) api_key _ _
          (set_header-IsSafe api_key "Content-Type" content_type own refl s0)
          (default_header-IsSafe api_key "Content-Type" "application/json" own refl s0) in
      let s2 = set_header-IsSafe api_key "Accept-Encoding" "identity" typed refl s1 in
      if-IsSafe is_stream api_key _ _
        (set_header-IsSafe api_key "Accept" "text/event-stream" _ refl s2)
        (default_header-IsSafe api_key "Accept" "application/json" _ refl s2)
