-- ===== src/Proxy.antt =====
-- internal/proxy: the errors that are written (errors.go), the headers that go upstream and come
-- back, and `Forward` with `passResponse` (proxy.go). A header is a map from names to values. What
-- the connection comes to is an argument.
pub mod Stream
pub mod Forward
pub mod Headers
pub mod Credentials
pub mod Lines
pub mod Passthrough
pub mod Unmodified
mod Tests
use llmgateway.Prelude.{
  ℕ, ◌+◌, Bool, true, false, not, ◌&&◌, ◌||◌, List, [], ◌∷◌, ◌++◌, map, Option, none, some, String,
  str_eq, str_append, any, leb, length, if◌then◌else◌,
}
use llmgateway.Prelude.Bytes.{bytes}
use llmgateway.Prelude.Dict.{Dict, lookup, insert, delete}
use llmgateway.Prelude.Int.{ℤ, pos, is_pos, leb_ℤ, ltb_ℤ}
use llmgateway.Store.Pattern.{bytes_eq}
use llmgateway.Handlers.Usage.{Usage}

pub record ApiError : Type 0 where
  pub message : String
  pub type : String
  pub code : String
  pub param : String

-- `InvalidRequest(msg, code)`, `Unauthorized`, `PermissionError`, `NotFound`, `RateLimit`,
-- `BackendUnavailable` and `InternalError` give an error with this type.
unfoldable pub api_error : String → String → String → ApiError
api_error type msg code = record { message = msg; type = type; code = code; param = "" }

unfoldable pub internal_error : String → String → ApiError
unfolding api_error
internal_error msg code = api_error "internal_error" msg code

-- `http.Header`
abbrev pub Header : Type 0
Header = Dict (List String)

-- Packages net/http and encoding/json: the canonical form of a header's name, the body of an error,
-- the usage block of a body, if it can be decoded and has one, and the decimal of a length.
pub record HttpPackage : Type 0 where
  pub canonical : String → String
  pub encode_error : ApiError → List ℕ
  pub decode_usage : List ℕ → Option Usage
  pub itoa : ℕ → String

-- `strings.ToLower` on the name of a header, which is ASCII.
unfoldable pub to_lower : String → List ℕ
to_lower s = map (λ c. if leb b'A' c && leb c b'Z' then c + 32 else c) (bytes s)

-- The keys of `hopByHop` and of `dropForward`.
abbrev pub hop_by_hop : List String
hop_by_hop =
    "connection" ∷ "proxy-connection" ∷ "keep-alive" ∷ "proxy-authenticate" ∷ "proxy-authorization"
    ∷ "te" ∷ "trailer" ∷ "transfer-encoding" ∷ "upgrade" ∷ "host" ∷ "content-length" ∷ []

abbrev pub drop_forward : List String
drop_forward = "authorization" ∷ "x-api-key" ∷ "cookie" ∷ []

-- The name, in lower case, is one of these.
unfoldable pub is_listed : List String → String → Bool
unfolding any bytes_eq to_lower
is_listed names k = any (λ n. bytes_eq (bytes n) (to_lower k)) names

module _ (P : HttpPackage) where
  -- `h.Set(k, v)`, `h.Add(k, v)`, `h.Del(k)` and `h.Get(k)`.
  unfoldable pub set_header : String → String → Header → Header
  set_header k v h = insert (P.canonical k) (v ∷ []) h

  unfoldable pub add_header : String → String → Header → Header
  add_header k v h =
      insert (P.canonical k)
        (elim (lookup (P.canonical k) h) [ none ↦ v ∷ [] | some vs ↦ vs ++ v ∷ [] ]) h

  unfoldable pub del_header : String → Header → Header
  del_header k h = delete (P.canonical k) h

  unfoldable pub get_header : String → Header → String
  get_header k h = elim (lookup (P.canonical k) h) [
    | none ↦ ""
    | some vs ↦ elim vs [ [] ↦ "" | v ∷ rest ↦ v ]
  ]

  unfoldable pub add_values : String → List String → Header → Header
  unfolding add_header
  add_values k [] h = h
  add_values k (v ∷ vs) h = add_values k vs (add_header k v h)

  -- `copyForwardHeaders(dst, src)`
  unfoldable pub copy_forward_headers : Header → Header → Header
  unfolding is_listed add_values
  copy_forward_headers dst [] = dst
  copy_forward_headers dst ((k, vs) ∷ src) =
      copy_forward_headers
        (if is_listed hop_by_hop k || is_listed drop_forward k then dst else add_values k vs dst)
        src

  -- `copyResponseHeaders(dst, src)`
  unfoldable pub copy_response_headers : Header → Header → Header
  unfolding is_listed add_values
  copy_response_headers dst [] = dst
  copy_response_headers dst ((k, vs) ∷ src) =
      copy_response_headers (if is_listed hop_by_hop k then dst else add_values k vs dst) src

  -- The backend's own key in place of the client's.
  unfoldable pub put_credentials : String → Header → Header
  unfolding set_header del_header
  put_credentials api_key h =
      if not (str_eq api_key "")
      then set_header "Authorization" (str_append "Bearer " api_key) h
      else del_header "Authorization" h

  -- A header that is set if it is empty.
  unfoldable pub default_header : String → String → Header → Header
  unfolding get_header set_header
  default_header k v h = if str_eq (get_header k h) "" then set_header k v h else h

  -- The headers of the upstream request: of the client's, with the key of the backend, a content
  -- type in place of the client's, and for a stream or not.
  unfoldable pub upstream_headers : String → String → Bool → Header → Header
  unfolding copy_forward_headers put_credentials default_header set_header
  upstream_headers api_key content_type is_stream src =
      let own = put_credentials api_key (copy_forward_headers [] src) in
      let typed =
        if not (str_eq content_type "")
        then set_header "Content-Type" content_type own
        else default_header "Content-Type" "application/json" own in
      let plain = set_header "Accept-Encoding" "identity" typed in
      if is_stream
      then set_header "Accept" "text/event-stream" plain
      else default_header "Accept" "application/json" plain

  -- `Forward`: the milliseconds after which a request that is no stream times out.
  unfoldable pub timeout_of : ℤ → ℤ → ℤ
  timeout_of asked of_backend =
      if is_pos asked then asked else if is_pos of_backend then of_backend else pos 120_000
