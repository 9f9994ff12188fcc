-- ===== src/Auth.antt =====
-- internal/auth/middleware.go: which key a request is made with. The store is read and not changed;
-- a key is its pointer. The hash of keys and package net are arguments.
pub mod Authentic
mod Tests
use Prim.Native.Char.{code}
use llmgateway.Prelude.{
  ℕ, ◌==◌, Bool, true, false, not, ◌&&◌, List, [], ◌∷◌, Option, none, some, String, str_eq, ltb,
  if◌then◌else◌,
}
use llmgateway.Time.{Time}
use llmgateway.NetUtil
use llmgateway.NetUtil.{NetPackage, Extractor, trim_space, client_ip, match_any}
use llmgateway.Store.Keys.{ApiKey, is_empty}
use llmgateway.Store.Catalog.{Store, Pointer, api_key_by_raw}

-- `strings.HasPrefix(s, prefix)`, with what `strings.TrimPrefix` leaves.
unfoldable pub strip : String → String → Option String
strip String.[] s = some s
strip (String.◌∷◌ c p) String.[] = none
strip (String.◌∷◌ c p) (String.◌∷◌ d s) =
    let rest = strip p s in if code c == code d then rest else none

-- The prefix that `New(s, header, prefix)` sets. The header is read by its caller.
unfoldable pub prefix_or_default : String → String
prefix_or_default prefix = if str_eq prefix "" then "Bearer " else prefix

-- `extractKey(r)` on the value of the header, with `none` for a wrong prefix.
unfoldable pub extract_key : String → String → Option String
unfolding strip
extract_key prefix raw =
    if str_eq raw ""
    then some ""
    else if str_eq prefix ""
    then some (trim_space raw)
    else elim (strip prefix raw) [ none ↦ none | some rest ↦ some (trim_space rest) ]

-- The code of a rejection.
pub data AuthCode : Type 0 where
  invalid_api_key client_ip_not_allowed : AuthCode

-- The request goes on, with the key in its context or, on a path that needs none, without; or the
-- middleware writes a status and a code. A rejection is logged with the key, if it was found.
pub data Passage : Type 0 where
  unguarded : Passage
  authenticated : Pointer → Passage
  rejected : ℕ → AuthCode → Option Pointer → Passage

-- The request as the middleware reads it: the header of the key, and the addresses.
pub record Incoming : Type 0 where
  pub key_header : String
  pub addresses : NetUtil.Request
  pub needs_key : Bool

-- `clientIP`, which is empty without an extractor.
unfoldable pub client_address : (N : NetPackage) → Option (Extractor N) → Incoming → String
client_address N none r = ""
client_address N (some e) r = client_ip N e r.addresses

module _ (N : NetPackage) (hash_key : String → String) (now : Time) where
  -- The checks on a key that was found.
  unfoldable pub check_key : String → Pointer → ApiKey → Passage
  check_key ip p k =
      if not k.enabled
      then rejected 401 invalid_api_key (some p)
      else if not (k.expires_at == 0) && ltb k.expires_at now
      then rejected 401 invalid_api_key (some p)
      else if not (is_empty k.denied_client_ips) && match_any N ip k.denied_client_ips
      then rejected 403 client_ip_not_allowed (some p)
      else if not (is_empty k.allowed_client_ips) && not (match_any N ip k.allowed_client_ips)
      then rejected 403 client_ip_not_allowed (some p)
      else authenticated p

  unfoldable pub find_key : String → String → Store → Passage
  unfolding check_key
  find_key ip raw s =
      if str_eq raw ""
      then rejected 401 invalid_api_key none
      else elim (api_key_by_raw hash_key raw s) [
        | none ↦ rejected 401 invalid_api_key none
        | some p ↦ check_key ip p (s.heap p)
      ]

  -- `Middleware(matcher)` for one request.
  unfoldable pub middleware : Option (Extractor N) → String → Incoming → Store → Passage
  unfolding client_address find_key
  middleware extractor prefix r s =
      if not r.needs_key then unguarded else elim (extract_key prefix r.key_header) [
        | none ↦ rejected 401 invalid_api_key none
        | some raw ↦ find_key (client_address N extractor r) raw s
      ]
