-- ===== src/Store/Catalog.antt =====
-- `Store` of internal/store/store.go: the catalog of backends, models, aliases and API keys. The
-- store's mutex makes each method one step. An API key is reached by its id and by its hash, and
-- both maps hold the same pointer: a pointer is a number, and `heap` holds the key behind it. The
-- HMAC of `HashKey` is an argument.
use Prim.Native.Char.{code}
use Prim.Native.String.{len, slice}
use llmgateway.Prelude.{
  ℕ, suc, zero, ◌==◌, Bool, false, ◌&&◌, List, [], ◌∷◌, Option, none, some, String, str_eq, any,
  keep_if, leb, if◌then◌else◌,
}
use llmgateway.Prelude.Dict.{Dict, lookup, insert, delete, values}
use llmgateway.Prelude.Int.{ℤ, pos, ltb_ℤ}
use llmgateway.Store.Backend.{Backend, supports_model}
use llmgateway.Store.Keys.{ApiKey}

pub record Model : Type 0 where
  pub name : String
  pub type : String
  pub enabled : Bool
  pub context_length : ℤ
  pub capability_mode : String
  pub capabilities : Dict Bool
  pub routing_policy : String

pub record ModelAlias : Type 0 where
  pub alias : String
  pub internal_model : String
  pub forwarding_mode : String
  pub enabled : Bool

abbrev pub Pointer : Type 0
Pointer = ℕ

pub record Store : Type 0 where
  pub backends : Dict Backend
  pub models : Dict Model
  pub model_aliases : Dict ModelAlias
  pub api_keys : Dict Pointer
  pub key_by_hash : Dict Pointer
  pub heap : Pointer → ApiKey

-- `strings.TrimRight(s, "/")`
unfoldable pub trim_right : String → String
trim_right String.[] = ""
trim_right (String.◌∷◌ c s) =
    let rest = trim_right s in if code c == b'/' && str_eq rest "" then "" else String.◌∷◌ c rest

unfoldable pub upsert_backend : Backend → Store → Store
unfolding trim_right
upsert_backend b s =
    let b' = record b {
      weight = if ltb_ℤ b.weight (pos 0) then pos 1 else b.weight;
      base_url = trim_right b.base_url;
    } in
    record s { backends = insert b.id b' s.backends }

unfoldable pub delete_backend : String → Store → Store
delete_backend id s = record s { backends = delete id s.backends }

-- `Backend(id)`; `none` is `ErrNotFound`.
unfoldable pub backend : String → Store → Option Backend
backend id s = lookup id s.backends

unfoldable pub backends_for_model : String → Store → List Backend
backends_for_model model s = keep_if (supports_model model) (values s.backends)

unfoldable pub model : String → Store → Option Model
model name s = lookup name s.models

unfoldable pub upsert_model : Model → Store → Store
upsert_model m s = record s { models = insert m.name m s.models }

unfoldable pub delete_model : String → Store → Store
delete_model name s = record s { models = delete name s.models }

unfoldable pub upsert_model_alias : ModelAlias → Store → Store
upsert_model_alias a s =
    let a' = record a {
      forwarding_mode = if str_eq a.forwarding_mode "" then "use_internal" else a.forwarding_mode;
    } in
    record s { model_aliases = insert a.alias a' s.model_aliases }

unfoldable pub delete_model_alias : String → Store → Store
delete_model_alias alias s = record s { model_aliases = delete alias s.model_aliases }

-- The alias that a hop follows: present and enabled.
unfoldable pub live_alias : String → Store → Option ModelAlias
live_alias name s = elim (lookup name s.model_aliases) [
  | none ↦ none
  | some a ↦ if a.enabled then some a else none
]

-- The loop of `ResolveAlias` over the hops left, with `seen` and `current`.
unfoldable pub hops : ℕ → List String → String → Store → String
hops zero seen current s = current
hops (suc n) seen current s = elim (live_alias current s) [
  | none ↦ current
  | some a ↦
      let next = hops n (current ∷ seen) a.internal_model s in
      if any (λ x. str_eq x current) seen then current else next
]

-- `keepExternal`: what the first round of the loop reads.
unfoldable pub keep_external : String → Store → Bool
keep_external name s = elim (live_alias name s) [
  | none ↦ false
  | some a ↦ str_eq a.forwarding_mode "keep_external"
]

abbrev pub max_alias_hops : ℕ
max_alias_hops = 8

-- `ResolveAlias(name)`: the internal model, and the name that is sent upstream.
unfoldable pub resolve_alias : String → Store → String × String
resolve_alias name s =
    let current = hops max_alias_hops [] name s in
    if keep_external name s then (current, name) else (current, current)

unfoldable pub write : Pointer → ApiKey → (Pointer → ApiKey) → Pointer → ApiKey
write p k heap q = if q == p then k else heap q

module _ (hash_key : String → String) where
  unfoldable pub api_key_by_raw : String → Store → Option Pointer
  api_key_by_raw raw s = lookup (hash_key raw) s.key_by_hash

  -- The fields that `UpsertAPIKey` writes: hash and prefix of a raw key, and the id. The source counts
  -- bytes for the prefix, which are the characters of an ASCII key, such as `generateAPIKey` makes.
  unfoldable pub stamped : ApiKey → String → ApiKey
  stamped k raw =
      let hashed = if str_eq raw "" then k else record k {
        key_hash = hash_key raw;
        key_prefix =
            if str_eq k.key_prefix "" && leb 8 (len raw) then slice raw 0 8 else k.key_prefix;
      } in
      if str_eq hashed.id "" then record hashed { id = hashed.key_prefix } else hashed

  -- `UpsertAPIKey(k, rawKey)` at a pointer.
  unfoldable pub upsert_api_key : Pointer → String → Store → Store
  unfolding stamped
  upsert_api_key p raw s =
      let k = stamped (s.heap p) raw in
      record s {
        heap = write p k s.heap;
        api_keys = insert k.id p s.api_keys;
        key_by_hash =
            if str_eq k.key_hash "" then s.key_by_hash else insert k.key_hash p s.key_by_hash;
      }

unfoldable pub delete_api_key : String → Store → Store
delete_api_key id s = record s {
  api_keys = delete id s.api_keys;
  key_by_hash = elim (lookup id s.api_keys) [
    | none ↦ s.key_by_hash
    | some p ↦ delete (s.heap p).key_hash s.key_by_hash
  ];
}

-- `rotateAPIKey` of internal/admin/admin_keys.go behind its checks, for the key at a pointer and
-- the raw text of the body or the generator.
unfoldable pub rotate_api_key : (String → String) → Pointer → String → Store → Store
rotate_api_key hash_key p raw s =
    let dropped = delete_api_key (s.heap p).id s in
    let cleared = record (dropped.heap p) { key_prefix = ""; key_hash = "" } in
    upsert_api_key hash_key p raw (record dropped { heap = write p cleared dropped.heap })
