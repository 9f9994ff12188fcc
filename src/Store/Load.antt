-- ===== src/Store/Load.antt =====
-- `LoadFromConfig` of internal/store/store.go. The keys of the configuration get pointers in their
-- order, from the first that is free.
use Prim.Native.String.{len, slice}
use llmgateway.Prelude.{
  suc, not, ◌&&◌, List, [], ◌∷◌, Option, none, some, String, str_eq, leb, if◌then◌else◌,
}
use llmgateway.Prelude.Dict.{insert}
use llmgateway.Prelude.Int.{pos, ltb_ℤ}
use llmgateway.Time.{Time}
use llmgateway.Config.Validate.{BackendConfig, ModelConfig, AliasConfig, ApiKeyConfig}
use llmgateway.Store.Backend.{Backend, unknown}
use llmgateway.Store.Keys.{ApiKey}
use llmgateway.Store.Catalog.{Store, Model, ModelAlias, Pointer, trim_right, write}

-- The backend of an entry. A negative weight is 1.
unfoldable pub backend_of : BackendConfig → Backend
unfolding trim_right
backend_of bc = record {
  id = bc.id;
  name = bc.name;
  base_url = trim_right bc.base_url;
  api_key = bc.api_key;
  enabled = bc.enabled;
  models = bc.models;
  weight = if ltb_ℤ bc.weight (pos 0) then pos 1 else bc.weight;
  max_concurrent_requests = bc.max_concurrent_requests;
  timeout_ms = bc.timeout_ms;
  stream_idle_timeout_ms = bc.stream_idle_timeout_ms;
  health_check = bc.health_check;
  tags = bc.tags;
  status = unknown;
  failure_streak = pos 0;
  success_streak = pos 0;
  active_requests = pos 0;
  total_requests = pos 0;
  total_errors = pos 0;
  last_health_check_at = 0;
  last_error = "";
  last_latency_ms = pos 0;
}

unfoldable pub load_backends : List BackendConfig → Store → Store
unfolding backend_of
load_backends [] s = s
load_backends (bc ∷ rest) s =
    load_backends rest (record s { backends = insert bc.id (backend_of bc) s.backends })

unfoldable pub model_of : ModelConfig → Model
model_of mc = record {
  name = mc.name;
  type = if str_eq mc.type "" then "chat" else mc.type;
  enabled = mc.enabled;
  context_length = mc.context_length;
  capability_mode = if str_eq mc.capability_mode "" then "passthrough" else mc.capability_mode;
  capabilities = mc.capabilities;
  routing_policy = mc.routing_policy;
}

unfoldable pub load_models : List ModelConfig → Store → Store
unfolding model_of
load_models [] s = s
load_models (mc ∷ rest) s =
    load_models rest (record s { models = insert mc.name (model_of mc) s.models })

unfoldable pub alias_of : AliasConfig → ModelAlias
alias_of mac = record {
  alias = mac.alias;
  internal_model = mac.internal_model;
  forwarding_mode = if str_eq mac.forwarding_mode "" then "use_internal" else mac.forwarding_mode;
  enabled = mac.enabled;
}

unfoldable pub load_aliases : List AliasConfig → Store → Store
unfolding alias_of
load_aliases [] s = s
load_aliases (mac ∷ rest) s =
    load_aliases rest (record s { model_aliases = insert mac.alias (alias_of mac) s.model_aliases })

module _ (hash_key : String → String) (parse_time : String → Option Time) where
  -- The prefix of the raw text, where the entry has none and the text is long enough; in bytes, which
  -- are the characters of an ASCII key.
  unfoldable pub prefix_of : ApiKeyConfig → String
  prefix_of kc =
      if not (str_eq kc.key "") && (str_eq kc.key_prefix "" && leb 8 (len kc.key))
      then slice kc.key 0 8
      else kc.key_prefix

  unfoldable pub key_of : ApiKeyConfig → ApiKey
  unfolding prefix_of
  key_of kc = record {
    id = if str_eq kc.id "" then prefix_of kc else kc.id;
    name = kc.name;
    key_prefix = prefix_of kc;
    key_hash = if str_eq kc.key "" then kc.key_hash else hash_key kc.key;
    enabled = kc.enabled;
    allowed_models = kc.allowed_models;
    denied_models = kc.denied_models;
    allowed_client_ips = kc.allowed_client_ips;
    denied_client_ips = kc.denied_client_ips;
    rate_limit = kc.rate_limit;
    quota = kc.quota;
    delay_ms = kc.delay_ms;
    logging = kc.logging;
    expires_at =
        if str_eq kc.expires_at ""
        then 0
        else elim (parse_time kc.expires_at) [ none ↦ 0 | some t ↦ t ];
    last_used_at = 0;
    total_requests = pos 0;
    total_tokens = pos 0;
  }

  -- A key at its pointer, in both maps.
  unfoldable pub put_key : Pointer → ApiKey → Store → Store
  unfolding write
  put_key at k s = record s {
    heap = write at k s.heap;
    api_keys = insert k.id at s.api_keys;
    key_by_hash =
        if str_eq k.key_hash "" then s.key_by_hash else insert k.key_hash at s.key_by_hash;
  }

  unfoldable pub load_keys : Pointer → List ApiKeyConfig → Store → Store
  unfolding key_of put_key
  load_keys at [] s = s
  load_keys at (kc ∷ rest) s = load_keys (suc at) rest (put_key at (key_of kc) s)

  -- `LoadFromConfig(cfg)`
  unfoldable pub load_from_config :
      Pointer
      → List BackendConfig
      → List ModelConfig
      → List AliasConfig
      → List ApiKeyConfig
      → Store
      → Store
  unfolding load_backends load_models load_aliases load_keys
  load_from_config at backends models aliases keys s =
      load_keys at keys (load_aliases aliases (load_models models (load_backends backends s)))
