-- ===== src/Store/Tests.antt =====
-- Runs of the store's theorems on small backends, keys and catalogs.
use llmgateway.Prelude.{
  ◌≡◌, ◌↔◌, ◌⊎◌, refl, inr, true, false, List, [], ◌∷◌, none, some, String, ◌≢◌, str_append,
  ne_str_eq, arith,
}
use llmgateway.Prelude.Int.{pos}
use llmgateway.Store.Backend.{Backend, healthy, maintenance, thresh_succ}
use llmgateway.Store.Samples.{a_backend, a_key}
use llmgateway.Store.Slots.{IsBounded, acquired, released, slot_run, slot_run-IsBounded}
use llmgateway.Store.Health.{Probe, run_checks, status-successes}
use llmgateway.Store.Pattern.{match_pattern}
use llmgateway.Store.Glob.{Glob, match_pattern-Glob}
use llmgateway.Store.Keys.{model_allowed_resolved}
use llmgateway.Store.Permission.{Covered, model_allowed_resolved-Covered}
use llmgateway.Store.Catalog.{
  Store, ModelAlias, resolve_alias, api_key_by_raw, upsert_api_key, delete_api_key, rotate_api_key,
}
use llmgateway.Store.Resolve.{IsWalk, name_upstream, resolve_alias-IsWalk}
use llmgateway.Store.Registry.{rotate_api_key-index, upsert_api_key-stale}
use llmgateway.Prelude.Dict.{lookup}
use llmgateway.Prelude.Bytes.{bytes}

abbrev in_maintenance : Backend
in_maintenance = record a_backend { status = maintenance }

abbrev good : Probe
good = record { success = true; latency = pos 5; err_msg = ""; at = 7 }

abbrev bad : Probe
bad = record { success = false; latency = pos 5; err_msg = "refused"; at = 8 }

slot_run-IsBounded_example :
    IsBounded (slot_run (acquired ∷ acquired ∷ acquired ∷ released true ∷ []) a_backend)
slot_run-IsBounded_example =
    slot_run-IsBounded (acquired ∷ acquired ∷ acquired ∷ released true ∷ []) a_backend
      (omega arith, omega arith) (omega arith)
      (record { nonneg = omega arith; within = inr (omega arith) })

abbrev drained : Backend
drained = record a_backend { id = "b2"; weight = pos 0 }

status-successes_example : (run_checks (good ∷ good ∷ []) in_maintenance).status ≡ healthy
unfolding thresh_succ
status-successes_example =
    status-successes (good ∷ good ∷ []) in_maintenance 0 (refl, (refl, tt)) refl (omega arith)
      (omega arith)

abbrev mixed : List Probe
mixed = bad ∷ bad ∷ good ∷ bad ∷ bad ∷ []

match_pattern-Glob_example :
    (match_pattern (bytes "gpt-*-m*") (bytes "gpt-4-mini") ≡ true)
    ↔ ((bytes "gpt-*-m*" ≢ []) × Glob (bytes "gpt-*-m*") (bytes "gpt-4-mini"))
match_pattern-Glob_example = match_pattern-Glob (bytes "gpt-*-m*") (bytes "gpt-4-mini")

model_allowed_resolved-Covered_example :
    (model_allowed_resolved "qwen-best" "qwen-large" a_key ≡ true) ↔ (
      (¬ Covered a_key.denied_models "qwen-best" "qwen-large")
      × ((a_key.allowed_models ≡ []) ⊎ Covered a_key.allowed_models "qwen-best" "qwen-large"))
model_allowed_resolved-Covered_example =
    model_allowed_resolved-Covered "qwen-best" "qwen-large" a_key

abbrev best : ModelAlias
best = record {
  alias = "best";
  internal_model = "second";
  forwarding_mode = "keep_external";
  enabled = true;
}

abbrev second : ModelAlias
second = record {
  alias = "second";
  internal_model = "qwen";
  forwarding_mode = "use_internal";
  enabled = true;
}

abbrev a_store : Store
a_store = record {
  backends = ("b1", a_backend) ∷ [];
  models = [];
  model_aliases = ("best", best) ∷ ("second", second) ∷ [];
  api_keys = ("k1", 0) ∷ [];
  key_by_hash = ("h:old", 0) ∷ [];
  heap = λ p. a_key;
}

resolve_alias-IsWalk_example :
    IsWalk a_store 8 "best" (resolve_alias "best" a_store).0
    × ((resolve_alias "best" a_store).1
        ≡ name_upstream "best" a_store (resolve_alias "best" a_store).0)
resolve_alias-IsWalk_example = resolve_alias-IsWalk "best" a_store

abbrev toy_hash : String → String
toy_hash raw = str_append "h:" raw

rotate_api_key-index_example :
    (lookup "h:old" (rotate_api_key toy_hash 0 "sk-new" a_store).key_by_hash ≡ none)
    × (api_key_by_raw toy_hash "sk-new" (rotate_api_key toy_hash 0 "sk-new" a_store) ≡ some 0)
rotate_api_key-index_example =
    rotate_api_key-index toy_hash 0 "sk-new" a_store (unfold lookup in refl)
      (ne_str_eq "sk-new" "" refl) (ne_str_eq "h:sk-new" "" refl)
      (ne_str_eq "h:sk-new" "h:old" refl)

upsert_api_key-stale_example :
    let replaced = upsert_api_key toy_hash 1 "sk-new" a_store in
    (lookup "h:old" replaced.key_by_hash ≡ some 0)
    × (lookup "h:old" (delete_api_key "k1" replaced).key_by_hash ≡ some 0)
upsert_api_key-stale_example =
    upsert_api_key-stale toy_hash 0 1 "sk-new" "h:old" a_store (unfold lookup in refl)
      (ne_str_eq "k1" "" refl) (ne_str_eq "sk-new" "" refl) (ne_str_eq "h:sk-new" "" refl)
      (ne_str_eq "h:sk-new" "h:old" refl)
