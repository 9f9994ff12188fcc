-- ===== src/Admin/Modes.antt =====
-- The modes of models and aliases, from the configuration on.
use llmgateway.Prelude.{
  suc, ◌≡◌, refl, inl, inr, true, List, [], ◌∷◌, Option, String, str_eq, any, All, arith, eq_iff,
  Bool-cases, if◌then◌else◌,
}
use llmgateway.Prelude.Dict.{insert, insert-All}
use llmgateway.Time.{Time}
use llmgateway.Config.Validate.{
  BackendConfig, ModelConfig, AliasConfig, ApiKeyConfig, has, is_capability_mode,
  is_forwarding_mode,
}
use llmgateway.Store.Catalog.{Store, Model, ModelAlias, Pointer}
use llmgateway.Store.Load.{
  load_backends, load_models, load_aliases, load_keys, load_from_config, model_of, alias_of,
  backend_of, put_key, key_of,
}
use llmgateway.Admin.Models.{valid_capability_mode, valid_forwarding_mode}

-- Every model has one of the three capability modes, every alias one of the two forwarding modes.
abbrev pub IsModel : String × Model → Type 0
IsModel e = valid_capability_mode e.1.capability_mode ≡ true

abbrev pub IsAlias : String × ModelAlias → Type 0
IsAlias e = valid_forwarding_mode e.1.forwarding_mode ≡ true

pub record HasModes (s : Store) : Type 0 where
  pub models : All IsModel s.models
  pub aliases : All IsAlias s.model_aliases

capability_mode_default :
    (m : String)
    → is_capability_mode m ≡ true
    → valid_capability_mode (if str_eq m "" then "passthrough" else m) ≡ true
unfolding is_capability_mode has any valid_capability_mode
capability_mode_default m h = elim (Bool-cases (str_eq m "")) [
  | inl e ↦ rw e refl
  | inr e ↦ rw e (
      ground (
        arith,
        h,
        e,
        eq_iff "" m,
        eq_iff m "",
        eq_iff "passthrough" m,
        eq_iff m "passthrough",
        eq_iff "declared" m,
        eq_iff m "declared",
        eq_iff "strict" m,
        eq_iff m "strict",
      ))
]

forwarding_mode_default :
    (m : String)
    → is_forwarding_mode m ≡ true
    → valid_forwarding_mode (if str_eq m "" then "use_internal" else m) ≡ true
unfolding is_forwarding_mode has any valid_forwarding_mode
forwarding_mode_default m h = elim (Bool-cases (str_eq m "")) [
  | inl e ↦ rw e refl
  | inr e ↦ rw e (
      ground (
        arith,
        h,
        e,
        eq_iff "" m,
        eq_iff m "",
        eq_iff "use_internal" m,
        eq_iff m "use_internal",
        eq_iff "keep_external" m,
        eq_iff m "keep_external",
      ))
]

load_models-HasModes :
    (ms : List ModelConfig) (s : Store)
    → All (λ (m : ModelConfig). is_capability_mode m.capability_mode ≡ true) ms
    → HasModes s
    → HasModes (load_models ms s)
unfolding load_models model_of
load_models-HasModes [] s good h = h
load_models-HasModes (m ∷ ms) s (here, later) h =
    load_models-HasModes ms (record s { models = insert m.name (model_of m) s.models }) later
      (record {
        models =
            insert-All IsModel m.name (model_of m) s.models
              (capability_mode_default m.capability_mode here) h.models;
        aliases = h.aliases;
      })

load_aliases-HasModes :
    (xs : List AliasConfig) (s : Store)
    → All (λ (a : AliasConfig). is_forwarding_mode a.forwarding_mode ≡ true) xs
    → HasModes s
    → HasModes (load_aliases xs s)
unfolding load_aliases alias_of
load_aliases-HasModes [] s good h = h
load_aliases-HasModes (a ∷ xs) s (here, later) h =
    load_aliases-HasModes xs
      (record s { model_aliases = insert a.alias (alias_of a) s.model_aliases }) later
      (record {
        models = h.models;
        aliases =
            insert-All IsAlias a.alias (alias_of a) s.model_aliases
              (forwarding_mode_default a.forwarding_mode here) h.aliases;
      })

load_backends-HasModes :
    (bs : List BackendConfig) (s : Store) → HasModes s → HasModes (load_backends bs s)
unfolding load_backends
load_backends-HasModes [] s h = h
load_backends-HasModes (b ∷ bs) s h =
    load_backends-HasModes bs (record s { backends = insert b.id (backend_of b) s.backends })
      (record { models = h.models; aliases = h.aliases })

module _ (hash_key : String → String) (parse_time : String → Option Time) where
  load_keys-HasModes :
      (at : Pointer) (ks : List ApiKeyConfig) (s : Store)
      → HasModes s
      → HasModes (load_keys hash_key parse_time at ks s)
  unfolding load_keys put_key
  load_keys-HasModes at [] s h = h
  load_keys-HasModes at (k ∷ ks) s h =
      load_keys-HasModes (suc at) ks
        (put_key hash_key parse_time at (key_of hash_key parse_time k) s)
        (record { models = h.models; aliases = h.aliases })

  -- The store of a configuration that `Validate` has accepted.
  pub load_from_config-HasModes :
      (at : Pointer) (bs : List BackendConfig) (ms : List ModelConfig) (xs : List AliasConfig)
      (ks : List ApiKeyConfig) (s : Store)
      → All (λ (m : ModelConfig). is_capability_mode m.capability_mode ≡ true) ms
      → All (λ (a : AliasConfig). is_forwarding_mode a.forwarding_mode ≡ true) xs
      → HasModes s
      → HasModes (load_from_config hash_key parse_time at bs ms xs ks s)
  unfolding load_from_config
  load_from_config-HasModes at bs ms xs ks s good_models good_aliases h =
      load_keys-HasModes at ks _ (
        load_aliases-HasModes xs _ good_aliases
          (load_models-HasModes ms _ good_models (load_backends-HasModes bs s h)))
