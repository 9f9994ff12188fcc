-- ===== src/Capability.antt =====
-- internal/capability/capability.go: whether a model takes the features that a request body uses.
pub mod Allowed
mod Tests
use llmgateway.Prelude.{
  Bool, true, false, not, ◌&&◌, ◌||◌, List, [], ◌∷◌, Option, none, some, String, str_eq, any,
  if◌then◌else◌,
}
use llmgateway.Prelude.Bytes.{bytes}
use llmgateway.Prelude.Dict.{Dict, lookup}
use llmgateway.Json.{JsonPackage}
use llmgateway.NetUtil.{trim_space}
use llmgateway.Store.Pattern.{after_first}

-- The answer of `Check`; `admissible` is the empty string.
pub data Reason : Type 0 where
  admissible tool_call_not_supported vision_not_supported thinking_not_supported : Reason

-- `cap_(caps, key, unsetMeansAllow)`
unfoldable pub cap : Dict Bool → String → Bool → Bool
cap caps key unset_means_allow = elim (lookup key caps) [ none ↦ unset_means_allow | some v ↦ v ]

-- `bytes.Contains(b, subslice)`
unfoldable pub contains : String → String → Bool
contains b subslice = elim (after_first (bytes subslice) (bytes b)) [ none ↦ false | some r ↦ true ]

-- A value that is there and not null.
unfoldable pub is_set : Option String → Bool
is_set none = false
is_set (some v) =
    let trimmed = trim_space v in not (str_eq trimmed "") && not (str_eq trimmed "null")

-- `len(caps) == 0`
unfoldable pub is_unset : Dict Bool → Bool
is_unset [] = true
is_unset (x ∷ caps) = false

module _ (J : JsonPackage) where
  -- `hasTopLevel(body, key)`
  unfoldable pub has_top_level : String → String → Bool
  unfolding is_set
  has_top_level body key = elim (J.members body) [ none ↦ false | some m ↦ is_set (lookup key m) ]

  -- `referencesImage(body)`
  unfoldable pub references_image : String → Bool
  unfolding contains
  references_image body = elim (J.messages body) [
    | none ↦ false
    | some ms ↦ any (λ m. contains m "\"image_url\"") ms
  ]

  unfoldable pub uses_tools : String → Bool
  uses_tools body = has_top_level body "tools" || has_top_level body "tool_choice"

  unfoldable pub uses_thinking : String → Bool
  uses_thinking body =
      has_top_level body "reasoning_effort"
      || (has_top_level body "thinking_budget" || has_top_level body "enable_thinking")

  -- `checkDeclared(strict, caps, body)`
  unfoldable pub check_declared : Bool → Dict Bool → String → Reason
  unfolding cap is_unset
  check_declared strict caps body =
      if not strict && is_unset caps
      then admissible
      else if uses_tools body && not (cap caps "tool_call" (not strict))
      then tool_call_not_supported
      else if references_image body && not (cap caps "vision" (not strict))
      then vision_not_supported
      else if uses_thinking body && not (cap caps "thinking" (not strict))
      then thinking_not_supported
      else admissible

  -- `Check(mode, caps, body)`
  unfoldable pub check : String → Dict Bool → String → Reason
  unfolding check_declared
  check mode caps body =
      if str_eq mode "" || str_eq mode "passthrough"
      then admissible
      else if str_eq mode "declared" || str_eq mode "strict"
      then check_declared (str_eq mode "strict") caps body
      else admissible
