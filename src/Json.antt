-- ===== src/Json.antt =====
-- Package encoding/json, which the handlers and the capability check call to read a request body. It
-- is an interface: each field is one use of `json.Unmarshal`, with `none` for an error.
use llmgateway.Prelude.{Bool, List, Option, String}
use llmgateway.Prelude.Dict.{Dict}
use llmgateway.Prelude.Int.{ℤ}

-- The fields that `Forward` reads of a body; a field that is missing or null is `none`.
pub record Peek : Type 0 where
  pub model : String
  pub stream : Option Bool
  pub secret_level : Option ℤ

pub record TokenLimits : Type 0 where
  pub max_tokens : Option ℤ
  pub max_completion_tokens : Option ℤ

-- `members` decodes into a map of raw values, `messages` into the raw elements of the field of that
-- name. `rename` gives the body that carries another model.
pub record JsonPackage : Type 0 where
  pub peek : String → Option Peek
  pub members : String → Option (Dict String)
  pub messages : String → Option (List String)
  pub token_limits : String → Option TokenLimits
