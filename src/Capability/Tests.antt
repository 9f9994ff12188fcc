-- ===== src/Capability/Tests.antt =====
-- A run of the capability check.
use llmgateway.Prelude.{◌≡◌, ◌≢◌, ◌⊎◌, ◌↔◌, true, false, [], ◌∷◌, none, some, String}
use llmgateway.Json.{JsonPackage}
use llmgateway.Capability.{admissible, check}
use llmgateway.Capability.Allowed.{Allows, check-Allows}

-- A body with an image and tools.
abbrev a_json : JsonPackage
a_json = record {
  peek = λ raw. none;
  members = λ raw. some (("tools", "[]") ∷ []);
  messages = λ raw. some ("{\"type\":\"image_url\"}" ∷ []);
  token_limits = λ raw. none;
}

check-Allows_example : (check a_json "strict" (("vision", true) ∷ []) "body" ≡ admissible) ↔ (
    ((◌≢◌ {A = String} "strict" "strict") ⊎ Allows a_json true (("vision", true) ∷ []) "body")
    × ((◌≢◌ {A = String} "strict" "declared") ⊎ Allows a_json false (("vision", true) ∷ []) "body"))
check-Allows_example = check-Allows a_json "strict" (("vision", true) ∷ []) "body"
