-- ===== src/Admin/Panel.antt =====
-- The state that the handlers of internal/admin change, and how they answer. The body of a request is
-- what `json.Decode` made of it, with `none` for an error.
use llmgateway.Prelude.{
  ℕ, Bool, true, false, List, [], ◌∷◌, ◌++◌, Option, none, some, String, str_eq, if◌then◌else◌,
}
use llmgateway.Prelude.Int.{ℤ, is_pos}
use llmgateway.Store.Catalog.{Store}
use llmgateway.Checker.{Checker}
use llmgateway.Admin.{Users, User}

-- The fields of `AuditEvent` that name who did what: the old and the new values, the address and the
-- time of the event are left out.
pub record AuditEntry : Type 0 where
  pub admin_user : String
  pub action : String
  pub target_type : String
  pub target_id : String

-- `Server`: the store, the health checker, the users, and the audit log, oldest entry first.
pub record Panel : Type 0 where
  pub store : Store
  pub health : Option Checker
  pub users : Users
  pub audit_log : List AuditEntry

-- A status, with the code of an error. A handler that panics writes nothing: `net/http` drops the
-- connection.
pub data Answer : Type 0 where
  written : ℕ → Answer
  turned_away : ℕ → String → Answer
  panicked : Answer

unfoldable pub is_error : Answer → Bool
is_error (written n) = false
is_error (turned_away n code) = true
is_error panicked = true

-- `audit(r, action, targetType, targetID, …)`, for a user that is in the context. There is a log
-- store, and it takes every entry: the source appends in a goroutine and warns when that fails.
unfoldable pub audit : User → String → String → String → Panel → Panel
audit u action target_type target_id p = record p {
  audit_log =
      p.audit_log
      ++ record {
        admin_user = u.username;
        action = action;
        target_type = target_type;
        target_id = target_id;
      }
        ∷ [];
}

-- A handler's end: the audit entry, and the answer.
unfoldable pub finish_with : User → String → String → String → ℕ → Panel → Panel × Answer
unfolding audit
finish_with u action target_type target_id status p =
    (audit u action target_type target_id p, written status)

-- `if x != nil { y = *x }`, and the same for a text that is not empty and for a positive number.
unfoldable pub patch {ℓ} : {A : Type ℓ} → Option A → A → A
patch none y = y
patch (some x) y = x

unfoldable pub patch_text : String → String → String
patch_text x y = if str_eq x "" then y else x

unfoldable pub patch_number : ℤ → ℤ → ℤ
patch_number x y = if is_pos x then x else y

unfoldable pub patch_option {ℓ} : {A : Type ℓ} → Option A → Option A → Option A
patch_option none y = y
patch_option (some x) y = some x

unfoldable pub patch_list {ℓ} : {A : Type ℓ} → List A → List A → List A
patch_list [] y = y
patch_list (x ∷ xs) y = x ∷ xs

-- `enabled := true; if b.Enabled != nil { enabled = *b.Enabled }`
unfoldable pub or_enabled : Option Bool → Bool
unfolding patch
or_enabled e = patch e true
