-- ===== src/Admin/Accounts.antt =====
-- What a handler may leave behind: an entry in the audit log, or an error.
use llmgateway.Prelude.{
  ℕ, ◌≡◌, ◌⊎◌, inl, inr, refl, Bool, true, false, [], ◌∷◌, ◌++◌, Option, none, some, String, arith,
  if◌then◌else◌,
}
use llmgateway.Config.{HealthCheckConfig}
use llmgateway.Admin.{User}
use llmgateway.Admin.Panel.{Panel, Answer, AuditEntry, written, turned_away, panicked, finish_with}
use llmgateway.Admin.Backends.{Probed, watch_backend, restart_loop, unwatch_backend}
use llmgateway.Admin.Models.{valid_capability_mode, valid_forwarding_mode, is_bad}
use llmgateway.Admin.Serve.{
  Change, creates_backend, patches_backend, deletes_backend, switches_backend, maintains_backend,
  probes_backend, upserts_model, patches_model, deletes_model, upserts_alias, patches_alias,
  deletes_alias, creates_api_key, patches_api_key, switches_api_key, rotates_api_key,
  deletes_api_key, creates_user, deletes_user,
}

-- A patch of a model or of an alias with a mode that is none.
abbrev pub HasBadMode : Change → Type 0
HasBadMode (patches_model name (some body)) =
    is_bad valid_capability_mode body.capability_mode ≡ true
HasBadMode (patches_alias name (some body)) =
    is_bad valid_forwarding_mode body.forwarding_mode ≡ true
HasBadMode _ = ⊥

-- The action that an entry names for a request.
abbrev pub action_of : Change → String
action_of (creates_backend probed body) = "backend.create"
action_of (patches_backend id body) = "backend.update"
action_of (deletes_backend id) = "backend.delete"
action_of (switches_backend on id) = if on then "backend.enable" else "backend.disable"
action_of (maintains_backend on id) =
    if on then "backend.maintenance_on" else "backend.maintenance_off"
action_of (probes_backend probed id) = ""
action_of (upserts_model body) = "model.upsert"
action_of (patches_model name body) = "model.update"
action_of (deletes_model name) = "model.delete"
action_of (upserts_alias body) = "alias.upsert"
action_of (patches_alias alias body) = "alias.update"
action_of (deletes_alias alias) = "alias.delete"
action_of (creates_api_key at generated body) = "api_key.create"
action_of (patches_api_key id body) = "api_key.update"
action_of (switches_api_key on id) = if on then "api_key.enable" else "api_key.disable"
action_of (rotates_api_key given generated id) = "api_key.rotate"
action_of (deletes_api_key id) = "api_key.delete"
action_of (creates_user salt body) = "user.create"
action_of (deletes_user name) = "user.delete"

-- The probe of a backend, on request: it is not logged.
abbrev pub IsProbe : Change → Type 0
IsProbe (probes_backend probed id) = Unit
IsProbe _ = ⊥

-- The log has one entry more, at its end: of the user, for this action.
abbrev pub Logged : User → Change → Panel → Panel → Type 0
Logged u c p q =
    (e : AuditEntry) × ((q.audit_log ≡ p.audit_log ++ e ∷ [])
      × ((e.admin_user ≡ u.username) × (e.action ≡ action_of c)))

-- A handler has succeeded and logged it, unless it was a probe; or it has written an error, logged
-- nothing and changed nothing, unless the patch has a bad mode; or it has panicked.
abbrev pub Outcome : User → Change → Panel → Panel → Answer → Type 0
Outcome u c p q (written status) = Logged u c p q ⊎ (IsProbe c × (q.audit_log ≡ p.audit_log))
Outcome u c p q (turned_away status code) = (q.audit_log ≡ p.audit_log) × ((q ≡ p) ⊎ HasBadMode c)
Outcome u c p q panicked = q ≡ p

pub record Accounted (u : User) (c : Change) (p : Panel) (r : Panel × Answer) : Type 0 where
  pub outcome : Outcome u c p r.0 r.1

pub finish_with-Accounted :
    (u : User) (action type id : String) (status : ℕ) (p q : Panel) (c : Change)
    → action ≡ action_of c
    → q.audit_log ≡ p.audit_log
    → Accounted u c p (finish_with u action type id status q)
unfolding finish_with
finish_with-Accounted u action type id status p q c named kept = record {
  outcome = inl (
    record { admin_user = u.username; action = action; target_type = type; target_id = id },
    (rw kept refl, (refl, named)),
  );
}

-- An error that leaves everything as it was.
pub turned_away-Accounted :
    (u : User) (c : Change) (p : Panel) (status : ℕ) (code : String)
    → Accounted u c p (p, turned_away status code)
turned_away-Accounted u c p status code = record { outcome = (refl, inl refl) }

pub if-Accounted :
    (u : User) (c : Change) (p : Panel) (b : Bool) (x y : Panel × Answer)
    → (b ≡ true → Accounted u c p x)
    → Accounted u c p y
    → Accounted u c p (if b then x else y)
if-Accounted u c p true x y h k = h refl
if-Accounted u c p false x y h k = k

-- A probe that has changed nothing of the log.
pub probed-Accounted :
    (u : User) (c : Change) (p q : Panel) (status : ℕ)
    → IsProbe c
    → q.audit_log ≡ p.audit_log
    → Accounted u c p (q, written status)
probed-Accounted u c p q status probe kept = record { outcome = inr (probe, kept) }

-- What the checker does leaves the log alone.
pub watch_backend-audit_log :
    (probed : Probed) (id : String) (p : Panel)
    → (watch_backend probed id p).audit_log ≡ p.audit_log
unfolding watch_backend
watch_backend-audit_log probed id p = ground arith

pub restart_loop-audit_log :
    (hc : Option HealthCheckConfig) (id : String) (p : Panel)
    → (restart_loop hc id p).audit_log ≡ p.audit_log
unfolding restart_loop
restart_loop-audit_log none id p = refl
restart_loop-audit_log (some hc) id p = ground arith

pub unwatch_backend-audit_log :
    (id : String) (p : Panel) → (unwatch_backend id p).audit_log ≡ p.audit_log
unfolding unwatch_backend
unwatch_backend-audit_log id p = ground arith
