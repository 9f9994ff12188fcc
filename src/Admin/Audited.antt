-- ===== src/Admin/Audited.antt =====
-- What a request leaves in the audit log.
use llmgateway.Prelude.{◌≡◌, ◌⊎◌, inl, inr, refl, sym, true, false, Bool-cases}
use mathlib.Core.Path.{subst}
use llmgateway.Admin.{AdminPackage, User, has_permission}
use llmgateway.Admin.Entry.{Entry, entered, refused}
use llmgateway.Admin.Panel.{Panel, Answer, written, turned_away, panicked, is_error}
use llmgateway.Admin.Keys.{TextPackage}
use llmgateway.Admin.Serve.{
  Change, creates_backend, patches_backend, deletes_backend, switches_backend, maintains_backend,
  probes_backend, upserts_model, patches_model, deletes_model, upserts_alias, patches_alias,
  deletes_alias, creates_api_key, patches_api_key, switches_api_key, rotates_api_key,
  deletes_api_key, creates_user, deletes_user, permission, act, serve,
}
use llmgateway.Admin.Accounts.{
  HasBadMode, IsProbe, Logged, Outcome, Accounted, finish_with-Accounted, unwatch_backend-audit_log,
}
use llmgateway.Admin.Written.{
  create_backend-Accounted, patch_backend-Accounted, switch_backend-Accounted,
  toggle_maintenance-Accounted, probe_backend-Accounted, put_model-Accounted, put_alias-Accounted,
  patch_model-Accounted, patch_alias-Accounted, create_api_key-Accounted, patch_api_key-Accounted,
  set_api_key_enabled-Accounted, rotate_key-Accounted, create_user-Accounted,
}

module _ (X : TextPackage) where
  act-Accounted :
      (P : AdminPackage) (u : User) (c : Change) (p : Panel) → Accounted u c p (act P X u c p)
  unfolding act
  act-Accounted P u (creates_backend probed body) p = create_backend-Accounted u probed body p
  act-Accounted P u (patches_backend id body) p = patch_backend-Accounted u id body p
  act-Accounted P u (deletes_backend id) p =
      finish_with-Accounted u _ "backend" id 204 p _ (deletes_backend id) refl
        (unwatch_backend-audit_log id _)
  act-Accounted P u (switches_backend on id) p = switch_backend-Accounted u on id p
  act-Accounted P u (maintains_backend on id) p = toggle_maintenance-Accounted u on id p
  act-Accounted P u (probes_backend probed id) p = probe_backend-Accounted u probed id p
  act-Accounted P u (upserts_model body) p = put_model-Accounted u body p
  act-Accounted P u (patches_model name body) p = patch_model-Accounted u name body p
  act-Accounted P u (deletes_model name) p =
      finish_with-Accounted u _ "model" name 204 p _ (deletes_model name) refl refl
  act-Accounted P u (upserts_alias body) p = put_alias-Accounted u body p
  act-Accounted P u (patches_alias alias body) p = patch_alias-Accounted u alias body p
  act-Accounted P u (deletes_alias alias) p =
      finish_with-Accounted u _ "alias" alias 204 p _ (deletes_alias alias) refl refl
  act-Accounted P u (creates_api_key at generated body) p =
      create_api_key-Accounted X u at generated body p
  act-Accounted P u (patches_api_key id body) p = patch_api_key-Accounted X u id body p
  act-Accounted P u (switches_api_key on id) p = set_api_key_enabled-Accounted X u on id p
  act-Accounted P u (rotates_api_key given generated id) p =
      rotate_key-Accounted X u given generated id p
  act-Accounted P u (deletes_api_key id) p =
      finish_with-Accounted u _ "api_key" id 204 p _ (deletes_api_key id) refl refl
  act-Accounted P u (creates_user salt body) p = create_user-Accounted X P u salt body p
  act-Accounted P u (deletes_user name) p =
      finish_with-Accounted u _ "user" name 204 p _ (deletes_user name) refl refl

  -- What the handler has left behind, for a user who has the permission.
  abbrev pub Traced : User → Change → Panel → Panel × Answer → Type 0
  Traced u c p r =
      ((is_error r.1 ≡ false) × Logged u c p r.0)
      ⊎ (((is_error r.1 ≡ false) × ((r.0.audit_log ≡ p.audit_log) × IsProbe c))
          ⊎ ((is_error r.1 ≡ true) × ((r.0.audit_log ≡ p.audit_log) × HasBadMode c)))

  -- What a request comes to: nothing has changed, or the user has the permission, and there is a
  -- trace or a reason why there is none.
  abbrev pub Served : Entry → Change → Panel → Panel × Answer → Type 0
  Served e c p r =
      (r.0 ≡ p)
      ⊎ ((u : User) × ((e ≡ entered u)
            × ((has_permission u.role (permission c) ≡ true) × Traced u c p r)))

  Outcome-Served :
      (u : User) (c : Change) (p q : Panel) (a : Answer)
      → has_permission u.role (permission c) ≡ true
      → Outcome u c p q a
      → Served (entered u) c p (q, a)
  unfolding is_error
  Outcome-Served u c p q (written status) may (inl logged) =
      inr (u, (refl, (may, inl (refl, logged))))
  Outcome-Served u c p q (written status) may (inr (probe, kept)) =
      inr (u, (refl, (may, inr (inl (refl, (kept, probe))))))
  Outcome-Served u c p q (turned_away status code) may (kept, inl same) = inl same
  Outcome-Served u c p q (turned_away status code) may (kept, inr bad) =
      inr (u, (refl, (may, inr (inr (refl, (kept, bad))))))
  Outcome-Served u c p q panicked may same = inl same

  -- No change without a permission, and none without a trace, but for two kinds of requests. A request
  -- of the admin API that may change something either leaves store, checker, users and audit log as
  -- they were; or it comes from a user whose role has the permission that its handler asks for, and
  -- then one of three holds. The answer is a success and the audit log has exactly one entry more,
  -- which names this user and the action. Or the answer is a success, the log is as it was, and the
  -- request is the probe of a backend. Or the answer is an error, the log is as it was, and the
  -- request is a patch of a model or an alias with a mode that is none.
  pub serve-Served :
      (P : AdminPackage) (e : Entry) (c : Change) (p : Panel) → Served e c p (serve P X e c p)
  unfolding serve
  serve-Served P (refused n) c p = inl refl
  serve-Served P (entered u) c p = elim (Bool-cases (has_permission u.role (permission c))) [
    | inr no_perm ↦ inl (rw (serve, no_perm) refl)
    | inl may ↦
        let run : serve P X (entered u) c p ≡ act P X u c p = rw (serve, may) refl in
        let done = act-Accounted P u c p in
        subst (Served (entered u) c p) (sym run)
          (Outcome-Served u c p (act P X u c p).0 (act P X u c p).1 may done.outcome)
  ]
