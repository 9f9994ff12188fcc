-- ===== src/Handlers/Accounting.antt =====
-- The accounting of a reply touches neither the requests in flight nor the queue.
use llmgateway.Prelude.{
  inl, inr, refl, ◌∙◌, not, ◌&&◌, List, [], ◌∷◌, Option, none, some, String, Bool-cases,
  Option-cases,
}
use llmgateway.Prelude.Int.{ℤ, is_pos}
use llmgateway.Json.{JsonPackage}
use llmgateway.Time.{Time}
use llmgateway.Handlers.Admission.{Gateway}
use llmgateway.Handlers.Holdings.{Untouched}
use llmgateway.Handlers.Usage.{
  Account, Clock, Reply, Usage, charge_key, charge_quota, record_usage, record_all, touch,
  charge_estimate, account_for, is_success, usage_seen, has_key, estimated, estimate_tokens,
  extract_max_tokens,
}

Untouched-refl : {g : Gateway} → Untouched g g
Untouched-refl = record { concurrency = refl; queue = refl }

Untouched-trans : {f g h : Gateway} → Untouched f g → Untouched g h → Untouched f h
Untouched-trans u v = record {
  concurrency = v.concurrency ∙ u.concurrency;
  queue = v.queue ∙ u.queue;
}

charge_key-Untouched :
    (t : Clock) (n : ℤ) (a : Account) → Untouched a.gateway (charge_key t n a).gateway
unfolding charge_key
charge_key-Untouched t n a = elim (Option-cases a.key) [
  | inl e ↦ rw (charge_key, e) Untouched-refl
  | inr (k, e) ↦ rw (charge_key, e) (record { concurrency = refl; queue = refl })
]

charge_quota-Untouched :
    (t : Clock) (n : ℤ) (a : Account) → Untouched a.gateway (charge_quota t n a).gateway
unfolding charge_quota
charge_quota-Untouched t n a = elim (Option-cases a.gateway.quota) [
  | inl e ↦ rw (charge_quota, e) (record { concurrency = refl; queue = refl })
  | inr (m, e) ↦ elim (Bool-cases (is_pos n)) [
    | inl p ↦ rw (charge_quota, e, p) (record { concurrency = refl; queue = refl })
    | inr p ↦ rw (charge_quota, e, p) (record { concurrency = refl; queue = refl })
  ]
]

record_usage-Untouched :
    (t : Clock) (u : Option Usage) (a : Account) → Untouched a.gateway (record_usage t u a).gateway
unfolding record_usage
record_usage-Untouched t none a = Untouched-refl
record_usage-Untouched t (some u) a =
    Untouched-trans (charge_key-Untouched t u.total_tokens a)
      (charge_quota-Untouched t u.total_tokens (charge_key t u.total_tokens a))

record_all-Untouched :
    (us : List (Clock × Option Usage)) (a : Account) → Untouched a.gateway (record_all us a).gateway
unfolding record_all
record_all-Untouched [] a = Untouched-refl
record_all-Untouched ((t, u) ∷ us) a =
    Untouched-trans (record_usage-Untouched t u a) (record_all-Untouched us (record_usage t u a))

touch-Untouched : (now : Time) (a : Account) → Untouched a.gateway (touch now a).gateway
unfolding touch
touch-Untouched now a = elim (Option-cases a.key) [
  | inl e ↦ rw (touch, e) Untouched-refl
  | inr (k, e) ↦ rw (touch, e) Untouched-refl
]

module _ (J : JsonPackage) where
  charge_estimate-Untouched :
      (t : Clock) (raw : String) (r : Reply) (a : Account)
      → Untouched a.gateway (charge_estimate J t raw r a).gateway
  unfolding charge_estimate
  charge_estimate-Untouched t raw r a =
      elim (Bool-cases (is_success r && (not (usage_seen r.reports) && has_key a.key))) [
        | inl p ↦
            let u = some (estimated (estimate_tokens raw (extract_max_tokens J raw))) in
            rw (charge_estimate, p) (record_usage-Untouched t u a)
        | inr p ↦ rw (charge_estimate, p) Untouched-refl
      ]

  pub account_for-Untouched :
      (t : Clock) (raw : String) (r : Reply) (a : Account)
      → Untouched a.gateway (account_for J t raw r a).gateway
  unfolding account_for
  account_for-Untouched t raw r a = Untouched-trans (record_all-Untouched r.reports a) (
      Untouched-trans (touch-Untouched t.key_now (record_all r.reports a))
        (charge_estimate-Untouched t raw r (touch t.key_now (record_all r.reports a))))
