-- ===== src/Handlers/Charge.antt =====
-- What the estimate of a reply without a usage block charges.
use llmgateway.Prelude.{
  Option-cases, ℕ, zero, suc, ◌+◌, ◌<◌, ◌≡◌, refl, ap, ◌∙◌, inl, inr, true, false, some, String,
  ltb, arith, Bool-cases, if◌then◌else◌,
}
use llmgateway.Prelude.Int.{ℤ, pos, negsuc, is_pos, add_int64, int64_half, add_int64-pos}
use llmgateway.Json.{JsonPackage}
use llmgateway.Store.Keys
use llmgateway.Store.Keys.{ApiKey}
use llmgateway.RateLimit.Limiter
use llmgateway.Handlers.Admission.{key_name}
use llmgateway.Handlers.Usage.{
  Account, Clock, Reply, approx, estimate_tokens, estimated, extract_max_tokens, charge_key,
  charge_quota, record_usage, is_success, usage_seen, charge_estimate, has_key,
}

-- What the estimate adds for the completion.
abbrev pub completion : ℤ → ℕ
completion (pos zero) = 256
completion (pos (suc n)) = suc n
completion (negsuc n) = 256

completion-pos : (m : ℤ) → (if is_pos m then m else pos 256) ≡ pos (completion m)
completion-pos (pos zero) = refl
completion-pos (pos (suc n)) = ground arith
completion-pos (negsuc n) = refl

estimate_tokens-add :
    (raw : String) (m : ℤ)
    → estimate_tokens raw m ≡ add_int64 (pos (approx raw)) (pos (completion m))
unfolding estimate_tokens
estimate_tokens-add raw m = ap (add_int64 (pos (approx raw))) (completion-pos m)

add_int64-over :
    (m n : ℕ)
    → m < int64_half
    → n < int64_half
    → ltb (m + n) int64_half ≡ false
    → is_pos (add_int64 (pos m) (pos n)) ≡ false
unfolding add_int64
add_int64-over m n a b h = ground arith

charge_quota-key :
    (t : Clock) (n : ℤ) (a : Account)
    → ((charge_quota t n a).gateway.limiter ≡ a.gateway.limiter)
      × ((charge_quota t n a).key ≡ a.key)
unfolding charge_quota
charge_quota-key t n a = elim (Option-cases a.gateway.quota) [
  | inl e ↦ rw (charge_quota, e) (refl, refl)
  | inr (m, e) ↦ elim (Bool-cases (is_pos n)) [
    | inl p ↦ rw (charge_quota, e, p) (refl, refl)
    | inr p ↦ rw (charge_quota, e, p) (refl, refl)
  ]
]

-- What a charge of `n` tokens leaves in the limiter and in the key.
record_usage-key :
    (t : Clock) (n : ℤ) (a : Account) (k : ApiKey)
    → a.key ≡ some k
    → ((record_usage t (some (estimated n)) a).gateway.limiter
        ≡ Limiter.add_tokens (key_name k) n t.limiter_born t.limiter_now a.gateway.limiter)
      × ((record_usage t (some (estimated n)) a).key ≡ some (Keys.add_tokens n t.key_now k))
unfolding record_usage
record_usage-key t n a k e =
    let (l, same) = charge_quota-key t n (charge_key t n a) in
    (l ∙ rw (charge_key, e) refl, same ∙ rw (charge_key, e) refl)

-- A charge that is not positive changes neither.
record_usage-none :
    (t : Clock) (n : ℤ) (a : Account) (k : ApiKey)
    → a.key ≡ some k
    → is_pos n ≡ false
    → ((record_usage t (some (estimated n)) a).gateway.limiter ≡ a.gateway.limiter)
      × ((record_usage t (some (estimated n)) a).key ≡ some k)
unfolding Limiter.add_tokens Keys.add_tokens
record_usage-none t n a k e z =
    let (l, same) = record_usage-key t n a k e in
    (l ∙ rw (Limiter.add_tokens, z) refl, same ∙ rw (Keys.add_tokens, z) refl)

-- A successful reply without a usage block charges the key of the request with the estimate: a
-- quarter of the bytes of the body, at least 1, and the tokens that the body allows for the
-- completion, or 256. The same amount goes to the tokens of the key and to its windows in the
-- limiter. Where the sum does not fit 64 bits, because the body allows nearly 2^63 tokens, nothing
-- is charged at all.
pub charge_estimate-completion :
    (J : JsonPackage) (t : Clock) (raw : String) (r : Reply) (a : Account) (k : ApiKey)
    → a.key ≡ some k
    → is_success r ≡ true
    → usage_seen r.reports ≡ false
    → approx raw < int64_half
    → completion (extract_max_tokens J raw) < int64_half
    → (charge_estimate J t raw r a).gateway.limiter ≡ (
        let n = approx raw + completion (extract_max_tokens J raw) in
        if ltb n int64_half
        then Limiter.add_tokens (key_name k) (pos n) t.limiter_born t.limiter_now a.gateway.limiter
        else a.gateway.limiter)
      × ((charge_estimate J t raw r a).key ≡ (
          let n = approx raw + completion (extract_max_tokens J raw) in
          if ltb n int64_half then some (Keys.add_tokens (pos n) t.key_now k) else some k))
unfolding charge_estimate
charge_estimate-completion J t raw r a k e ok unseen small fits =
    let m = extract_max_tokens J raw in
    let n = approx raw + completion m in
    let est = estimate_tokens raw m in
    let run : charge_estimate J t raw r a ≡ record_usage t (some (estimated est)) a =
      rw (charge_estimate, ok, unseen, ap has_key e) refl in
    elim (Bool-cases (ltb n int64_half)) [
      | inl p ↦
          let sum : est ≡ pos n =
            estimate_tokens-add raw m
            ∙ add_int64-pos (approx raw) (completion m) (ground (arith, p)) in
          let (l, same) = record_usage-key t (pos n) a k e in
          let to : charge_estimate J t raw r a ≡ record_usage t (some (estimated (pos n))) a =
            run ∙ ap (λ x. record_usage t (some (estimated x)) a) sum in
          rw p (ap (λ x. x.gateway.limiter) to ∙ l, ap (λ x. x.key) to ∙ same)
      | inr p ↦
          let zero' : is_pos est ≡ false =
            ap is_pos (estimate_tokens-add raw m)
            ∙ add_int64-over (approx raw) (completion m) small fits p in
          let (l, same) = record_usage-none t est a k e zero' in
          rw p (ap (λ x. x.gateway.limiter) run ∙ l, ap (λ x. x.key) run ∙ same)
    ]
