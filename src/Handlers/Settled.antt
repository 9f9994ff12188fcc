-- ===== src/Handlers/Settled.antt =====
-- What a request is charged, from the exchange with its backend on: `Forward` of
-- internal/proxy/proxy.go reports its result to `Forward` of internal/handlers/handlers.go.
use llmgateway.Prelude.{
  ℕ, suc, ◌≡◌, refl, ◌∙◌, Bool, true, false, ◌&&◌, List, [], ◌∷◌, Option, none, some, String, inl,
  inr, arith, Bool-cases, Option-cases, if◌then◌else◌,
}
use llmgateway.Prelude.Int.{ℤ, pos, leb_ℤ, ltb_ℤ}
use llmgateway.Json.{JsonPackage}
use llmgateway.Handlers.Usage.{
  Usage, Account, Clock, Reply, is_success, usage_seen, record_usage, record_all, touch, has_key,
  charge_estimate, account_for, estimate_tokens, estimated, extract_max_tokens,
}
use llmgateway.Proxy.{HttpPackage}
use llmgateway.Proxy.Stream.{LinePackage, Wake}
use llmgateway.Proxy.Forward.{
  Forwarded, Response, Exchange, bad_request, timed_out, canceled, unreachable, answered,
  is_event_stream, on_usage, pass_response, forward, refuse,
}

-- The callbacks `OnUsage` and `OnStreamUsage`, each at its reading of the clock.
unfoldable pub reported : (ℕ → Clock) → List Usage → List (Clock × Option Usage)
reported at [] = []
reported at (u ∷ us) = (at 0, some u) ∷ reported (λ n. at (suc n)) us

-- The result of the proxy, as the handler gets it.
unfoldable pub reply_of : (ℕ → Clock) → Forwarded → Reply
unfolding reported
reply_of at f = record { status = f.status; failed = f.failed; reports = reported at f.usage }

below_400 : (n : ℤ) → ltb_ℤ n (pos 300) ≡ true → ltb_ℤ n (pos 400) ≡ true
below_400 n h = ground arith

redirect :
    (n : ℤ)
    → (leb_ℤ (pos 200) n && ltb_ℤ n (pos 300)) ≡ true
    → (leb_ℤ (pos 200) n && ltb_ℤ n (pos 400)) ≡ true
redirect n h = elim (Bool-cases (ltb_ℤ n (pos 300))) [
  | inl e ↦ rw (below_400 n e) (rw e at h)
  | inr e ↦ ground arith
]

module _ (J : JsonPackage) (P : HttpPackage) (L : LinePackage) (at : ℕ → Clock) (t : Clock)
    (raw : String) where
  -- The estimate, for a key.
  abbrev pub by_estimate : Account → Account
  by_estimate a =
      if has_key a.key
      then record_usage t (some (estimated (estimate_tokens raw (extract_max_tokens J raw)))) a
      else a

  -- The charge for a reply that was read whole.
  abbrev pub bill : ℤ → List ℕ → Account → Account
  bill status body a =
      if leb_ℤ (pos 200) status && ltb_ℤ status (pos 300)
      then elim (P.decode_usage body) [
        | none ↦ by_estimate (touch t.key_now a)
        | some u ↦ touch t.key_now (record_usage (at 0) (some u) a)
      ]
      else if leb_ℤ (pos 200) status && ltb_ℤ status (pos 400)
      then by_estimate (touch t.key_now a)
      else touch t.key_now a

  -- What an exchange comes to for the account of its request.
  abbrev pub settled : Exchange → Account → Account
  settled (answered r (body, none) slices) a = bill r.status_code body a
  settled _ a = touch t.key_now a

  -- An exchange whose reply is not streamed.
  abbrev pub IsWhole : Bool → Exchange → Type 0
  IsWhole is_stream (answered r whole slices) = (is_stream && is_event_stream P L r) ≡ false
  IsWhole is_stream _ = Unit

  -- The proxy returns, and the accounting of its result is that of the exchange.
  abbrev pub Settles : Bool → Bool → List Wake → Exchange → Account → Type 0
  Settles is_stream can_flush wakes x a =
      (f : Forwarded) × ((forward P L is_stream can_flush wakes x ≡ some f)
        × (account_for J t raw (reply_of at f) a ≡ settled x a))

  -- A result with an error and without a usage block.
  failed-settled :
      (a : Account) (r : Reply)
      → r.failed ≡ true
      → r.reports ≡ []
      → account_for J t raw r a ≡ touch t.key_now a
  unfolding account_for record_all charge_estimate is_success
  failed-settled a r bad none_seen = rw (none_seen, bad) refl

  -- A result without a usage block: the estimate, if it is a success.
  unseen-settled :
      (a : Account) (r : Reply)
      → r.failed ≡ false
      → r.reports ≡ []
      → account_for J t raw r a ≡ (
          if leb_ℤ (pos 200) r.status && ltb_ℤ r.status (pos 400)
          then by_estimate (touch t.key_now a)
          else touch t.key_now a)
  unfolding account_for record_all charge_estimate is_success usage_seen
  unseen-settled a r good none_seen =
      elim (Bool-cases (leb_ℤ (pos 200) r.status && ltb_ℤ r.status (pos 400))) [
        | inl e ↦ rw (none_seen, good, e) refl
        | inr e ↦ rw (none_seen, good, e) refl
      ]

  -- A usage block stands in for the estimate.
  seen-settled :
      (a : Account) (r : Reply) (u : Usage)
      → r.reports ≡ (at 0, some u) ∷ []
      → account_for J t raw r a ≡ touch t.key_now (record_usage (at 0) (some u) a)
  unfolding account_for record_all charge_estimate usage_seen
  seen-settled a r u seen = elim (Bool-cases (is_success r)) [
    | inl e ↦ rw (seen, e) refl
    | inr e ↦ rw (seen, e) refl
  ]

  pass_response-settled :
      (r : Response) (body : List ℕ) (a : Account)
      → account_for J t raw (reply_of at (pass_response P L r (body, none))) a
        ≡ bill r.status_code body a
  unfolding pass_response on_usage reply_of reported
  pass_response-settled r body a =
      elim (Bool-cases (leb_ℤ (pos 200) r.status_code && ltb_ℤ r.status_code (pos 300))) [
        | inl e ↦ elim (Option-cases (P.decode_usage body)) [
          | inl f ↦
              unseen-settled a (reply_of at (pass_response P L r (body, none))) refl
                (rw (on_usage, e, f) refl)
              ∙ rw (e, f, redirect r.status_code e) refl
          | inr (u, f) ↦
              seen-settled a (reply_of at (pass_response P L r (body, none))) u
                (rw (on_usage, e, f) refl)
              ∙ rw (e, f) refl
        ]
        | inr e ↦
            unseen-settled a (reply_of at (pass_response P L r (body, none))) refl
              (rw (on_usage, e) refl)
            ∙ rw e refl
      ]

  -- What a request is charged follows from the exchange with its backend. The exchange is one whose
  -- reply is not streamed: `Forward` of the proxy then returns, and the account of the request is
  -- settled by its result. A usage block of a 2xx reply is charged once, and no estimate; a 2xx or
  -- 3xx reply without one is charged the estimate, if the request has a key; and an exchange that
  -- fails, whether the backend cannot be reached, times out, breaks off, or answers another status,
  -- is charged nothing but counted for the key, as all are.
  pub forward-settled :
      (is_stream can_flush : Bool) (wakes : List Wake) (x : Exchange) (a : Account)
      → IsWhole is_stream x
      → Settles is_stream can_flush wakes x a
  unfolding forward reply_of reported refuse pass_response
  forward-settled is_stream can_flush wakes bad_request a h =
      (_, (refl, failed-settled a _ refl refl))
  forward-settled is_stream can_flush wakes timed_out a h =
      (_, (refl, failed-settled a _ refl refl))
  forward-settled is_stream can_flush wakes canceled a h = (_, (refl, failed-settled a _ refl refl))
  forward-settled is_stream can_flush wakes (unreachable err) a h =
      (_, (refl, failed-settled a _ refl refl))
  forward-settled is_stream can_flush wakes (answered r (body, some err) slices) a h =
      (pass_response P L r (body, some err), (rw h refl, failed-settled a _ refl refl))
  forward-settled is_stream can_flush wakes (answered r (body, none) slices) a h =
      (pass_response P L r (body, none), (rw h refl, pass_response-settled r body a))
