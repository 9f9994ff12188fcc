-- ===== src/LogStore/Counted.antt =====
-- What the statistics of the log count, over all and in a group.
use llmgateway.Prelude.{
  ◌<◌, ◌≡◌, refl, ap, ◌∙◌, Bool, true, false, not, ◌&&◌, List, [], ◌∷◌, String, str_eq, arith,
  length, keep_if, Bool-cases, inl, inr, if◌then◌else◌, eq_iff,
}
use llmgateway.Prelude.Dict.{Dict, lookup, insert, lookup-insert}
use llmgateway.Prelude.Int.{ℤ, pos, int64_half}
use llmgateway.Time.{Time}
use llmgateway.LogStore.Memory.{RequestLog, Memory}
use llmgateway.LogStore.Stats.{
  Stat, Stats, stat_of, is_failed, is_success, count_stat, count_at, count_request, stats_loop,
  stats_since,
}
use llmgateway.LogStore.Sums.{sum_of, window, stats_loop-sum_of, stats_loop-count}

-- A group behind a write, and behind the count of one record.
stat_of-insert :
    (k j : String) (s : Stat) (d : Dict Stat)
    → stat_of k (insert j s d) ≡ (if str_eq j k then s else stat_of k d)
unfolding stat_of
stat_of-insert k j s d = elim (Bool-cases (str_eq j k)) [
  | inl e ↦ rw (stat_of, lookup-insert j k s d, e) refl
  | inr e ↦ rw (stat_of, lookup-insert j k s d, e) refl
]

stat_of-count_at :
    (k j : String) (r : RequestLog) (d : Dict Stat)
    → stat_of k (count_at j r d) ≡ (if str_eq j k then count_stat r (stat_of k d) else stat_of k d)
unfolding count_at
stat_of-count_at k j r d =
    stat_of-insert k j (count_stat r (stat_of j d)) d ∙ elim (Bool-cases (str_eq j k)) [
      | inl e ↦ rw e (ap (λ i. count_stat r (stat_of i d)) (ground (arith, eq_iff j k)))
      | inr e ↦ rw e refl
    ]

-- What a group has counted: the requests of its records, the failures among them, and the sum of
-- their tokens.
pub record Counted (wanted : RequestLog → Bool) (rs : List RequestLog) (s : Stat) : Type 0 where
  pub requests : s.requests ≡ pos (length (keep_if wanted rs))
  pub errors : s.errors ≡ pos (length (keep_if (λ r. wanted r && is_failed r) rs))
  pub tokens : s.tokens ≡ sum_of (λ r. r.total_tokens) (keep_if wanted rs) (pos 0)

if-field :
    (field : Stat → ℤ) (b : Bool) (s t : Stat)
    → field (if b then s else t) ≡ (if b then field s else field t)
if-field field true s t = refl
if-field field false s t = refl

if-if : (b c : Bool) (x y : ℤ) → (if b then if c then x else y else y) ≡ (if b && c then x else y)
if-if true c x y = refl
if-if false c x y = refl

-- A group that counts the records that are wanted, from nothing on.
group-Counted :
    (group : Stats → Stat) (wanted : RequestLog → Bool)
    → ((r : RequestLog) (s : Stats)
        → group (count_request r s) ≡ (if wanted r then count_stat r (group s) else group s))
    → (since : Time) (rs : List RequestLog) (s : Stats)
    → group s ≡ record { requests = pos 0; errors = pos 0; tokens = pos 0 }
    → length rs < int64_half
    → Counted wanted (window since rs) (group (stats_loop since rs s))
unfolding count_stat
group-Counted group wanted h since rs s start small = record {
  requests =
      stats_loop-count (λ s. (group s).requests) wanted
        (λ r t. ap (λ g. g.requests) (h r t) ∙ if-field (λ g. g.requests) (wanted r) _ _) since rs s
        (ap (λ g. g.requests) start) small;
  errors =
      stats_loop-count (λ s. (group s).errors) (λ r. wanted r && is_failed r)
        (λ r t.
          ap (λ g. g.errors) (h r t)
          ∙ if-field (λ g. g.errors) (wanted r) _ _
          ∙ if-if (wanted r) (is_failed r) _ _)
        since rs s (ap (λ g. g.errors) start) small;
  tokens =
      stats_loop-sum_of (λ s. (group s).tokens) wanted (λ r. r.total_tokens)
        (λ r t. ap (λ g. g.tokens) (h r t) ∙ if-field (λ g. g.tokens) (wanted r) _ _) since rs s
      ∙ ap (λ g. sum_of (λ r. r.total_tokens) (keep_if wanted (window since rs)) g.tokens) start;
}

-- The statistics of a log: the totals are those of the records in the window, and every group is
-- that of its own records.
pub record Totals (rs : List RequestLog) (s : Stats) : Type 0 where
  pub total_requests : s.total_requests ≡ pos (length rs)
  pub success_total : s.success_total ≡ pos (length (keep_if is_success rs))
  pub error_total : s.error_total ≡ pos (length (keep_if (λ r. not (is_success r)) rs))
  pub prompt_tokens : s.prompt_tokens ≡ sum_of (λ r. r.prompt_tokens) rs (pos 0)
  pub completion_tokens : s.completion_tokens ≡ sum_of (λ r. r.completion_tokens) rs (pos 0)
  pub total_tokens : s.total_tokens ≡ sum_of (λ r. r.total_tokens) rs (pos 0)
  pub by_model : (k : String) → Counted (λ r. str_eq r.model k) rs (stat_of k s.by_model)
  pub by_backend : (k : String) → Counted (λ r. str_eq r.backend_id k) rs (stat_of k s.by_backend)
  pub by_api_key : (k : String) → Counted (λ r. str_eq r.api_key_id k) rs (stat_of k s.by_api_key)
  pub by_client_ip :
      (k : String)
      → Counted
          (λ r. not (str_eq r.client_ip "") && str_eq r.client_ip k)
          rs
          (stat_of k s.by_client_ip)

keep_if-all {ℓ} : {A : Type ℓ} (xs : List A) → keep_if (λ x. true) xs ≡ xs
unfolding keep_if
keep_if-all [] = refl
keep_if-all (x ∷ xs) = ap (◌∷◌ x) (keep_if-all xs)

if-not : (b : Bool) (x y : ℤ) → (if b then y else x) ≡ (if not b then x else y)
if-not true x y = refl
if-not false x y = refl

count_at_ip :
    (k : String) (r : RequestLog) (d : Dict Stat)
    → stat_of k (if str_eq r.client_ip "" then d else count_at r.client_ip r d) ≡ (
        if not (str_eq r.client_ip "") && str_eq r.client_ip k
        then count_stat r (stat_of k d)
        else stat_of k d)
count_at_ip k r d = elim (Bool-cases (str_eq r.client_ip "")) [
  | inl e ↦ rw e refl
  | inr e ↦ rw e (stat_of-count_at k r.client_ip r d)
]

-- The statistics since a time count right. In the records that are not older than the time, they
-- count all, the successes and the others, and add up the tokens as the code does; and for every
-- model, every backend, every key and every client address that is not empty, the entry of its map
-- has the number of its own records, of the failures among them, and the sum of their tokens, zero
-- where there is no record. The log holds fewer than 2^63 records.
pub stats_since-Totals :
    (since : Time) (m : Memory)
    → length m.requests < int64_half
    → Totals (window since m.requests) (stats_since since m)
unfolding stats_since count_request stat_of lookup
stats_since-Totals since m small =
    let rs = m.requests in
    record {
      total_requests =
          stats_loop-count (λ s. s.total_requests) (λ r. true) (λ r s. refl) since rs _ refl small
          ∙ ap (λ xs. pos (length xs)) (keep_if-all (window since rs));
      success_total =
          stats_loop-count (λ s. s.success_total) is_success (λ r s. refl) since rs _ refl small;
      error_total =
          stats_loop-count (λ s. s.error_total) (λ r. not (is_success r))
            (λ r s. if-not (is_success r) _ _) since rs _ refl small;
      prompt_tokens =
          stats_loop-sum_of (λ s. s.prompt_tokens) (λ r. true) (λ r. r.prompt_tokens) (λ r s. refl)
            since rs _
          ∙ ap (λ xs. sum_of (λ r. r.prompt_tokens) xs (pos 0)) (keep_if-all (window since rs));
      completion_tokens =
          stats_loop-sum_of (λ s. s.completion_tokens) (λ r. true) (λ r. r.completion_tokens)
            (λ r s. refl) since rs _
          ∙ ap (λ xs. sum_of (λ r. r.completion_tokens) xs (pos 0)) (keep_if-all (window since rs));
      total_tokens =
          stats_loop-sum_of (λ s. s.total_tokens) (λ r. true) (λ r. r.total_tokens) (λ r s. refl)
            since rs _
          ∙ ap (λ xs. sum_of (λ r. r.total_tokens) xs (pos 0)) (keep_if-all (window since rs));
      by_model = λ k.
          group-Counted (λ s. stat_of k s.by_model) (λ r. str_eq r.model k)
            (λ r s. stat_of-count_at k r.model r s.by_model) since rs _ refl small;
      by_backend = λ k.
          group-Counted (λ s. stat_of k s.by_backend) (λ r. str_eq r.backend_id k)
            (λ r s. stat_of-count_at k r.backend_id r s.by_backend) since rs _ refl small;
      by_api_key = λ k.
          group-Counted (λ s. stat_of k s.by_api_key) (λ r. str_eq r.api_key_id k)
            (λ r s. stat_of-count_at k r.api_key_id r s.by_api_key) since rs _ refl small;
      by_client_ip = λ k.
          group-Counted (λ s. stat_of k s.by_client_ip)
            (λ r. not (str_eq r.client_ip "") && str_eq r.client_ip k)
            (λ r s. count_at_ip k r s.by_client_ip) since rs _ refl small;
    }
