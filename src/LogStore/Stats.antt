-- ===== src/LogStore/Stats.antt =====
-- `StatsSince` of internal/logstore/logstore.go: the totals of a window, over all and by model,
-- backend, key and client address. The loop goes from the oldest record on.
use llmgateway.Prelude.{Bool, ◌&&◌, List, [], ◌∷◌, none, some, String, str_eq, ltb, if◌then◌else◌}
use llmgateway.Prelude.Dict.{Dict, lookup, insert}
use llmgateway.Prelude.Int.{ℤ, pos, inc, add_int64, leb_ℤ, ltb_ℤ}
use llmgateway.Time.{Time}
use llmgateway.LogStore.Memory.{RequestLog, Memory}

-- `ModelStat`, `BackendStat`, `KeyStat` and `ClientIPStat` have the same fields.
pub record Stat : Type 0 where
  pub requests : ℤ
  pub errors : ℤ
  pub tokens : ℤ

pub record Stats : Type 0 where
  pub total_requests : ℤ
  pub success_total : ℤ
  pub error_total : ℤ
  pub prompt_tokens : ℤ
  pub completion_tokens : ℤ
  pub total_tokens : ℤ
  pub by_model : Dict Stat
  pub by_backend : Dict Stat
  pub by_api_key : Dict Stat
  pub by_client_ip : Dict Stat

-- A read of a map: the zero value where there is no entry.
unfoldable pub stat_of : String → Dict Stat → Stat
stat_of k d = elim (lookup k d) [
  | none ↦ record { requests = pos 0; errors = pos 0; tokens = pos 0 }
  | some s ↦ s
]

unfoldable pub is_failed : RequestLog → Bool
is_failed r = leb_ℤ (pos 400) r.status_code

unfoldable pub is_success : RequestLog → Bool
is_success r = leb_ℤ (pos 200) r.status_code && ltb_ℤ r.status_code (pos 400)

unfoldable pub count_stat : RequestLog → Stat → Stat
unfolding is_failed
count_stat r s = record {
  requests = inc s.requests;
  errors = if is_failed r then inc s.errors else s.errors;
  tokens = add_int64 s.tokens r.total_tokens;
}

-- One of the groups: read, count, and write back.
unfoldable pub count_at : String → RequestLog → Dict Stat → Dict Stat
unfolding stat_of count_stat
count_at k r d = insert k (count_stat r (stat_of k d)) d

-- The body of the loop, for a record of the window.
unfoldable pub count_request : RequestLog → Stats → Stats
unfolding is_success count_at
count_request r s = record {
  total_requests = inc s.total_requests;
  success_total = if is_success r then inc s.success_total else s.success_total;
  error_total = if is_success r then s.error_total else inc s.error_total;
  prompt_tokens = add_int64 s.prompt_tokens r.prompt_tokens;
  completion_tokens = add_int64 s.completion_tokens r.completion_tokens;
  total_tokens = add_int64 s.total_tokens r.total_tokens;
  by_model = count_at r.model r s.by_model;
  by_backend = count_at r.backend_id r s.by_backend;
  by_api_key = count_at r.api_key_id r s.by_api_key;
  by_client_ip =
      if str_eq r.client_ip "" then s.by_client_ip else count_at r.client_ip r s.by_client_ip;
}

unfoldable pub stats_loop : Time → List RequestLog → Stats → Stats
unfolding count_request
stats_loop since [] s = s
stats_loop since (r ∷ rs) s =
    stats_loop since rs (if ltb r.created_at since then s else count_request r s)

unfoldable pub stats_since : Time → Memory → Stats
unfolding stats_loop
stats_since since m = stats_loop since m.requests (record {
  total_requests = pos 0;
  success_total = pos 0;
  error_total = pos 0;
  prompt_tokens = pos 0;
  completion_tokens = pos 0;
  total_tokens = pos 0;
  by_model = [];
  by_backend = [];
  by_api_key = [];
  by_client_ip = [];
})
