-- ===== src/LogStore/Tests.antt =====
-- Runs of the log's theorems on a small log.
use llmgateway.Prelude.{◌≡◌, false, List, [], ◌∷◌, none, arith, drop, take, keep_if}
use mathlib.Core.List.{reverse}
use llmgateway.Prelude.Int.{pos, pos_part}
use llmgateway.LogStore.Memory.{Memory, RequestLog, LogQuery, page_limit, match_log, query_requests}
use llmgateway.LogStore.Query.{query_requests-take}
use llmgateway.LogStore.Stats.{stats_since}
use llmgateway.LogStore.Sums.{window}
use llmgateway.LogStore.Counted.{Totals, stats_since-Totals}

abbrev a_log : RequestLog
a_log = record {
  id = "l1";
  request_id = "r1";
  api_key_id = "k1";
  api_key_name = "key";
  client_ip = "";
  model = "m";
  internal_model = "m";
  backend_id = "b1";
  endpoint = "/v1/chat/completions";
  stream = false;
  status_code = pos 200;
  error_code = "";
  prompt_tokens = pos 1;
  completion_tokens = pos 1;
  total_tokens = pos 2;
  reasoning_tokens = pos 0;
  latency_ms = pos 3;
  ttft_ms = pos 1;
  raw_request = "";
  raw_response = "";
  created_at = 5;
}

abbrev of_k1 : LogQuery
of_k1 = record {
  request_id = "";
  api_key_id = "k1";
  client_ip = "";
  model = "";
  backend_id = "";
  endpoint = "";
  status_code = pos 0;
  error_code = "";
  stream = none;
  since = none;
  until = none;
  limit = pos 1;
  offset = pos 1;
}

abbrev small : Memory
small = record { requests = []; audit = []; max_recs = 2 }

abbrev three : List RequestLog
three = a_log ∷ record a_log { id = "l2" } ∷ record a_log { id = "l3" } ∷ []

abbrev filled : Memory
filled = record { requests = three; audit = []; max_recs = 5 }

query_requests-take_example :
    query_requests of_k1 filled
    ≡ take
        (page_limit of_k1.limit)
        (drop (pos_part of_k1.offset) (keep_if (match_log of_k1) (reverse filled.requests)))
unfolding page_limit
query_requests-take_example = query_requests-take of_k1 filled (omega arith)

-- The record of another time is left out.
abbrev aged : Memory
aged = record { requests = record a_log { created_at = 1 } ∷ three; audit = []; max_recs = 5 }

stats_since-Totals_example : Totals (window 3 aged.requests) (stats_since 3 aged)
stats_since-Totals_example = stats_since-Totals 3 aged (omega arith)
