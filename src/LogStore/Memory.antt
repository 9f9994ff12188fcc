-- ===== src/LogStore/Memory.antt =====
-- `Memory` of internal/logstore/logstore.go: request logs and audit events, oldest first, with
-- eviction from the old end. The free-form fields that no operation reads (the metadata and the
-- values of an audit event) are left out. Times are in nanoseconds.
use llmgateway.Prelude.{
  ℕ, zero, suc, ◌/◌, Bool, true, false, not, ◌&&◌, ◌||◌, List, [], ◌∷◌, ◌++◌, Option, none, some,
  String, str_eq, ltb, leb, length, drop, take, if◌then◌else◌,
}
use mathlib.Core.List.{reverse}
use llmgateway.Prelude.Int.{ℤ, pos, is_pos, is_zero, ltb_ℤ, leb_ℤ, add_int64, pos_part}
use llmgateway.Time.{Time}

pub record RequestLog : Type 0 where
  pub id : String
  pub request_id : String
  pub api_key_id : String
  pub api_key_name : String
  pub client_ip : String
  pub model : String
  pub internal_model : String
  pub backend_id : String
  pub endpoint : String
  pub stream : Bool
  pub status_code : ℤ
  pub error_code : String
  pub prompt_tokens : ℤ
  pub completion_tokens : ℤ
  pub total_tokens : ℤ
  pub reasoning_tokens : ℤ
  pub latency_ms : ℤ
  pub ttft_ms : ℤ
  pub raw_request : String
  pub raw_response : String
  pub created_at : Time

pub record AuditEvent : Type 0 where
  pub id : String
  pub admin_user : String
  pub action : String
  pub target_type : String
  pub target_id : String
  pub ip : String
  pub user_agent : String
  pub created_at : Time

pub record LogQuery : Type 0 where
  pub request_id : String
  pub api_key_id : String
  pub client_ip : String
  pub model : String
  pub backend_id : String
  pub endpoint : String
  pub status_code : ℤ
  pub error_code : String
  pub stream : Option Bool
  pub since : Option Time
  pub until : Option Time
  pub limit : ℤ
  pub offset : ℤ

pub record AuditQuery : Type 0 where
  pub admin_user : String
  pub action : String
  pub target_type : String
  pub target_id : String
  pub since : Option Time
  pub until : Option Time
  pub limit : ℤ
  pub offset : ℤ

-- `max_recs` is positive by `NewMemory`.
pub record Memory : Type 0 where
  pub requests : List RequestLog
  pub audit : List AuditEvent
  pub max_recs : ℕ

unfoldable pub new_memory : ℤ → Memory
new_memory max_records = record {
  requests = [];
  audit = [];
  max_recs = if is_pos max_records then pos_part max_records else 50000;
}

-- `evict` of both appends.
unfoldable pub evict_count : ℕ → ℕ
evict_count max_recs = if ltb (max_recs / 10) 1 then 1 else max_recs / 10

-- The body of both appends, on the slice.
unfoldable pub append_bounded {ℓ} : {A : Type ℓ} → ℕ → A → List A → List A
unfolding evict_count drop
append_bounded max_recs x xs =
    let all = xs ++ x ∷ [] in
    if ltb max_recs (length all) then drop (evict_count max_recs) all else all

unfoldable pub append_request : RequestLog → Memory → Memory
unfolding append_bounded
append_request r m = record m { requests = append_bounded m.max_recs r m.requests }

unfoldable pub append_audit : AuditEvent → Memory → Memory
unfolding append_bounded
append_audit e m = record m { audit = append_bounded m.max_recs e m.audit }

-- `q != "" && r != q` fails.
unfoldable pub text_ok : String → String → Bool
text_ok q r = str_eq q "" || str_eq r q

unfoldable pub since_ok : Option Time → Time → Bool
since_ok none t = true
since_ok (some s) t = not (ltb t s)

unfoldable pub until_ok : Option Time → Time → Bool
until_ok none t = true
until_ok (some u) t = not (ltb u t)

unfoldable pub stream_ok : Option Bool → Bool → Bool
stream_ok none b = true
stream_ok (some true) b = b
stream_ok (some false) b = not b

unfoldable pub status_ok : ℤ → ℤ → Bool
status_ok q s = is_zero q || (leb_ℤ q s && leb_ℤ s q)

-- `matchLog(r, q)`
unfoldable pub match_log : LogQuery → RequestLog → Bool
unfolding text_ok since_ok until_ok stream_ok status_ok
match_log q r =
    text_ok q.request_id r.request_id
    && (text_ok q.api_key_id r.api_key_id
        && (text_ok q.client_ip r.client_ip
            && (text_ok q.model r.model
                && (text_ok q.backend_id r.backend_id
                    && (text_ok q.endpoint r.endpoint
                        && (status_ok q.status_code r.status_code
                            && (text_ok q.error_code r.error_code
                                && (stream_ok q.stream r.stream
                                    && (since_ok q.since r.created_at
                                        && (until_ok q.until r.created_at))))))))))

-- The tests of the loop of `QueryAudit`.
unfoldable pub match_audit : AuditQuery → AuditEvent → Bool
unfolding text_ok since_ok until_ok
match_audit q a =
    text_ok q.admin_user a.admin_user
    && (text_ok q.action a.action
        && (text_ok q.target_type a.target_type
            && (text_ok q.target_id a.target_id
                && (since_ok q.since a.created_at && until_ok q.until a.created_at))))

-- `limit` of both queries.
unfoldable pub page_limit : ℤ → ℕ
page_limit limit = if is_pos limit && leb_ℤ limit (pos 1000) then pos_part limit else 200

-- The loop of both queries, newest first: `room` is `limit + offset` less the matches so far.
unfoldable pub collect {ℓ} : {A : Type ℓ} → (A → Bool) → ℕ → List A → List A
collect p room [] = []
collect p zero (x ∷ xs) = []
collect p (suc room) (x ∷ xs) =
    let hit = collect p room xs in
    let miss = collect p (suc room) xs in if p x then x ∷ hit else miss

-- What follows the loop: skip `offset`, keep at most `limit`.
unfoldable pub page {ℓ} : {A : Type ℓ} → ℕ → ℕ → List A → List A
unfolding drop take
page limit offset out =
    if leb (length out) offset
    then []
    else let rest = drop offset out in if ltb limit (length rest) then take limit rest else rest

unfoldable pub query_requests : LogQuery → Memory → List RequestLog
unfolding match_log page_limit collect page
query_requests q m =
    let limit = page_limit q.limit in
    let offset = pos_part q.offset in
    page limit offset
      (collect (match_log q) (pos_part (add_int64 (pos limit) (pos offset))) (reverse m.requests))

-- `QueryAudit`. A negative offset is not set to 0 here, and slicing by it panics: `none`.
unfoldable pub query_audit : AuditQuery → Memory → Option (List AuditEvent)
unfolding match_audit page_limit collect page
query_audit q m =
    let limit = page_limit q.limit in
    let out =
      collect (match_audit q) (pos_part (add_int64 (pos limit) q.offset)) (reverse m.audit) in
    if ltb_ℤ q.offset (pos 0) then none else some (page limit (pos_part q.offset) out)
