-- ===== src/Proxy/Forward.antt =====
-- `Forward` and `passResponse` of internal/proxy/proxy.go, with the headers that `streamResponse` of
-- stream.go writes. What the client gets is a status, headers and bytes.
use llmgateway.Prelude.{
  ℕ, Bool, true, false, not, ◌&&◌, List, [], ◌∷◌, Option, none, some, String, str_append, length,
  if◌then◌else◌,
}
use llmgateway.Prelude.Int.{ℤ, pos, leb_ℤ, ltb_ℤ}
use llmgateway.Auth.{strip}
use llmgateway.Handlers.Usage.{Usage}
use llmgateway.Proxy.{
  Header, HttpPackage, ApiError, api_error, internal_error, set_header, del_header, get_header,
  copy_response_headers,
}
use llmgateway.Proxy.Stream.{
  Slice, LinePackage, Wake, Ending, is_failure, Stream, stream_loop, start_stream,
}

-- What the client has got of the reply: nothing, or a status with its headers and bytes.
pub record Written : Type 0 where
  pub code : Option ℤ
  pub headers : Header
  pub bytes : List ℕ

-- The result of `Forward`, with what the callbacks for a reply that is no stream have got. While a
-- stream is still waiting there is no result, `none`.
pub record Forwarded : Type 0 where
  pub status : ℤ
  pub failed : Bool
  pub written : Written
  pub usage : List Usage

pub record Response : Type 0 where
  pub status_code : ℤ
  pub headers : Header

-- What the request to the backend comes to. The body of a response is read whole, with the text of
-- an error, or in slices.
pub data Exchange : Type 0 where
  bad_request timed_out canceled : Exchange
  unreachable : String → Exchange
  answered : Response → List ℕ × Option String → List Slice → Exchange

module _ (P : HttpPackage) (L : LinePackage) where
  -- `WriteError(w, status, err)`
  unfoldable pub write_error : ℤ → ApiError → Written
  unfolding set_header
  write_error status err = record {
    code = some status;
    headers = set_header P "Content-Type" "application/json" [];
    bytes = P.encode_error err;
  }

  -- A result with an error that is written.
  unfoldable pub refuse : ℤ → ApiError → Forwarded
  unfolding write_error
  refuse status err = record {
    status = status;
    failed = true;
    written = write_error status err;
    usage = [];
  }

  unfoldable pub nothing_written : Written
  nothing_written = record { code = none; headers = []; bytes = [] }

  -- `isEventStream(resp)`
  unfoldable pub is_event_stream : Response → Bool
  unfolding get_header strip
  is_event_stream r = elim (strip "text/event-stream" (get_header P "Content-Type" r.headers)) [
    | none ↦ false
    | some rest ↦ true
  ]

  -- The call of `OnUsage`, with `extractUsage`.
  unfoldable pub on_usage : ℤ → List ℕ → List Usage
  on_usage status body =
      if leb_ℤ (pos 200) status && ltb_ℤ status (pos 300)
      then elim (P.decode_usage body) [ none ↦ [] | some u ↦ u ∷ [] ]
      else []

  -- `passResponse(w, resp, start, opts)`. The source ignores an error of the write to the client: the
  -- bytes are those handed to the writer.
  unfoldable pub pass_response : Response → List ℕ × Option String → Forwarded
  unfolding refuse api_error copy_response_headers set_header on_usage
  pass_response r (body, some err) = refuse (pos 502) (
      api_error "backend_error" (str_append "Failed to read backend response: " err)
        "backend_read_failed")
  pass_response r (body, none) = record {
    status = r.status_code;
    failed = false;
    written = record {
      code = some r.status_code;
      headers =
          set_header P "Content-Length" (P.itoa (length body))
            (copy_response_headers P [] r.headers);
      bytes = body;
    };
    usage = on_usage r.status_code body;
  }

  -- The headers of a stream.
  unfoldable pub stream_headers : Header → Header
  unfolding copy_response_headers set_header del_header
  stream_headers src = del_header P "Content-Length" (
      set_header P "Connection" "keep-alive" (
        set_header P "Cache-Control" "no-cache"
          (set_header P "Content-Type" "text/event-stream" (copy_response_headers P [] src))))

  -- The result of `streamResponse` from the state of its loop.
  unfoldable pub streamed : Response → Stream × Option Ending → Option Forwarded
  unfolding stream_headers is_failure
  streamed r (s, none) = none
  streamed r (s, some e) = some (record {
    status = r.status_code;
    failed = is_failure e;
    written = record {
      code = some r.status_code;
      headers = stream_headers r.headers;
      bytes = s.written;
    };
    usage = s.stream_usage;
  })

  -- `streamResponse(w, resp, start, opts)`. `can_flush` tells whether the writer is a flusher.
  unfoldable pub stream_response : Bool → List Wake → Response → List Slice → Option Forwarded
  unfolding refuse internal_error streamed stream_loop start_stream
  stream_response can_flush wakes r slices =
      if not can_flush
      then some (
          refuse (pos 500)
            (internal_error "Streaming not supported by server" "streaming_unsupported"))
      else streamed r (stream_loop L wakes (start_stream slices))

  -- `Forward(ctx, w, r, opts)` behind the request.
  unfoldable pub forward : Bool → Bool → List Wake → Exchange → Option Forwarded
  unfolding refuse api_error nothing_written is_event_stream pass_response stream_response
  forward is_stream can_flush wakes bad_request =
      some (record { status = pos 500; failed = true; written = nothing_written; usage = [] })
  forward is_stream can_flush wakes timed_out =
      some (
        refuse (pos 504)
          (api_error "backend_timeout" "Backend request timed out" "backend_timeout"))
  forward is_stream can_flush wakes canceled =
      some (record { status = pos 499; failed = true; written = nothing_written; usage = [] })
  forward is_stream can_flush wakes (unreachable err) = some (
      refuse (pos 502) (
        api_error "backend_error" (str_append "Failed to reach backend: " err)
          "backend_unreachable"))
  forward is_stream can_flush wakes (answered r whole slices) =
      if is_stream && is_event_stream r
      then stream_response can_flush wakes r slices
      else some (pass_response r whole)
