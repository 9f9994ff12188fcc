-- ===== src/Proxy/Tests.antt =====
-- A stream of two lines, the second longer than the buffer, and the headers of one request.
use llmgateway.Prelude.{
  ◌≡◌, refl, true, false, [], ◌∷◌, none, some, str_eq, str_append, All, if◌then◌else◌, ◌&&◌, List,
}
use llmgateway.Prelude.Dict.{lookup}
use llmgateway.Prelude.Bytes.{bytes}
use llmgateway.Prelude.Int.{pos}
use llmgateway.Store.Pattern.{strip_prefix}
use llmgateway.Proxy.{HttpPackage, Header, upstream_headers}
use llmgateway.Proxy.Stream.{LinePackage, Slice, newline, buffer_full, failed, eof, Wake, received}
use llmgateway.Proxy.Forward.{Response, Forwarded, is_event_stream, forward, stream_headers}
use llmgateway.Proxy.Credentials.{MayGo, upstream_headers-authorization}
use llmgateway.Proxy.Unmodified.{IsReply, forward-IsReply}

-- A package that changes no name and finds no usage.
abbrev toy : HttpPackage
toy = record {
  canonical = λ s. s;
  encode_error = λ e. [];
  decode_usage = λ b. none;
  itoa = λ n. "0";
}

abbrev lines : LinePackage
lines = record { trim_space = λ b. b; decode_usage = λ b. none }

abbrev slices : List Slice
slices =
    (1 ∷ 10 ∷ [], newline) ∷ (2 ∷ 3 ∷ [], buffer_full) ∷ (10 ∷ [], newline) ∷ ([], failed eof) ∷ []

abbrev wakes : List Wake
wakes = received none ∷ received none ∷ received none ∷ []

abbrev response : Response
response = record {
  status_code = pos 200;
  headers = ("Content-Type", "text/event-stream" ∷ []) ∷ [];
}

abbrev reply : Forwarded
reply = record {
  status = pos 200;
  failed = false;
  written = record {
    code = some (pos 200);
    headers = stream_headers toy lines response.headers;
    bytes = 1 ∷ 10 ∷ 2 ∷ 3 ∷ 10 ∷ [];
  };
  usage = [];
}

forward-IsReply_example :
    IsReply toy lines (true && is_event_stream toy lines response) wakes response [] slices reply
unfolding forward bytes lookup strip_prefix
forward-IsReply_example = forward-IsReply toy lines true wakes response [] slices reply refl

abbrev client_headers : Header
client_headers =
    ("Authorization", "Bearer sk-client" ∷ []) ∷ ("Cookie", "c=1" ∷ []) ∷ ("X-Trace", "t" ∷ []) ∷ []

upstream_headers-authorization_example :
    All (MayGo "sk-backend") (upstream_headers toy "sk-backend" "" true client_headers)
    × (lookup "Authorization" (upstream_headers toy "sk-backend" "" true client_headers)
        ≡ (if str_eq "sk-backend" "" then none else some (str_append "Bearer " "sk-backend" ∷ [])))
upstream_headers-authorization_example =
    upstream_headers-authorization toy (λ k. refl) "sk-backend" "" true client_headers
