-- ===== src/Proxy/Unmodified.antt =====
-- What the client gets of a backend's reply.
use llmgateway.Prelude.{
  ℕ, ◌≡◌, refl, inl, inr, Bool, true, false, ◌&&◌, List, [], ◌++◌, Option, none, some, arith,
  if◌then◌else◌, Bool-cases, sym, ap, ◌∙◌,
}
use mathlib.Core.List.{append-nil}
use llmgateway.Proxy.{HttpPackage}
use llmgateway.Proxy.Stream.{
  Slice, LinePackage, Wake, Ending, Stream, ReadError, read_ended, stream_loop, start_stream,
}
use llmgateway.Proxy.Lines.{sent}
use llmgateway.Proxy.Passthrough.{stream_loop-sent}
use llmgateway.Proxy.Forward.{
  Response, Forwarded, answered, is_event_stream, pass_response, streamed, stream_response, forward,
}

if-true {ℓ} : {A : Type ℓ} (b : Bool) (x y : A) → b ≡ true → (if b then x else y) ≡ x
if-true b x y e = rw e refl

if-false {ℓ} : {A : Type ℓ} (b : Bool) (x y : A) → b ≡ false → (if b then x else y) ≡ y
if-false b x y e = rw e refl

module _ (P : HttpPackage) (L : LinePackage) where
  -- The client has the backend's status. Of a stream it has a beginning of the bytes that were sent,
  -- and all of them if the stream was read to its end; of another reply it has the body.
  pub record IsReply (as_stream : Bool) (wakes : List Wake) (r : Response) (body : List ℕ)
      (slices : List Slice) (f : Forwarded) : Type 0 where
    pub status : f.status ≡ r.status_code
    pub code : f.written.code ≡ some r.status_code
    pub rest : List ℕ
    pub bytes : (if as_stream then sent slices else body) ≡ f.written.bytes ++ rest
    pub whole : as_stream ≡ false → body ≡ f.written.bytes
    pub ended :
        as_stream ≡ true
        → (err : ReadError) → (stream_loop L wakes (start_stream slices)).1 ≡ some (read_ended err)
        → sent slices ≡ f.written.bytes

  streamed-some :
      (r : Response) (s : Stream) (ending : Option Ending) (f : Forwarded)
      → streamed P L r (s, ending) ≡ some f
      → (f.status ≡ r.status_code)
        × ((f.written.code ≡ some r.status_code) × (s.written ≡ f.written.bytes))
  unfolding streamed
  streamed-some r s none f h = cc
  streamed-some r s (some e) f h = (ground (arith, h), (ground (arith, h), ground (arith, h)))

  stream_response-IsReply :
      (wakes : List Wake) (r : Response) (body : List ℕ) (slices : List Slice) (f : Forwarded)
      → stream_response P L true wakes r slices ≡ some f
      → IsReply true wakes r body slices f
  unfolding stream_response
  stream_response-IsReply wakes r body slices f h =
      let run = stream_loop L wakes (start_stream slices) in
      let ((rest, part), whole) = stream_loop-sent L wakes slices in
      let (status, (code, got)) = streamed-some r run.0 run.1 f h in
      record {
        status = status;
        code = code;
        rest = rest;
        bytes = part ∙ ap (λ x. x ++ rest) got;
        whole = λ e. cc;
        ended = λ e err q. whole err q ∙ got;
      }

  pass_response-IsReply :
      (wakes : List Wake) (r : Response) (body : List ℕ) (slices : List Slice) (f : Forwarded)
      → some (pass_response P L r (body, none)) ≡ some f
      → IsReply false wakes r body slices f
  unfolding pass_response
  pass_response-IsReply wakes r body slices f h =
      let got : body ≡ f.written.bytes = ground (arith, h) in
      record {
        status = ground (arith, h);
        code = ground (arith, h);
        rest = [];
        bytes = got ∙ sym (append-nil f.written.bytes);
        whole = λ e. got;
        ended = λ e. cc;
      }

  -- A reply of the backend is passed on as it is, byte for byte and with its status, if the writer
  -- can flush and, for a reply that is not streamed, its body was read without an error. A
  -- reply is streamed if the request asked for a stream and its content type is that of one: then
  -- the client has a beginning of what the backend sent, and all of it if the loop ended with the
  -- end of the reply, whatever woke the loop, wherever a write failed and whatever the sizes of the
  -- reader's slices. Of any other reply the client has the whole body.
  pub forward-IsReply :
      (is_stream : Bool) (wakes : List Wake) (r : Response) (body : List ℕ) (slices : List Slice)
      (f : Forwarded)
      → forward P L is_stream true wakes (answered r (body, none) slices) ≡ some f
      → IsReply (is_stream && is_event_stream P L r) wakes r body slices f
  unfolding forward
  forward-IsReply is_stream wakes r body slices f h =
      elim (Bool-cases (is_stream && is_event_stream P L r)) [
        | inl e ↦ rw e (
            stream_response-IsReply wakes r body slices f
              (sym (if-true (is_stream && is_event_stream P L r) _ _ e) ∙ h))
        | inr e ↦ rw e (
            pass_response-IsReply wakes r body slices f
              (sym (if-false (is_stream && is_event_stream P L r) _ _ e) ∙ h))
      ]
