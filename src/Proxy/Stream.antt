-- ===== src/Proxy/Stream.antt =====
-- internal/proxy/stream.go: the lines that `readLine` puts together from the slices of the reader,
-- and the loop of `streamResponse`. What the reader and the writer of the connections do, and in
-- which order the loop is woken, are arguments. A line is a list of bytes.
use llmgateway.Prelude.{
  ℕ, ◌==◌, Bool, true, false, not, ◌&&◌, List, [], ◌∷◌, ◌++◌, Option, none, some, String, length,
  take, if◌then◌else◌,
}
use llmgateway.Prelude.Bytes.{bytes}
use llmgateway.Prelude.Int.{ℤ, pos, is_pos}
use llmgateway.Store.Pattern.{bytes_eq, strip_prefix}
use llmgateway.Handlers.Usage.{Usage}

-- The error of a read: the end of the backend's reply, or another.
pub data ReadError : Type 0 where
  eof : ReadError
  broken : String → ReadError

-- How one `ReadSlice('\n')` ends: with the newline, with a full buffer, or with an error.
pub data SliceEnd : Type 0 where
  newline buffer_full : SliceEnd
  failed : ReadError → SliceEnd

abbrev pub Slice : Type 0
Slice = List ℕ × SliceEnd

-- `readResult`
abbrev pub ReadResult : Type 0
ReadResult = List ℕ × Option ReadError

-- A read result goes into the channel unless it is a line of no bytes without an error.
unfoldable pub send : List ℕ → List ReadResult → List ReadResult
send [] later = later
send (c ∷ line) later = (c ∷ line, none) ∷ later

-- The producer: `readLine` in a loop, until an error. `out` is the line that `readLine` has put
-- together so far. Where there is no slice, it waits for the backend.
unfoldable pub read_lines : List ℕ → List Slice → List ReadResult
unfolding send
read_lines out [] = []
read_lines out ((chunk, newline) ∷ rest) = send (out ++ chunk) (read_lines [] rest)
read_lines out ((chunk, buffer_full) ∷ rest) = read_lines (out ++ chunk) rest
read_lines out ((chunk, failed err) ∷ rest) = (out ++ chunk, some err) ∷ []

-- What `bytes.TrimSpace` does, and the usage block of a text of JSON, if it has one.
pub record LinePackage : Type 0 where
  pub trim_space : List ℕ → List ℕ
  pub decode_usage : List ℕ → Option Usage

module _ (P : LinePackage) where
  -- `hasContent(line)`
  unfoldable pub has_content : List ℕ → Bool
  has_content line =
      if length (P.trim_space line) == 0
      then false
      else elim (strip_prefix (bytes ":") (P.trim_space line)) [ none ↦ true | some rest ↦ false ]

  unfoldable pub payload_usage : List ℕ → Option Usage
  payload_usage payload =
      if length payload == 0
      then none
      else if bytes_eq payload (bytes "[DONE]")
      then none
      else P.decode_usage payload

  -- `parseChunkUsage(line)`
  unfoldable pub parse_chunk_usage : List ℕ → Option Usage
  unfolding payload_usage
  parse_chunk_usage line = elim (strip_prefix (bytes "data:") (P.trim_space line)) [
    | none ↦ none
    | some rest ↦ payload_usage (P.trim_space rest)
  ]

-- How `streamResponse` returns: the client has gone, the idle timer has fired, a write has failed,
-- the channel is closed, or the read has ended.
pub data Ending : Type 0 where
  client_gone idle_timeout write_failed channel_closed : Ending
  read_ended : ReadError → Ending

-- It returns an error.
unfoldable pub is_failure : Ending → Bool
is_failure idle_timeout = true
is_failure write_failed = true
is_failure _ = false

-- What wakes the loop: the client's context, the idle timer, or the channel. In the last case the
-- write of the line succeeds, or it fails behind some of its bytes.
pub data Wake : Type 0 where
  client_done timer_fired : Wake
  received : Option ℕ → Wake

-- The state of the loop, with what the client and the callbacks have got. `lines` are the read
-- results that are still to come.
pub record Stream : Type 0 where
  pub lines : List ReadResult
  pub written : List ℕ
  pub first_chunk_seen : Bool
  pub captured_usage : Option Usage
  pub stream_usage : List Usage
  pub stream_chunks : List (List ℕ)

module _ (P : LinePackage) where
  -- The callbacks behind a line that was written.
  unfoldable pub report : List ℕ → Stream → Stream
  unfolding parse_chunk_usage
  report line s =
      let seen : Stream = elim s.captured_usage [
        | some u ↦ s
        | none ↦ elim (parse_chunk_usage P line) [
          | none ↦ s
          | some u ↦ record s { captured_usage = some u; stream_usage = s.stream_usage ++ u ∷ [] }
        ]
      ] in
      record seen { stream_chunks = seen.stream_chunks ++ line ∷ [] }

  -- A line of at least one byte: its write, and the callbacks.
  unfoldable pub write_line : Option ℕ → List ℕ → Stream → Stream × Bool
  unfolding has_content report
  write_line (some n) line s = (
    record s {
      first_chunk_seen =
          if not s.first_chunk_seen && has_content P line then true else s.first_chunk_seen;
      written = s.written ++ take n line;
    },
    false,
  )
  write_line none line s = (
    report line (record s {
      first_chunk_seen =
          if not s.first_chunk_seen && has_content P line then true else s.first_chunk_seen;
      written = s.written ++ line;
    }),
    true,
  )

  unfoldable pub pass_line : Option ℕ → List ℕ → Stream → Stream × Bool
  unfolding write_line
  pass_line fault [] s = (s, true)
  pass_line fault (c ∷ line) s = write_line fault (c ∷ line) s

  -- The end of a round, on the error of the read result.
  unfoldable pub end_of : Bool → Option ReadError → Option Ending
  end_of false err = some write_failed
  end_of true (some err) = some (read_ended err)
  end_of true none = none

  -- A round on what comes out of the channel. Where there is nothing more, it has been closed: the
  -- loop is not woken by a channel whose producer waits.
  unfoldable pub receive_line : Option ℕ → List ReadResult → Stream → Stream × Option Ending
  unfolding pass_line end_of
  receive_line fault [] s = (s, some channel_closed)
  receive_line fault ((line, err) ∷ rest) s =
      let (next, went) = pass_line fault line (record s { lines = rest }) in (next, end_of went err)

  unfoldable pub stream_round : Wake → Stream → Stream × Option Ending
  unfolding receive_line
  stream_round client_done s = (s, some client_gone)
  stream_round timer_fired s = (s, some idle_timeout)
  stream_round (received fault) s = receive_line fault s.lines s

  -- The loop, with `none` while it still waits.
  unfoldable pub stream_loop : List Wake → Stream → Stream × Option Ending
  unfolding stream_round
  stream_loop [] s = (s, none)
  stream_loop (w ∷ ws) s =
      let (next, ending) = stream_round w s in
      let rest = stream_loop ws next in elim ending [ some e ↦ (next, some e) | none ↦ rest ]

-- The state in which the loop starts.
unfoldable pub start_stream : List Slice → Stream
unfolding read_lines
start_stream slices = record {
  lines = read_lines [] slices;
  written = [];
  first_chunk_seen = false;
  captured_usage = none;
  stream_usage = [];
  stream_chunks = [];
}

-- The idle timeout: of the options, of the backend, or 30 seconds.
unfoldable pub idle_ms : ℤ → ℤ → ℤ
idle_ms asked of_backend =
    if is_pos asked then asked else if is_pos of_backend then of_backend else pos 30_000
