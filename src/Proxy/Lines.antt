-- ===== src/Proxy/Lines.antt =====
-- The lines of a stream, and the bytes that the backend sent.
use llmgateway.Prelude.{ℕ, ◌≡◌, refl, sym, ◌∙◌, Bool, true, false, List, [], ◌∷◌, ◌++◌, none, some}
use mathlib.Core.List.{append-nil, append_assoc}
use llmgateway.Proxy.Stream.{Slice, newline, buffer_full, failed, ReadResult, send, read_lines}

-- What the backend sent: the slices up to the first error.
abbrev pub sent : List Slice → List ℕ
sent [] = []
sent ((chunk, newline) ∷ rest) = chunk ++ sent rest
sent ((chunk, buffer_full) ∷ rest) = chunk ++ sent rest
sent ((chunk, failed err) ∷ rest) = chunk

unfoldable pub joined : List ReadResult → List ℕ
joined [] = []
joined ((line, err) ∷ rest) = line ++ joined rest

-- What `readLine` holds back while it waits.
unfoldable pub pending : List ℕ → List Slice → List ℕ
pending out [] = out
pending out ((chunk, newline) ∷ rest) = pending [] rest
pending out ((chunk, buffer_full) ∷ rest) = pending (out ++ chunk) rest
pending out ((chunk, failed err) ∷ rest) = []

-- Nothing comes behind an error.
abbrev pub EndsOnce : List ReadResult → Type 0
EndsOnce [] = Unit
EndsOnce ((line, none) ∷ rest) = EndsOnce rest
EndsOnce ((line, some err) ∷ rest) = rest ≡ []

joined-send :
    (line : List ℕ) (later : List ReadResult) → joined (send line later) ≡ line ++ joined later
unfolding send joined
joined-send [] later = refl
joined-send (c ∷ line) later = refl

send-EndsOnce :
    (line : List ℕ) (later : List ReadResult) → EndsOnce later → EndsOnce (send line later)
unfolding send
send-EndsOnce [] later h = h
send-EndsOnce (c ∷ line) later h = h

pub read_lines-joined :
    (out : List ℕ) (slices : List Slice)
    → out ++ sent slices ≡ joined (read_lines out slices) ++ pending out slices
unfolding read_lines pending joined
read_lines-joined out [] = simp append-nil
read_lines-joined out ((chunk, newline) ∷ rest) =
    simp (joined-send, append_assoc) (rw (← read_lines-joined [] rest) refl)
read_lines-joined out ((chunk, buffer_full) ∷ rest) =
    sym (append_assoc out chunk (sent rest)) ∙ read_lines-joined (out ++ chunk) rest
read_lines-joined out ((chunk, failed err) ∷ rest) = simp append-nil

pub read_lines-EndsOnce : (out : List ℕ) (slices : List Slice) → EndsOnce (read_lines out slices)
unfolding read_lines
read_lines-EndsOnce out [] = tt
read_lines-EndsOnce out ((chunk, newline) ∷ rest) =
    send-EndsOnce (out ++ chunk) (read_lines [] rest) (read_lines-EndsOnce [] rest)
read_lines-EndsOnce out ((chunk, buffer_full) ∷ rest) = read_lines-EndsOnce (out ++ chunk) rest
read_lines-EndsOnce out ((chunk, failed err) ∷ rest) = refl

unfoldable pub has_error : List ReadResult → Bool
has_error [] = false
has_error ((line, none) ∷ rest) = has_error rest
has_error ((line, some err) ∷ rest) = true

send-has_error :
    (line : List ℕ) (later : List ReadResult) → has_error (send line later) ≡ has_error later
unfolding send has_error
send-has_error [] later = refl
send-has_error (c ∷ line) later = refl

pub read_lines-pending :
    (out : List ℕ) (slices : List Slice)
    → has_error (read_lines out slices) ≡ true
    → pending out slices ≡ []
unfolding read_lines pending has_error
read_lines-pending out [] h = cc
read_lines-pending out ((chunk, newline) ∷ rest) h =
    read_lines-pending [] rest (sym (send-has_error (out ++ chunk) (read_lines [] rest)) ∙ h)
read_lines-pending out ((chunk, buffer_full) ∷ rest) h = read_lines-pending (out ++ chunk) rest h
read_lines-pending out ((chunk, failed err) ∷ rest) h = refl
