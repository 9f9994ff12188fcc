-- ===== src/Proxy/Passthrough.antt =====
-- What of a stream gets to the client.
use llmgateway.Prelude.{
  ℕ, zero, suc, ◌≡◌, refl, sym, ap, ◌∙◌, inl, inr, Bool, true, false, List, [], ◌∷◌, ◌++◌, Option,
  none, some, take, drop, arith, Option-cases, not, ◌&&◌, if◌then◌else◌,
}
use mathlib.Core.List.{append-nil, append_assoc}
use mathlib.Core.Path.{subst}
use llmgateway.Proxy.Stream.{
  ReadError, Slice, ReadResult, read_lines, LinePackage, Ending, read_ended, Wake, client_done,
  timer_fired, received, Stream, has_content, report, write_line, pass_line, end_of, receive_line,
  stream_round, stream_loop, start_stream,
}
use llmgateway.Proxy.Lines.{
  sent, joined, pending, EndsOnce, has_error, read_lines-joined, read_lines-EndsOnce,
  read_lines-pending,
}

-- What is left of a line behind the bytes that were written.
unfoldable left_over : Option ℕ → List ℕ → List ℕ
left_over none line = []
left_over (some n) line = drop n line

take-drop : (n : ℕ) (xs : List ℕ) → xs ≡ take n xs ++ drop n xs
unfolding take drop
take-drop zero xs = refl
take-drop (suc n) [] = refl
take-drop (suc n) (x ∷ xs) = ap (λ ys. x ∷ ys) (take-drop n xs)

drop-nil : (n : ℕ) → drop {A = ℕ} n [] ≡ []
unfolding drop
drop-nil zero = refl
drop-nil (suc n) = refl

module _ (P : LinePackage) where
  report-kept :
      (line : List ℕ) (s : Stream)
      → ((report P line s).written ≡ s.written) × ((report P line s).lines ≡ s.lines)
  unfolding report
  report-kept line s = ground arith

  pass_line-written :
      (fault : Option ℕ) (line : List ℕ) (s : Stream)
      → ((pass_line P fault line s).0.lines ≡ s.lines)
        × ((s.written ++ line ≡ (pass_line P fault line s).0.written ++ left_over fault line)
            × ((pass_line P fault line s).1 ≡ true
                → s.written ++ line ≡ (pass_line P fault line s).0.written))
  unfolding pass_line write_line left_over
  pass_line-written none [] s = (refl, (refl, λ h. simp append-nil))
  pass_line-written (some n) [] s = (refl, (rw (drop-nil n) refl, λ h. simp append-nil))
  pass_line-written none (c ∷ line) s =
      let next : Stream = record s {
        first_chunk_seen =
            if not s.first_chunk_seen && has_content P (c ∷ line) then true else s.first_chunk_seen;
        written = s.written ++ c ∷ line;
      } in
      let (written, lines) = report-kept (c ∷ line) next in
      (lines, (sym written ∙ sym (append-nil _), λ h. sym written))
  pass_line-written (some n) (c ∷ line) s = (
    refl,
    (
      rw (append_assoc s.written (take n (c ∷ line)) (drop n (c ∷ line)), ← take-drop n (c ∷ line))
          refl,
      λ h. cc,
    ),
  )

  -- The bytes that were there to be written, and what has become of them.
  abbrev Delivers : Stream → Stream × Option Ending → Type 0
  Delivers s (next, ending) =
      ((rest : List ℕ) × (s.written ++ joined s.lines ≡ next.written ++ rest))
      × ((err : ReadError)
          → ending ≡ some (read_ended err)
          → (s.written ++ joined s.lines ≡ next.written) × (has_error s.lines ≡ true))

  -- A round that does not end the loop leaves the bytes to come as they were.
  abbrev Continues : Stream → Stream × Option Ending → Type 0
  Continues s (next, ending) =
      ending ≡ none
      → (s.written ++ joined s.lines ≡ next.written ++ joined next.lines)
        × (EndsOnce next.lines × (has_error next.lines ≡ has_error s.lines))

  -- A round, from what has become of its line.
  end_of-Delivers :
      (line left : List ℕ) (err : Option ReadError) (rest : List ReadResult) (s next : Stream)
      (went : Bool)
      → EndsOnce ((line, err) ∷ rest)
      → next.lines ≡ rest
      → s.written ++ line ≡ next.written ++ left
      → (went ≡ true → s.written ++ line ≡ next.written)
      → Delivers (record s { lines = (line, err) ∷ rest }) (next, end_of P went err)
        × Continues (record s { lines = (line, err) ∷ rest }) (next, end_of P went err)
  unfolding end_of joined has_error
  end_of-Delivers line left err rest s next went h kept part whole =
      let split : s.written ++ (line ++ joined rest) ≡ next.written ++ (left ++ joined rest) =
        sym (append_assoc s.written line (joined rest))
        ∙ (ap (λ x. x ++ joined rest) part ∙ append_assoc next.written left (joined rest)) in
      (((left ++ joined rest, split), ends went err h whole), goes_on went err h whole)
    where
      ends :
          (went : Bool) (err : Option ReadError)
          → EndsOnce ((line, err) ∷ rest)
          → (went ≡ true → s.written ++ line ≡ next.written)
          → (e : ReadError) → end_of P went err ≡ some (read_ended e)
          → (s.written ++ (line ++ joined rest) ≡ next.written)
            × (has_error ((line, err) ∷ rest) ≡ true)
      ends true (some err) h whole e q = (rw h (simp append-nil (whole refl)), refl)
      ends true none h whole e q = cc
      ends false err h whole e q = cc

      goes_on :
          (went : Bool) (err : Option ReadError)
          → EndsOnce ((line, err) ∷ rest)
          → (went ≡ true → s.written ++ line ≡ next.written)
          → end_of P went err ≡ none
          → (s.written ++ (line ++ joined rest) ≡ next.written ++ joined next.lines)
            × (EndsOnce next.lines × (has_error next.lines ≡ has_error ((line, err) ∷ rest)))
      goes_on true (some err) h whole q = cc
      goes_on false err h whole q = cc
      goes_on true none h whole q = (
        sym (append_assoc s.written line (joined rest))
            ∙ (ap (λ x. x ++ joined rest) (whole refl)
                ∙ ap (λ x. next.written ++ joined x) (sym kept)),
        (subst EndsOnce (sym kept) h, ap has_error kept),
      )

  receive_line-Delivers :
      (fault : Option ℕ) (lines : List ReadResult) (s : Stream)
      → EndsOnce lines
      → Delivers (record s { lines = lines }) (receive_line P fault lines s)
        × Continues (record s { lines = lines }) (receive_line P fault lines s)
  unfolding receive_line joined
  receive_line-Delivers fault [] s h = ((([], refl), λ err e. cc), λ e. cc)
  receive_line-Delivers fault ((line, err) ∷ rest) s h =
      let went = pass_line P fault line (record s { lines = rest }) in
      let (kept, (part, whole)) = pass_line-written fault line (record s { lines = rest }) in
      end_of-Delivers line (left_over fault line) err rest s went.0 went.1 h kept part whole

  stream_round-Delivers :
      (w : Wake) (s : Stream)
      → EndsOnce s.lines
      → Delivers s (stream_round P w s) × Continues s (stream_round P w s)
  unfolding stream_round
  stream_round-Delivers client_done s h = (((joined s.lines, refl), λ err e. cc), λ e. cc)
  stream_round-Delivers timer_fired s h = (((joined s.lines, refl), λ err e. cc), λ e. cc)
  stream_round-Delivers (received fault) s h = receive_line-Delivers fault s.lines s h

  stream_loop-Delivers :
      (ws : List Wake) (s : Stream) → EndsOnce s.lines → Delivers s (stream_loop P ws s)
  unfolding stream_loop
  stream_loop-Delivers [] s h = ((joined s.lines, refl), λ err e. cc)
  stream_loop-Delivers (w ∷ ws) s h =
      let (now, later) = stream_round-Delivers w s h in
      elim (Option-cases (stream_round P w s).1) [
        | inr (e, q) ↦ rw (stream_loop, q) (now.0, λ err p. now.1 err (q ∙ p))
        | inl q ↦
            let (same, (ended, errs)) = later q in
            let ih = stream_loop-Delivers ws (stream_round P w s).0 ended in
            rw (stream_loop, q)
              ((ih.0.0, same ∙ ih.0.1), λ err p. (same ∙ (ih.1 err p).0, sym errs ∙ (ih.1 err p).1))
      ]

  -- A stream is passed on as it is. Whatever wakes the loop and wherever a write fails, what the client
  -- has got is a beginning of what the backend sent, byte for byte; and where the loop ended with the
  -- backend's reply, it is all of it. The sizes of the reader's slices do not matter.
  pub stream_loop-sent :
      (ws : List Wake) (slices : List Slice)
      → ((rest : List ℕ) × (sent slices
            ≡ (stream_loop P ws (start_stream slices)).0.written ++ rest))
        × ((err : ReadError)
            → (stream_loop P ws (start_stream slices)).1 ≡ some (read_ended err)
            → sent slices ≡ (stream_loop P ws (start_stream slices)).0.written)
  unfolding start_stream
  stream_loop-sent ws slices =
      let ((rest, part), whole) =
        stream_loop-Delivers ws (start_stream slices) (read_lines-EndsOnce [] slices) in
      let all = read_lines-joined [] slices in
      (
        (
          rest ++ pending [] slices,
          all
              ∙ (ap (λ x. x ++ pending [] slices) part
                  ∙ append_assoc (stream_loop P ws (start_stream slices)).0.written rest
                      (pending [] slices)),
        ),
        λ err q.
            let (same, has) = whole err q in
            all
            ∙ (rw (read_lines-pending [] slices has) (append-nil (joined (read_lines [] slices)))
                ∙ same),
      )
