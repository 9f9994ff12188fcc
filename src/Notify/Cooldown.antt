-- ===== src/Notify/Cooldown.antt =====
-- Mails of one kind about one backend.
use llmgateway.Prelude.{
  ℕ, ◌+◌, ◌≤◌, ◌≡◌, refl, sym, ap, ◌∙◌, inl, inr, false, List, [], ◌∷◌, some, String, str_eq,
  str_eq_self, All, arith, eq_iff, Bool-cases, Option-cases,
}
use llmgateway.Prelude.Dict.{Dict, lookup, insert, lookup-insert}
use llmgateway.Time.{Time}
use llmgateway.Notify.{
  Notifier, Attempt, Mail, is_suppressed, delivered, dedupe_key, dispatch, add_mail, run,
}

-- A mail lies a cooldown behind an older one of the same key.
abbrev pub IsApart : ℕ → Mail → Mail → Type 0
IsApart cooldown new old = old.0 ≡ new.0 → old.1 + cooldown ≤ new.1

abbrev pub Spaced : ℕ → List Mail → Type 0
Spaced cooldown [] = Unit
Spaced cooldown (m ∷ ms) = All (IsApart cooldown m) ms × Spaced cooldown ms

-- The notifier knows of a mail of this key that is not older.
abbrev pub IsKnown : Dict Time → Mail → Type 0
IsKnown sent m = (t : Time) × ((lookup m.0 sent ≡ some t) × (m.1 ≤ t))

insert-IsKnown :
    (k : String) (at : Time) (sent : Dict Time) (ms : List Mail)
    → ((t : Time) → lookup k sent ≡ some t → t ≤ at)
    → All (IsKnown sent) ms
    → All (IsKnown (insert k at sent)) ms
insert-IsKnown k at sent [] newer h = tt
insert-IsKnown k at sent (m ∷ ms) newer ((t, (known, le)), later) = (
  elim (Bool-cases (str_eq k m.0)) [
    | inl e ↦
        let own : lookup k sent ≡ some t = ap (λ x. lookup x sent) ((eq_iff k m.0).0 e) ∙ known in
        let older = newer t own in (at, (lookup-insert k m.0 at sent ∙ rw e refl, omega arith))
    | inr e ↦ (t, (lookup-insert k m.0 at sent ∙ rw e known, le))
  ],
  insert-IsKnown k at sent ms newer later,
)

known-IsApart :
    (cooldown : ℕ) (k : String) (at : Time) (sent : Dict Time) (ms : List Mail)
    → ((t : Time) → lookup k sent ≡ some t → t + cooldown ≤ at)
    → All (IsKnown sent) ms
    → All (IsApart cooldown (k, at)) ms
known-IsApart cooldown k at sent [] newer h = tt
known-IsApart cooldown k at sent (m ∷ ms) newer ((t, (known, le)), later) = (
  λ same. let behind = newer t (ap (λ x. lookup x sent) (sym same) ∙ known) in omega arith,
  known-IsApart cooldown k at sent ms newer later,
)

suppressed_le :
    (cooldown now t : ℕ) → is_suppressed cooldown now (some t) ≡ false → t + cooldown ≤ now
unfolding is_suppressed
suppressed_le cooldown now t h = ground (arith, h)

-- What holds of the notifier and the mails that it has sent.
abbrev pub Cooled : ℕ → Notifier × List Mail → Type 0
Cooled cooldown (n, mails) = All (IsKnown n.last_sent) mails × Spaced cooldown mails

dispatch-Cooled :
    (cooldown : ℕ) (a : Attempt) (n : Notifier) (mails : List Mail)
    → Cooled cooldown (n, mails)
    → Cooled cooldown ((dispatch cooldown a n).0, add_mail (dispatch cooldown a n).1 mails)
unfolding dispatch delivered add_mail
dispatch-Cooled cooldown a n mails (known, spaced) =
    let k = dedupe_key a.event in
    elim (Bool-cases (is_suppressed cooldown a.now (lookup k n.last_sent))) [
      | inl e ↦ rw (dispatch, e) (known, spaced)
      | inr e ↦ elim (Option-cases a.error) [
        | inr (err, f) ↦ rw (dispatch, e, f) (known, spaced)
        | inl f ↦
            let at = a.now + a.took in
            let behind : (t : Time) → lookup k n.last_sent ≡ some t → t + cooldown ≤ at = λ t g.
              let open_again =
                suppressed_le cooldown a.now t (sym (ap (is_suppressed cooldown a.now) g) ∙ e) in
              omega arith in
            rw (dispatch, e, f)
              (
                (
                  (at, (lookup-insert k k at n.last_sent ∙ rw (str_eq_self k) refl, omega arith)),
                  insert-IsKnown k at n.last_sent mails (λ t g. let x = behind t g in omega arith)
                      known,
                ),
                (known-IsApart cooldown k at n.last_sent mails behind known, spaced),
              )
      ]
    ]

-- Two mails of one kind about one backend are never closer than the cooldown, whatever events come
-- and however the transport answers: of the mails that the transport has taken, in their order, each
-- follows every older one of its key by at least the cooldown, if this was so at the start and the
-- notifier knew of a mail at least as new for each key.
pub run-Cooled :
    (cooldown : ℕ) (attempts : List Attempt) (n : Notifier) (mails : List Mail)
    → Cooled cooldown (n, mails)
    → Cooled cooldown (run cooldown attempts (n, mails))
unfolding run
run-Cooled cooldown [] n mails h = h
run-Cooled cooldown (a ∷ rest) n mails h =
    run-Cooled cooldown rest (dispatch cooldown a n).0 (add_mail (dispatch cooldown a n).1 mails)
      (dispatch-Cooled cooldown a n mails h)
