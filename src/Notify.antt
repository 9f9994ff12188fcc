-- ===== src/Notify.antt =====
-- internal/notify/notify.go: which status changes become mails. The transport's answer to a mail is
-- an argument. The subject and the text of a mail and SMTP are left out.
pub mod Cooldown
mod Tests
use llmgateway.Prelude.{
  ℕ, ◌+◌, ◌*◌, ◌==◌, Bool, true, false, not, ◌&&◌, List, [], ◌∷◌, ◌++◌, Option, none, some, String,
  str_eq, str_append, any, ltb, length, if◌then◌else◌,
}
use llmgateway.Prelude.Dict.{Dict, lookup, insert}
use llmgateway.Prelude.Int.{ℤ, pos_part, is_pos}
use llmgateway.Store.Backend.{
  BackendStatus, healthy, degraded, unhealthy, disabled, maintenance, unknown, empty, status_eq,
}
use llmgateway.Time.{Time, minute}

-- The fields of `EmailNotifierConfig` that decide on a mail.
pub record EmailNotifierConfig : Type 0 where
  pub enabled : Bool
  pub cooldown_ms : ℤ
  pub notify_on : List String

-- The fields of `Event` that decide on a mail.
pub record Event : Type 0 where
  pub backend_id : String
  pub prev : BackendStatus
  pub next : BackendStatus

-- `Kind()`
unfoldable pub kind_of : BackendStatus → BackendStatus → String
kind_of prev unhealthy = "backend_unhealthy"
kind_of prev degraded = "backend_degraded"
kind_of prev healthy = if status_eq prev healthy then "" else "backend_recovered"
kind_of prev _ = ""

unfoldable pub kind : Event → String
unfolding kind_of
kind e = kind_of e.prev e.next

-- `Notifier`: the times of the last mails, the channel, and the result for the admin API.
pub record Notifier : Type 0 where
  pub last_sent : Dict Time
  pub ch : List Event
  pub last_send_at : Time
  pub last_error : String

-- The capacity of the channel.
abbrev pub queue_size : ℕ
queue_size = 64

-- `matchesNotifyOn(kind)`
unfoldable pub matches_notify_on : EmailNotifierConfig → String → Bool
matches_notify_on cfg k =
    if str_eq k ""
    then false
    else if length cfg.notify_on == 0
    then true
    else any (λ x. str_eq x k) cfg.notify_on

-- `Notify(e)`: an event is dropped if the channel is full.
unfoldable pub notify : EmailNotifierConfig → Event → Notifier → Notifier
unfolding kind matches_notify_on
notify cfg e n =
    if not cfg.enabled
    then n
    else if not (matches_notify_on cfg (kind e))
    then n
    else if ltb (length n.ch) queue_size
    then record n { ch = n.ch ++ e ∷ [] }
    else n

-- The cooldown of `dispatch`, in nanoseconds, for a setting that is below 292 years: the product of the
-- source wraps there.
unfoldable pub cooldown_of : ℤ → ℕ
cooldown_of ms = if is_pos ms then pos_part ms * 1_000_000 else 5 * minute

unfoldable pub dedupe_key : Event → String
unfolding kind
dedupe_key e = str_append e.backend_id (str_append "|" (kind e))

-- One call of `dispatch`: its event, the time of its test, what the transport answers if it is
-- asked, with the text of an error, and how long it takes for that.
pub record Attempt : Type 0 where
  pub event : Event
  pub now : Time
  pub error : Option String
  pub took : ℕ

-- A mail that the transport took: its key and the time from which the cooldown runs.
abbrev pub Mail : Type 0
Mail = String × Time

-- The last mail of this key is still inside the cooldown.
unfoldable pub is_suppressed : ℕ → Time → Option Time → Bool
is_suppressed cooldown now none = false
is_suppressed cooldown now (some last) = ltb now (last + cooldown)

-- The part of `dispatch` behind the mail.
unfoldable pub delivered : String → Time → Option String → Notifier → Notifier × Option Mail
delivered k at (some err) n = (record n { last_send_at = at; last_error = err }, none)
delivered k at none n = (
  record n { last_sent = insert k at n.last_sent; last_send_at = at; last_error = "" },
  some (k, at),
)

-- `dispatch(e)`, with the mail it has sent.
unfoldable pub dispatch : ℕ → Attempt → Notifier → Notifier × Option Mail
unfolding dedupe_key is_suppressed delivered
dispatch cooldown a n =
    let k = dedupe_key a.event in
    if is_suppressed cooldown a.now (lookup k n.last_sent)
    then (n, none)
    else delivered k (a.now + a.took) a.error n

-- A mail is added to those sent before, newest first.
unfoldable pub add_mail : Option Mail → List Mail → List Mail
add_mail none mails = mails
add_mail (some m) mails = m ∷ mails

-- The loop of `run()`, one event after the other.
unfoldable pub run : ℕ → List Attempt → Notifier × List Mail → Notifier × List Mail
unfolding dispatch add_mail
run cooldown [] (n, mails) = (n, mails)
run cooldown (a ∷ rest) (n, mails) =
    let (next, sent) = dispatch cooldown a n in run cooldown rest (next, add_mail sent mails)
