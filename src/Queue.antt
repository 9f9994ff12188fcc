-- ===== src/Queue.antt =====
-- internal/queue/queue.go: the bounded queue in front of a model. A scope's channel `sem` is the
-- number of tokens in its buffer, of capacity `max_conc`. `Acquire` is cut at its atomic actions:
-- the addition to `queued` with the test behind it, the send on the channel, and the deferred
-- subtraction. Durations are in milliseconds.
pub mod Calls
pub mod Bounds
pub mod Places
mod Tests
use llmgateway.Prelude.{
  ℕ, zero, suc, Bool, not, ◌&&◌, [], Option, none, some, String, ltb, if◌then◌else◌,
}
use llmgateway.Prelude.Dict.{Dict, lookup, insert}
use llmgateway.Prelude.Int.{ℤ, pos, ltb_ℤ, is_pos, pos_part, inc, dec}

pub record Scope : Type 0 where
  pub sem : ℕ
  pub max_size : ℤ
  pub queued : ℤ
  pub max_conc : ℕ
  pub default_wait : ℤ

pub record Manager : Type 0 where
  pub scopes : Dict Scope
  pub default_timeout : ℤ
  pub default_max_size : ℤ
  pub default_max_conc : ℤ

-- `New(defaultTimeoutMS, defaultMaxSize, defaultMaxConc)`
unfoldable pub new_manager : ℤ → ℤ → ℤ → Manager
new_manager timeout_ms max_size max_conc = record {
  scopes = [];
  default_timeout = if is_pos timeout_ms then timeout_ms else pos 30000;
  default_max_size = if is_pos max_size then max_size else pos 1000;
  default_max_conc = max_conc;
}

unfoldable pub new_scope : Manager → Scope
new_scope m = record {
  sem = 0;
  max_size = m.default_max_size;
  queued = pos 0;
  max_conc = if is_pos m.default_max_conc then pos_part m.default_max_conc else 64;
  default_wait = m.default_timeout;
}

-- `get(scopeID)`
unfoldable pub get_scope : String → Manager → Manager × Scope
unfolding new_scope
get_scope id m = elim (lookup id m.scopes) [
  | some s ↦ (m, s)
  | none ↦ (record m { scopes = insert id (new_scope m) m.scopes }, new_scope m)
]

-- `atomic.AddInt64(&s.queued, 1)`, and whether the call goes on to the `select`. The alternative is
-- `ErrFull`.
unfoldable pub arrive : Scope → Scope × Bool
arrive s =
    let queued = inc s.queued in
    (record s { queued = queued }, not (is_pos s.max_size && ltb_ℤ s.max_size queued))

-- `s.sem <- struct{}{}`, where it does not block.
unfoldable pub try_send : Scope → Option Scope
try_send s = if ltb s.sem s.max_conc then some (record s { sem = suc s.sem }) else none

-- The deferred `atomic.AddInt64(&s.queued, -1)`.
unfoldable pub leave : Scope → Scope
leave s = record s { queued = dec s.queued }

-- The scope with one token less than `n`.
unfoldable pub pop_token : ℕ → Scope → Option Scope
pop_token zero s = none
pop_token (suc n) s = some (record s { sem = n })

-- `<-s.sem` of the release function, where it does not block.
unfoldable pub receive : Scope → Option Scope
unfolding pop_token
receive s = pop_token s.sem s

-- `Depth(scopeID)`
unfoldable pub depth : String → Manager → ℤ
depth id m = elim (lookup id m.scopes) [ none ↦ pos 0 | some s ↦ s.queued ]

unfoldable pub put_scope : String → Scope → Manager → Manager
put_scope id s m = record m { scopes = insert id s m.scopes }

-- What `Acquire` returns: the release function, `ErrFull`, or the error of the timer or the context.
pub data Answer : Type 0 where
  granted full gave_up : Answer

-- The `select`, with the deferred subtraction. `expires` says that the timer or the context comes before the send. A channel that is full then stays full, so
-- one of them comes.
unfoldable pub select_place : Bool → Scope → Scope × Answer
select_place expires s = elim (if expires then none else try_send s) [
  | some t ↦ (leave t, granted)
  | none ↦ (leave s, gave_up)
]

-- What `Acquire` does to its scope from its first action to its last, when no other call acts
-- meanwhile.
unfoldable pub acquire_place : Bool → Scope → Scope × Answer
unfolding arrive select_place
acquire_place expires s =
    let (arrived, goes_on) = arrive s in
    if goes_on then select_place expires arrived else (leave arrived, full)

-- `Acquire(ctx, scopeID)`
unfoldable pub acquire : Bool → String → Manager → Manager × Answer
acquire expires id m =
    let (known, s) = get_scope id m in
    let (left, answer) = acquire_place expires s in (put_scope id left known, answer)

-- The release function. A scope is never removed, so its pointer is the one in the map.
unfoldable pub release : String → Manager → Manager
release id m = elim (lookup id m.scopes) [
  | none ↦ m
  | some s ↦ elim (receive s) [ none ↦ m | some t ↦ put_scope id t m ]
]
