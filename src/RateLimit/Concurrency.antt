-- ===== src/RateLimit/Concurrency.antt =====
-- `Concurrency` of internal/ratelimit/ratelimit.go: requests in flight for each key. A key that is
-- not in the map counts 0.
use llmgateway.Prelude.{Bool, true, false, [], none, some, String, not, if◌then◌else◌}
use llmgateway.Prelude.Dict.{Dict, lookup, insert, delete}
use llmgateway.Prelude.Int.{ℤ, pos, leb_ℤ, is_pos, is_zero, inc, dec}

abbrev pub Concurrency : Type 0
Concurrency = Dict ℤ

unfoldable pub new_concurrency : Concurrency
new_concurrency = []

-- `Get(key)`
unfoldable pub get : String → Concurrency → ℤ
get key c = elim (lookup key c) [ none ↦ pos 0 | some n ↦ n ]

-- `Acquire(key, limit)`
unfoldable pub acquire : String → ℤ → Concurrency → Concurrency × Bool
unfolding get
acquire key limit c =
    if not (is_pos limit)
    then (c, true)
    else if leb_ℤ limit (get key c)
    then (c, false)
    else (insert key (inc (get key c)) c, true)

-- The decrement of `Release`, and the deletion behind it.
unfoldable pub release_one : String → Concurrency → Concurrency
unfolding get
release_one key c = if is_pos (get key c) then insert key (dec (get key c)) c else c

unfoldable pub drop_zero : String → Concurrency → Concurrency
unfolding get
drop_zero key c = if is_zero (get key c) then delete key c else c

-- `Release(key, limit)`
unfoldable pub release : String → ℤ → Concurrency → Concurrency
unfolding release_one drop_zero
release key limit c = if not (is_pos limit) then c else drop_zero key (release_one key c)
