-- ===== src/Lib.antt =====
-- Verification of the LLM gateway: an HTTP gateway that authenticates a request by its API key,
-- admits it under rate limits and quotas, resolves model aliases, picks a backend among those that
-- are healthy and have room, and logs what happened.
--
-- The parts, and the files that model them:
-- - internal/store/store.go. Store/Backend has a backend's record and its methods (`Status`,
--   `RecordHealthCheck`, `AcquireSlot`, `ReleaseSlot`, `FilterRoutable`); Store/Health,
--   Store/Slots and Store/Routable are about these. Store/Pattern has `matchPattern`, Store/Search
--   and Store/Glob what it means; Store/Keys has the API key and its permissions, Store/Permission
--   what they mean. Store/Catalog has the maps of the store, with `ResolveAlias` (Store/Resolve)
--   and the index of keys by hash (Store/Registry), and `rotateAPIKey` of
--   internal/admin/admin_keys.go. Store/Load has `LoadFromConfig`.
-- - internal/balancer/balancer.go: Balancer, with Balancer/Fairness, Members, Least and Sticky.
-- - internal/ratelimit/ratelimit.go: RateLimit/Limiter and RateLimit/Concurrency, with
--   RateLimit/Reserve, Window, Admitted and InFlight.
-- - internal/logstore/logstore.go: LogStore/Memory, with LogStore/Retention and Query;
--   LogStore/Stats has the statistics, Sums and Counted what they count.
-- - internal/queue/queue.go: Queue; Queue/Calls has the interleavings of calls, Queue/Bounds is
--   about them.
-- - internal/orchestrator (orchestrator.go, conductor.go, worker.go): Orchestrator has the pool
--   and the choice of workers, with Orchestrator/Select; Orchestrator/Conductor has the stages of
--   `runConductor`, with Orchestrator/Stages and Promises; Orchestrator/Pick has `pickBackend` of
--   worker.go over the store and the balancer.
-- - internal/quota/quota.go: Quota, with Quota/Monthly; Time has the calendar.
-- - internal/netutil/clientip.go: NetUtil, with NetUtil/Forwarded; package net is an interface.
-- - internal/backend/health.go: Checker; Checker/Loops and Scanned are about the probe loops,
--   Checker/Told about the observers. A stop channel is the number of its making.
-- - internal/capability/capability.go: Capability, with Capability/Allowed; package encoding/json
--   is an interface, Json.
-- - internal/handlers/handlers.go. Handlers/Admission has `admit`, Handlers/Screen the checks of
--   `Forward` ahead of it, Handlers/Route the choice of a backend behind it, Handlers/Usage the
--   accounting of a reply, and Handlers/Forward composes them. Handlers/Holdings, Leaks,
--   Accounting and Whole are about what a request holds, Handlers/Vetted and Gate about the
--   checks, Handlers/Attempt, Safe and Reached about the backend, Handlers/Charge about the
--   estimate, and Handlers/Settled about what the result of the proxy comes to.
-- - internal/admin: Admin has the users, roles and session tokens of users.go and session.go,
--   Admin/Entry the middleware and the permission check of admin.go; Admin/Sessions is about the
--   life of a token, Admin/Access about who gets to a handler. Admin/Backends, Models and Keys
--   have the handlers that change something, over the state of Admin/Panel, and Admin/Serve the
--   requests. Admin/Accounts, Written and Audited are about the audit log, Admin/Modes, Untouched,
--   Kept and Known about the modes of models and aliases.
-- - internal/notify/notify.go: Notify; Notify/Cooldown is about the mails of one kind. What the
--   transport answers and how long it takes is part of an attempt.
-- - internal/proxy: Proxy has the headers of proxy.go, Proxy/Stream the lines and the loop of
--   stream.go, Proxy/Forward the replies; Proxy/Headers and Credentials are about what goes
--   upstream, Proxy/Lines, Passthrough and Unmodified about what comes back. Slices of a reader
--   and the wake-ups of the loop are lists.
-- - internal/auth/middleware.go: Auth, with Auth/Authentic.
-- - internal/config/config.go: Config has the records that the others read, Config/Validate the
--   checks of a configuration, with Config/Consistent and Accepted. Codes has the texts of
--   rejections, Time the clock. Prelude is shared: Go's maps as association lists, int64 with its
--   wrap-around, byte strings.
--
-- How the code is read. A method that holds a mutex is one step, a function from the state to the
-- new state, and interleavings are lists of such steps. A call of the limiter takes two locks one
-- after the other; here it is one step, and what a collection of idle buckets does between
-- the locks is left out. `time.Now()` and `rand.Intn` are arguments.
-- `int` and `int64` are integers whose increments and sums wrap around at 64 bits (`add_int64`).
-- Ranging over a map follows the list that stands for it, so what holds for every list holds for
-- every order. The hash of API keys is an argument of what uses it. The loop of `ResolveAlias` runs
-- on the source's own bound of eight hops; every other loop is by recursion on its list, so no
-- definition runs on fuel.
--
-- A request is run from its start to its end: what others do to a backend meanwhile is an argument
-- of the routing, and the interleavings of the limiter, the concurrency counter and the queue are
-- those of their own modules. The proxy's reply, with its usage blocks, is an argument of
-- Handlers/Forward.
--
-- Not modelled: the log records of requests and the listing of models, the timers and the
-- connections of the health checker, and the listings and statistics of the admin API; SQL and
-- Redis storage, HTTP input and output, metrics, logging, tracing, the text and the transport of
-- mail, the classifier of prompts, and the reading of configuration files into records. The
-- answers of workers are an argument of the conductor, and its floating-point numbers an
-- interface.
pub mod Prelude
pub mod Config
pub mod Codes
pub mod Time
pub mod Store
pub mod Balancer
pub mod RateLimit
pub mod LogStore
pub mod Queue
pub mod Orchestrator
pub mod NetUtil
pub mod Quota
pub mod Handlers
pub mod Json
pub mod Capability
pub mod Admin
pub mod Auth
pub mod Checker
pub mod Notify
pub mod Proxy
