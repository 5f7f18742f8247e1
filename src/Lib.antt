-- ===== src/Lib.antt =====
-- Verification of loadgen, a load generator with fault injection (Go).
--
-- The program is a fleet of small services that share internal/chaos, a set of fault switches with
-- HTTP endpoints; a harness (internal/harness) that switches faults on by these endpoints, waits
-- for the alerts of the observed system, grades its root-cause analysis and its remediation, and
-- cleans up; a simulator of incidents that derives the health of the fleet from the time
-- (internal/sysstate); a generator of shop metrics with injectable anomalies (internal/ecom); and
-- a mock of a shop whose payments can be made to fail (internal/shopify). The services (cmd) keep
-- their records in a database, a cache and a queue in memory (internal/platform), which answer
-- slowly or wrongly while a fault is active; the order service calls the payment service, and the
-- notification service handles published orders. The harness and the services meet over HTTP only:
-- the harness posts to /chaos/<type> and /chaos/kill-switch, and a runbook of the observed system
-- posts to /ops/<action>.
--
-- Files and the code that they model:
--   Base      shared names, tests on numbers, lists, integers; Base/Float the operations on float64
--             and the laws of IEEE 754 that proofs rely on; Base/Milli an instance of both.
--   Chaos     internal/chaos (chaos.go, shape.go, ops.go, novel_log.go).
--             Kind, State: the types, `states` and the other package variables, and the goroutines
--             at work as tasks. Spec: normalizeIntensity, normalizeDuration and the head of
--             EnableSpec. Enable: EnableSpec by its steps, Enable, Disable. Query: IsActive,
--             GetIntensity and the shapes. Control: the remedies and the kill switch. Campaign:
--             StartCampaign. Http: the handlers. Run: histories of requests, time and goroutines.
--   Harness   internal/harness (scenario.go, infrasage.go, runner.go, report.go).
--             Scenario: Validate. Remote: what the harness sees of the outside, the polling loops.
--             Detect: waitForAlert. Rca: runRCA, gradeRCA. Recover: runRemediation, killAll,
--             resolveRunAlerts, cooldown. Run: Run by its phases. Report: BuildSuiteReport.
--             Verdict: the choice of scenarios and the exit code of cmd/verdict.
--             Total: loops that give a result.
--   Ecom      internal/ecom (inject.go, dims.go): the injector; History: any sequence of requests.
--   Platform  internal/platform (platform.go). Assoc: Go maps as association lists. Db, Cache, Queue:
--             the operations; Db/RoundTrip: reads after writes; Queue/Delivery, Queue/Order: what a
--             subscription gets of a history.
--   Services  cmd. User: the handlers, with Spec a table of users without a cache, Represents and
--             Refines the refinement, and Stale what the cache keeps. Payment: handleProcess.
--             Order: createOrder and the reads, Order/Payment the retries, Order/Settled and
--             Order/Payment/Once how they end. Notification: handleOrderCreated and the statistics.
--             Auth: login and verification, with Auth/Session any history of them. Gateway: the
--             routes and the limit of requests.
--   Middleware  internal/middleware: the faults on the path of a request, counters, log levels.
--   Shopify   internal/shopify. Types, Names, Catalog: the records, the tables, and new records.
--             Store: the store and its listings, Store/Emit the mutator and the seeds; Store/Listing,
--             Store/Newest: histories. Incident: the incidents and their timers. Emitter: what an
--             incident makes of an event. Rest: the configuration and the choices of the handlers.
--   SysState  internal/sysstate. Incident: the table and the forced scenario; Http: the endpoints;
--             Health: what healthAt, activeFaultsAt, stateNameAt and FaultHealth give at the present
--             time.
--   Traffic   cmd/traffic. Stats: the statistics and their summaries; Summaries: how a history of
--             them ends. Scenario: the weighted actions, and the actors that have been seen; Plan:
--             the request of an action, and what its answer adds. Journey: sessions.
--
-- How state corresponds: package variables and receivers are records that the operations pass on.
-- A mutex makes each locked section one step; EnableSpec, which leaves its lock before it reads the
-- start time for its timer, is the composition of its parts, so that another request can stand
-- between them. A goroutine is a task of a list; a history chooses which task goes on, so that each
-- interleaving of requests and goroutines is a history. The order in which Go meets the keys of a
-- map is an argument, of the kill switch and of the listings of the database. A loop that polls the
-- outside runs on fuel; fuel for as many rounds as its window has pauses, and one more, is enough,
-- since each round sleeps for a pause.
--
-- Parameters: float64 and its laws; the clock, the runtime and the observed system of the harness
-- (Harness/Remote), on which its theorems ask that no call turns the clock back, that a sleep takes
-- its time and that the context is not cancelled (Harness/Total); the mapping of texts to lower
-- case and their comparison without case; the name of a campaign that has none;
-- the plan of an epoch of internal/sysstate, which the code draws from math/rand; encoding/json, as
-- the interface Codec, of which theorems ask that it encodes a record and decodes it to the same
-- one; what fmt, time and strings print and read of numbers, times and blanks; and every draw of
-- math/rand, which is an argument of the operation that draws it. How far an HTTP exchange with the
-- payment service comes is an argument of each attempt.
--
-- Bounds: times are natural nanoseconds of a monotonic clock, with 0 for the zero time where the
-- code uses that; durations are integers of nanoseconds without the overflow of int64, which the
-- code's clamps at 15 and 30 minutes keep away but for the seconds of a scenario of the harness and of
-- a forced incident; those of a request to /ecom/inject wrap as in the code.
--
-- Not modelled: logs, spans, JSON texts, metrics and headers; the texts of a verdict; the wiring of
-- each main; the proxies of the gateway; the pauses, the bursts and the launches of sessions of the
-- traffic generator; the chaos service under cmd; load shapes and telemetry. The mutator and the
-- emitter of the shop share a counter of ids without a lock: a use by the emitter may leave any
-- number in it, and comes between two ticks of the mutator, not within one.
pub mod Base
pub mod Chaos
pub mod Harness
pub mod Ecom
pub mod Middleware
pub mod Platform
pub mod Services
pub mod Shopify
pub mod SysState
pub mod Traffic
