-- ===== src/Lib.antt =====
-- vibemonitor collects reports of agents on a server, keeps them in a store, and shows and alerts
-- on them. The development models logic of the server, of its store and of the agent.
--
-- Limits models what the server does before it takes a call (internal/server/rpc_limit.go and
-- internal/server/security.go). Pacing is `rpcLimiter`, Login is `loginLimiter`, Oldest the
-- eviction loop of both, ClientIp `requestClientIP`, which gives the login limiter its keys.
-- Ping models the rolling loss of internal/store/ping_history.go: Search is `sort.Search`, Window
-- is `pingLossWindow`, the other Window files relate it to a list of observations, and Results is
-- `filterPingResults` of internal/store/ping_data.go. Samples is the end of `ingestReportAt` of
-- internal/store/store.go with `recordPingObservationLocked`; Spaced, SamplesLaws, SamplesRuns and
-- SamplesAgain are about the series that it keeps. Prune is `pruneNodePingLocked`, which Chosen and
-- PruneLaws are about. Chart,
-- Rollup, Builder and Answer model a query of the history: the chart buckets, the hourly summaries
-- of internal/store/history_rollups.go, the builder of internal/store/ping_rollup_query.go, and
-- `queryPingHistory` over the rows and the summaries that its statements select. The Builder files
-- compare one row with its summary, AnswerLaws whole queries, and AnswerBounds counts samples.
-- Calendar models the dates of Go's package time in the zone of internal/store/traffic_history.go.
-- Billing models `GetBillingCycleRange` of internal/store/store.go (Cycle), `recordDailyTraffic`
-- of internal/store/traffic_history.go (Daily), and the traffic part of `ingestReportAt` of
-- internal/store/store.go with internal/store/traffic.go (Account), which uses both; Metering
-- feeds it a run of reports.
-- Store models the nodes and the token index of internal/store/store.go (Registry, whose
-- deletions filter the queue), and the queue of history samples of internal/store/persistence.go
-- (Queue), where a flush is moves of a state machine that reports interleave with; Registration is
-- the window of internal/store/registration.go. Points is the points and the resource samples of
-- `ingestReportAt`, with the checks of internal/store/resource_history.go, and Ingest the whole of
-- `ingestReportAt`, which composes Billing.Account, Uptime.Online, Points and Ping.Samples on one
-- node and one queue.
-- Uptime models the online time of internal/store/traffic_history.go: Online is `offlineThreshold`,
-- `recordDailyOnline`, which uses the days of Billing.Daily, and `dailyOnlineStatus`; Tally is about
-- its loop, Measure counts instants, and Covered and Status relate the record to the heartbeats.
-- Rankings models internal/store/rankings.go: the start of a period and the top three.
-- Alerts models the alerts of internal/server/telegram.go and internal/server/telegram_ping.go:
-- Delivery is `deliver` with its delays and the two thresholds; Targets is `allTargetsPing`; State
-- is what a check keeps (internal/store/telegram_state.go) and takes; PingCheck and Check are the
-- body of the loop of `check`, step by step, and Engine is `check` itself, with the loading, the
-- saving and the deletion of states; Jobs is the loop of internal/server/telegram_queue.go, which
-- hands nodes to its workers. Sustained, Announced, CheckLaws, Outages, Once and Silence
-- are about runs of checks. Floats come with the comparisons that the checks use.
-- Live models internal/server/ws_hub.go: Pace is the loop `run`, Hub the clients with their
-- queues, the caches and the broadcasts.
-- Rpc models internal/server/rpc_handler.go: Dispatch is `HandleV2RPC` over a record of operations
-- of the store, with Limits.Pacing in front; Register is `HandleRegister` over the window and the
-- nodes of Store and the limiter of Limits.Login.
-- Agent models the agent: Response and ErrorLog are internal/agent/rpc_response.go, Pings and
-- Client are internal/agent/client.go, with the sampling of internal/agent/sampling.go; PingsLaws
-- relates the agent's probes to the alerts of the server.
-- Monitor models what an agent measures: the parser of pkg/monitor/cpu_stats.go (CpuStats), the
-- cache of pkg/monitor/metric_cache.go (Cache), and the tracker of pkg/monitor/tcp_rate.go (TcpRate).
-- Prelude holds the shared tests, lists, integers, association lists and the clock; Examples the
-- theorems at concrete inputs.
--
-- A method that holds the mutex of its object is one step on the object's state. An instant is a
-- number of nanoseconds since the zero `time.Time`, and a method gets the instants that it reads
-- as arguments, as it gets the identifiers that it draws and whether a transaction commits. Go maps
-- are association lists; where the source's result depends on the order of a map, the order is that
-- of the list. Loops over ranges run on fuel: `sort.Search` on its upper bound plus one, which
-- halves in each round, and the loops over days on the number of days, of which each round takes
-- one; the theorems on them hold for these amounts. Counters and sizes are unbounded numbers: the
-- source's 64-bit values are nanoseconds and bytes that stay in range.
--
-- Not modelled: HTTP and its routes, SQL, the pages, the scripts, the texts of alerts, the
-- cancellation of contexts, and what an agent reads from its system. Parsers of addresses,
-- numbers and JSON, operations on floating-point numbers and the comparison of names without case are
-- parameters.
pub mod Prelude
pub mod Limits
pub mod Ping
pub mod Calendar
pub mod Billing
pub mod Rpc
pub mod Store
pub mod Agent
pub mod Alerts
pub mod Monitor
pub mod Live
pub mod Rankings
pub mod Uptime
pub mod Examples
