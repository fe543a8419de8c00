-- ===== src/Lib.antt =====
-- Forge, the sandbox orchestrator: a control plane that keeps sandboxes in a database and places
-- them on nodes, and an agent on each node that runs them as containers.
--
-- Which file models what:
--   Base            shared helpers: tests, lists, results, int32 arithmetic (Base/Int), dictionaries
--                   keyed by texts (Base/Dict)
--   Models          shared-go/models: states, events and the table ValidTransitions / NextState
--   Store           control/internal/store: the tables as lists of rows (Store), the statements of
--                   sandboxes.sql.go (Store/Sandboxes), commands.sql.go and events.sql.go
--                   (Store/Commands) and nodes.sql.go (Store/Nodes), with the listings in
--                   Store/Listing and Store/EventListing, as functions from a database to
--                   an answer and a database
--   Store/Call      how a handler runs: a computation over a world, which meets the surroundings
--                   (other handlers, failures, UUIDs, JSON codecs) through the record Env
--   Scheduler       control/internal/scheduler/scheduler.go: Schedule
--   Lifecycle       control/internal/lifecycle: HandleCrash and HandleRestarted (Restart), HandleAck
--                   (Ack), HandleEvent (Events), CreateSandbox (Create), DestroySandbox, WakeSandbox
--                   and RestartSandbox (Requests), RescheduleNode (Reschedule), reap (Reaper)
--   Ports           agent/internal/ports/allocator.go, with the maps as lists of keys (Ports/Sets)
--   Executor        agent/internal/agent/executor.go: the types and the surroundings of an execution
--                   (Executor), Execute, its handlers and CodeDir (Executor/Handlers)
--   Routing         control/internal/routing: OnSandboxRunning and OnSandboxStopped of manager.go, and
--                   the batcher of batcher.go, one detection of drift.go (Routing/Drift), and the
--                   client of caddy.go (Routing/Caddy)
--   Reconciler      control/internal/scheduler: Reconcile of heartbeat_reconciler.go and GetSandbox of
--                   sandbox_freshness.go, and agentHTTPClient of control/cmd/forge-control/main.go
--                   (Reconciler/Asking), over which the latter asks an agent
--   Api             control/internal/api: the problems of errors.go (Api), nodes.go with the adapter
--                   CreateNode of control/cmd/forge-control/main.go (Api/Nodes), agents.go
--                   (Api/Agents), sandboxes.go (Api/Sandboxes, Api/Sandboxes/Reading), middleware.go
--                   (Api/Access), routes.go (Api/Router), logs.go with the agent's routes (Api/Logs), and events.go,
--                   metrics.go, health.go and routes_handlers.go (Api/Observing), over the
--                   statements and the services
--   Monitor         monitorHeartbeats of control/cmd/forge-control/main.go, one tick
--   Auth            shared-go/auth/hmac.go, with the codecs and the HMAC as the record UrlCodec
--   FilePush        agent/internal/filepush: writer.go (FilePush/Writer) and handler.go
--                   (FilePush/Handler), over path/filepath on segments (FilePush/Cleaning)
--   Docker          agent/internal/docker: CreateContainer of sandbox.go, images.go (Docker/Images), and the listing of
--                   client.go and snapshot.go
--   Watcher         agent/internal/events/watcher.go
--   Agent           agent/internal/health/heartbeat.go, one tick, and agent/internal/agent:
--                   containers_handler.go and the collector (Agent), the poll loop of agent.go
--                   (Agent/Loop) and its forwarding of events (Agent/Forwarding)
--   ControlClient   agent/internal/controlclient/client.go: Register, Heartbeat, AckCommand,
--                   PollCommands and ReportEvent
--   TestData        rows and surroundings for the tests
--
-- Proofs stand below the part that they are about: Store/Rely follows a preorder through a
-- handler, Store/Quiet evaluates a handler in an undisturbed run, Store/Keys says what
-- statements do to the row of one identifier; Lifecycle/Guarantee and Lifecycle/History apply
-- the first, Lifecycle/Crash, Lifecycle/Recovery and Lifecycle/Recycling the other two.
-- Ports/Partition, Ports/Pool and Ports/Client are about the allocator, Executor/Effects sorts
-- the outcomes of one execution, Executor/Tracking and Executor/Leak follow them through a run.
-- Routing/Requests has the runs of the batcher, Routing/Buffer and Routing/Delivery the proofs
-- about them. Reconciler/Revival and Reconciler/Fate evaluate a reconciliation. Store/Polling and Api/Agents/Drained say what a poll
-- takes from the queue, Base/Selection has the lemmas on tests and order, Store/Cost counts statements. Api/Nodes/Registration and Draining,
-- Api/Agents/Polling and Waiting, Api/Sandboxes/Refusals and Oldest, and Monitor/Silence and
-- Marking are about the parts that they stand below. Auth/Signing is about signed URLs, and
-- Api/Agents/Redirect about the way from a redirect to the agent's check; Routing/Drift/Repair
-- is about a detection; FilePush/Joining says where a relative path leads, FilePush/Containment
-- and FilePush/Guarding follow the calls of the file system. ControlClient/Registering and
-- Retrying count the client's requests. Docker/Labels is about the labels of created containers, Agent/Answers follows
-- a freshness check to the agent and back, and Agent/Blindness puts Docker, the agent and the
-- control plane together; Agent/Loop/Order is about the poll loop,
-- Agent/Forwarding/Loss about the way of an event to the control plane, and Watcher/History and
-- Watcher/Delivery are about the watcher.
--
-- Conventions. A UUID is a number, an instant a number of microseconds, a JSON column a text, a
-- port a natural number. A statement is atomic; before each one Env.interfere may change the
-- database, and Env.fault may make it fail before or after it takes effect. Text columns with a
-- CHECK are data types. Loggers are left out. state_version, failure_count and timeouts are
-- unbounded numbers, where the columns are 32 bits wide. Loops go over lists, so no fuel is
-- needed; the long poll runs on the clock of its ticker and its deadline, with the seconds to
-- wait as fuel, which Api/Agents/Waiting shows to be enough. The watcher's loop goes over fuel, one for
-- each connection, and the theorem about it gives it enough; the agent's poll loop goes over a
-- number of rounds. A context is an oracle, asked at each look of the code. The operations of Lifecycle/Operations
-- are those of control/internal/lifecycle without CreateSandbox; the reconciler and the
-- freshness service are not among them. A time that a process reads is an argument of its
-- handler. A batch of routes leaves the batcher's buffer in one step, and the order in which
-- overlapping batches reach the proxy is not modelled.
--
-- Not modelled: the command line client under cli, which makes HTTP requests and prints; the
-- start-up, flags and shutdown of the processes, the HTTP servers and clients, the Docker library, tickers and goroutines, symbolic
-- links on the disk of a node, and the encoders, which are parameters. PostgreSQL's order of rows with equal keys is taken to be that of
-- insertion.
mod Base
pub mod TestData
pub mod Models
pub mod Store
pub mod Scheduler
pub mod Lifecycle
pub mod Ports
pub mod Executor
pub mod Routing
pub mod Reconciler
pub mod Auth
pub mod Api
pub mod Monitor
pub mod FilePush
pub mod Docker
pub mod Watcher
pub mod Agent
pub mod ControlClient
