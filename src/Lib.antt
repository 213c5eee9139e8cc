-- ===== src/Lib.antt =====
-- codexbot runs agents, each a Codex worker in a container, for one administrator. Agents get
-- messages, scheduled prompts and tasks from each other. internal/store keeps all of it in SQLite;
-- internal/httpapi serves the user interface and dispatches tasks; internal/runtimemanager starts
-- the containers and internal/agentworker is the process in each.
--
-- This library models internal/store, on which the others rest, with the records of
-- internal/domain, the dispatcher of internal/httpapi over it, and the steering of
-- internal/agentworker. A state of the database is `Db` (Store/Database): a list of rows for each table, in
-- the order of insertion. An operation of `*Store` is a function of its arguments, of the readings of
-- the clock it makes and of the state, and returns a `Result`: its value and the next state, or the
-- error, after which the state is as before, since a transaction that returns an error is rolled
-- back and a single statement changes nothing. The store has one connection, so that operations do
-- not overlap: an interleaving of callers is a list of operations (`Op`, Store/Tasks/History).
-- Errors of the driver, such as a full disk or a cancelled context, are not modelled; what the
-- constraints of the schema refuse is (`constraint`). Identifiers that the code draws at random are
-- arguments, and SHA-256 is a parameter.
--
--   Common       lists, options, results and the SQL statements on lists of rows
--   Clock        `ts` of internal/store/store.go and the order of stored times; proofs in Clock/Order
--   Domain       internal/domain, the texts that strings.TrimSpace and len read (Domain/Text)
--   Store/Tasks  internal/store/collaboration.go: Enqueue (EnqueueCollaborationTask), Delivery (the
--                claim, the state, cancellation, reconciliation, recovery), Notify (completions
--                and their suppression), Query (the lists). History puts them in sequence; Evolution,
--                Effects and Growth say what any sequence can make of a task
--   Store/Timeline  internal/store/timeline.go and the events of store.go: AppendWorkerEvent,
--                AppendEvent, AppendTimelineEvent; Page has AgentTimeline, Outbox EventsAfter
--   Store/Sync   SyncCollaborationTimeline of internal/store/timeline.go
--   Store/Runs   CreateRun, SetRunStarted, FinishRun
--   Store/Schedules, Store/Desktop, Store/Agents, Store/Access  the rest of store.go and the version
--                of an icon in agent_icons.go
--   Store/Conversations  EnsureAgentConversation, conversation_reset.go; Edit has the single rows
--   Store/Listing  the lists of agents and schedules and the single reads of store.go
--   Store/Sidebar  internal/store/sidebar.go
--   Server/World  what the handlers of internal/httpapi work on: an `Action` reads and writes the store
--                in single operations and calls the runtime manager, and keeps what it did when it
--                fails. The readings of the clock, new identifiers and the manager's replies are in
--                `Env`; the calls made are kept in their order
--   Server/Completions, Server/Agents  collaboration_completion.go, and ensureAgent of server.go
--   Server/Steer, Server/Start, Server/Dispatch  steerCollaboration, startCollaboration,
--                dispatchCollaboration of internal/httpapi/collaboration.go. Rules, Effects, Held,
--                Ends, Once, Progress and Quiet say what they do; History puts runs of the dispatcher and
--                operations of the store in any order
--   Server/Api   collaborationSend, collaborationTask and collaborationCancel of the same file, which
--                answer from the store alone
--   Server/Desktop  takeover, startContinuation, releaseDesktop, desktopHeartbeat and
--                expireDesktopLease of server.go
--   Worker/Machine, Worker/Steer, Worker/Handler  internal/agentworker/steer.go over the worker's
--                active run, ledger and outboxes; Once and Ledger have its histories, with restarts, Retry
--                the ledger after a success
--   Worker/Approvals  internal/agentworker/approvals.go with the answers of
--                internal/appserver/methods.go
--   Examples     each theorem at a small database
--
-- A time is a number of nanoseconds and a sequence a natural number; no operation of the store
-- brings either near the bounds of int64. Payloads are the bytes of a worker's event or the fields of
-- an object that the code itself makes. Keys that the code joins from parts are kept as parts. All
-- recursion is on lists, so no fuel is needed.
--
-- A run of the dispatcher has its agent's lock, and is modelled without what handlers of other agents
-- write between its operations. A crash of the worker between two saves is covered by the saves that
-- fail: what a request leaves on the disk then is what a crash leaves.
--
-- The store fails where its statements and constraints make it fail. Errors of the database itself, as
-- of a full disk, are left out, but for the projection of a task that was just sent, which the code
-- answers apart.
--
-- Not modelled: the migrations, the lists of runs, the bytes of icons, the other handlers
-- of internal/httpapi, turns and notifications in internal/agentworker, internal/runtimemanager, the clients
-- of both, which are transport, and the web interface.
pub mod Common
pub mod Clock
pub mod Domain
pub mod Store
pub mod Server
pub mod Worker
pub mod Examples
