-- ===== src/Lib.antt =====
-- Chirpy is the Go backend of a chat app: accounts, friends, groups, private and group chat, presence
-- and 1:1 voice calls, over REST and a websocket hub, with Postgres as the source of truth and Redis
-- as a cache. This library models its components as state machines and functions.
--
-- Parts and files.
--
-- Prelude: shared names; tests on numbers, lists, and Go maps (Prelude/Maps.antt: a function where
-- the code only reads and writes by key, an association list where it counts or ranges).
--
-- Calls models internal/calls/calls.go. Calls/Types.antt has the constants, the `call` struct with
-- `peer` and `conn`, and the events and effects; Calls/Manager.antt the `Manager` struct, with the heap
-- of call objects that `calls` and `byUser` point into, the runtime's armed and fired timers,
-- `remaining` and `allowStart`; Calls/Start.antt `start`; Calls/Ending.antt `end` and `hangUp`;
-- Calls/Accept.antt `accept`; Calls/Devices.antt `signal`, `Connected`, `Disconnected` and `EndBetween`;
-- Calls/Dispatch.antt `HandleCall` and the runtime's part of time.AfterFunc. An operation returns the
-- new manager and the list of effects: events for the hub, rows for the call log, push jobs. The hub,
-- the friends service, the call log's answers, the clock and uuid.NewV7 are arguments (`Env`);
-- encoding/json is a parameter of `HandleCall`. Calls/Steps.antt is the relation of the interleavings
-- of the parts that hold the mutex. Failures of writes to the call log are only logged by the code, and
-- telemetry and logging are left out. Times are nanoseconds as natural numbers; a duration that may be
-- negative is a Duration.
--
-- Groups models internal/groups. Groups/Model.antt has model.go; Groups/Rows.antt one group's
-- chat_groups row with its member_table rows and the queries of sql/queries/groups.sql;
-- Groups/Repo.antt the transactions of repo.go, which hold the group's row lock, as functions from the
-- rows to a result and the rows to commit; Groups/Service.antt the snapshot that is cached, its Role,
-- and the checks of service.go. A failure of the database itself rolls back and is not told apart.
-- Groups/Invite.antt models invite.go. Avatars, search, lists and pushes of internal/groups are not
-- modelled.
--
-- Friends models internal/friends. Friends/Model.antt has the errors; Friends/Rows.antt the tables
-- user_relationships and user_blocks with their constraints and the queries of sql/queries/friends.sql;
-- Friends/Repo.antt repo.go; Friends/Service.antt the operations of service.go with their events,
-- notifications and hooks (`Send` in its two parts, the checks and the insert). The users service's
-- GetName is an argument. Display names, avatars and the deletion of accounts are left out, and so are
-- failures of the database and of the cache; the cached snapshot is taken to be up to date, which
-- is what Cache is about.
--
-- Chat models internal/chat. Chat/Model.antt has model.go, Chat/Tables.antt the tables of private and of
-- group messages with their reactions and the queries on them; Chat/Authorize.antt LocateMessage and
-- authorizeMessage, Chat/Send.antt `send`, Chat/Change.antt EditMessage, DeleteMessage, React, Unreact and
-- the checks of ReadBy, Chat/Forward.antt Forward, Chat/History.antt the pages of history, Chat/Shown.antt
-- `withState`, Chat/Receipts.antt the read markers, receipts and typing targets, Chat/Dedupe.antt dedupe.go
-- and Chat/Emoji.antt emoji.go. The friends, groups and media services, the clock and uuid.NewV7 are
-- arguments. A call that changes a message takes the tables twice: as they are when it asks whether it
-- may, and as they are when it writes, so that other calls may come in between; Chat/Calls.antt performs
-- calls one after another. Ids are numbers with 0 for uuid.Nil, and a text is the list of its runes.
-- Failures of the database are left out but for the insert of a message.
--
-- Auth models internal/auth. Auth/Model.antt has the rows of accounts, emailed codes, identities and
-- refresh tokens, and the chains of operations in which an error ends the chain and what was written
-- stays; Auth/Codes.antt sendCode and checkCodeFor, Auth/Sessions.antt auth_service.go, and
-- Auth/Accounts.antt (registration and reset), Auth/Google.antt and Auth/Change.antt (the change of the
-- address, and admins) accounts.go with the queries of account_repo.go. Hashes, the random
-- source, the mail server, Google and the checks of names, addresses and passwords are arguments
-- (`Env`). An operation runs whole, but for the ones that a theorem takes apart after their read
-- (`try_code`, `rotate`). A failure of the database is not told apart. Auth/Verified.antt has the
-- requests of the account and session handlers, and any sequence of them (a deletion without what it does
-- to groups and friends);
-- Auth/Rows.antt what is to hold of the rows, Auth/Writes.antt and Auth/Address.antt the single writes,
-- Auth/Runs.antt and Auth/Chained.antt the chains, and Auth/SignIn.antt, Auth/SignUp.antt,
-- Auth/ChangeRows.antt, Auth/Deleted.antt and Auth/GoogleRows.antt the operations.
--
-- Queue models internal/platform/queue: Queue/Jobs.antt has Backoff, the retries, and the transactions
-- and scripts of the queue in Redis; jobs:delayed is a sorted set of texts, whose order is a parameter.
-- Queue/Steps.antt has the queue with the entries that workers have in hand, and the steps of both in any
-- order: an entry may be read more than once, as `consume` reclaims idle ones, a worker may crash, and
-- Redis may trim a stream. Of the queue in memory only its retries are modelled. Queue/Keys.antt and
-- Queue/Logs.antt are for Queue/Kept.antt, which follows a topic and payload; Queue/Attempts.antt counts
-- attempts, Queue/Equal.antt is about jobs with the same text, and Queue/Order.antt about the order of
-- retries.
--
-- Hub models internal/ws/hub.go. Hub/State.antt has the hub, the clients that its map points to, and
-- their Send channels (buffered, closed or not); Hub/Ops.antt the cases of `Run`, `remove`, `Disconnect`,
-- `send`, `SendToConn` and `WriteToUserExcept`; Hub/Runs.antt the interleavings of their parts that hold
-- the mutex. Messages are numbers, and the goroutines that tell presence and calls are a list of notices
-- in the order in which they are started. The pumps and the shapes of events are left out.
--
-- Tickets models internal/ws/ticket.go: Tickets/Redeem.antt has `Issue` and `Redeem`, over the signature
-- of a ticket's fields, which is a parameter.
--
-- Presence models internal/presence/presence.go. Presence/Views.antt has `broadcast`, `Friends` and
-- `SetHidden`, over the friends service, the accounts' rows and the hub, which are arguments (`World`);
-- Presence/Changed.antt `Changed` for one user and one friend, as steps with its timer and its
-- announcements, each of which reads the hub and writes to the friends in one step; whether the user
-- hides the last seen then, and whether the friend gets the event, is given with the step.
--
-- Limits models internal/platform/ratelimit/memory.go: Limits/Memory.antt has `Allow`, in the parts of
-- the scan and the use of a window, and Limits/Windows.antt the same limiter without the scan.
--
-- Cache models internal/platform/redisx/versioned.go, which groups, friends and users keep their
-- snapshots in. Cache/Versioned.antt has Get, Version, Put, Invalidate and Load on the value key and the
-- version key of one id; Cache/Readers.antt the steps of any number of readers and writers, with the
-- expiry of either key. JSON is left out; a failing Redis command is an argument.
--
-- Nothing in the library runs on fuel.
--
-- Not modelled: HTTP handlers and routing, generated sqlc code (internal/database), telemetry, mail,
-- push and object storage clients, configuration, the admin page.
pub mod Prelude
pub mod Calls
pub mod Groups
pub mod Friends
pub mod Chat
pub mod Auth
pub mod Hub
pub mod Tickets
pub mod Presence
pub mod Limits
pub mod Queue
pub mod Cache
