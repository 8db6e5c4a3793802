-- ===== src/Lib.antt =====
-- supergraph: one binary for each box that aggregates data sources, the plugins, into one GraphQL and
-- health endpoint.
--
-- The parts and their files:
-- - core/ (Core): what every plugin is given. core/config.go is Core/Config, core/envelope.go is
--   Core/Envelope, core/health.go is Core/Health (the HealthAggregator and its snapshot), core/bus.go is
--   Core/Bus (subscribers, the publish that drops for a full one), core/store.go is Core/Store (the ring
--   of events and the cursors), core/registry.go is Core/Registry and core/supervisor.go is
--   Core/Supervisor (startAll, the emit closure, the death of a plugin).
-- - plugins/claude/ (Claude): the sessions of one box. reducer.go is Claude/Reducer; the whitelist types
--   and projectHook of redact.go, with issueFromBranch of keys.go, are Claude/Redact; store.go is
--   Claude/Rows (the row types and the merges of the upserts), Claude/Store (applyFold,
--   applyEnrichment), Claude/StateFile (applyStateFile), Claude/Sweep (prune, staleScan) and Claude/Reads
--   (list, instances, and the accessors of claude.go).
--   Claude/History puts the channels together, tail.go is Claude/Tail (the scan of one transcript), and
--   hook.go, with emitSessionUpdated of claude.go and the keys of keys.go, is Claude/Hook (the handler).
--   Claude/Transcript is a line of a transcript: projectRecord, prNumberFromURL and foldLine.
-- - plugins/tmux/ (Tmux): keys.go is Tmux/Keys, store.go Tmux/Store and, with resolver.go, Tmux/Reads, and
--   snapshot.go Tmux/Snapshot (the parsers and one poll).
-- - plugins/git/ (Git): worktree.go is Git/Worktree, store.go Git/Store and reconcile.go Git/Reconcile
--   (one poll of all roots, the hash gate of its events).
-- - plugins/peer/ (Peer): store.go is Peer/Store, mirror.go Peer/Mirror and liveness.go Peer/Liveness.
-- - plugins/github/ (Github): the cache of GitHub's objects. keys.go is Github/Names (the codes of a
--   path, the templates), Github/Keys (the grammar of the keys) and Github/Events (the keys that an
--   event touches); store.go is Github/Store (nodes, the tags of lists, hooks, deliveries), webhook.go
--   Github/Webhook, proxy.go Github/Proxy (Pin, and Flight for singleflight), executor.go
--   Github/Template and Github/Executor (the named operations), reconcile.go Github/Reconcile, query.go
--   Github/Query (the typed reads), and ingest.go Github/Ingest (redelivery, one poll).
-- - server/server.go is Server: which requests pass the bearer token's check.
-- - internal/issuekey/issuekey.go is IssueKey (the number of an issue in a branch's name) and
--   IssueKey/Closing (the issues that a text closes); Claude/Redact and Graph use them.
-- - graph/ (Graph): github_map.go is Graph/Issue (the panes and sessions of an issue and of a pull
--   request; Graph/Unseen has its loops), git_map.go and git.resolvers.go are Graph/Worktree, and
--   claude_map.go, tmux_helpers.go and the types of model/models_gen.go are Graph/Model.
-- - cmd/supergraph/subscribe.go, with parseVars of query.go, is Cli/Subscribe.
-- - Common: equality tests, dictionaries, a sort by name, signed integers, and the functions of Go's
--   strings, strconv and path packages on lists of codes (Bytes, Decimal, Split), JSON values (Json),
--   ORDER BY (Rows) and a loop that keeps the best element (Choose).
-- - Examples: the properties at concrete inputs.
--
-- How the state is modelled:
-- - A Go map, and the rows of a table under their primary key, is an association list with one entry
--   for each key. The SQL text of a statement is read as a function on its table. The driver can fail
--   at any statement: a call takes a fault, which says at which of its statements it fails.
-- - A time is a natural number of nanoseconds. How the time package prints and reads one is a parameter
--   where the program reads times back (TimeLayout in Core/Store), with the hypothesis that a printed
--   time is read back. A float of seconds is the exact number of nanoseconds.
-- - A text that is only compared is a String, and one that the program takes apart is the list of its
--   codes.
-- - A plugin's own code (Name, Cursor, its factory, Migrate) is a parameter of the supervisor. Goroutines
--   are steps in any order: Step in Core/Bus/Safety and in Core/Supervisor/Events, and
--   the sequences of emits in Core/Supervisor/Emits. A mutex makes each
--   operation one step.
-- - What git and tmux print and what a peer answers are arguments. A statement of git, tmux and peer
--   fails as a driver says, which is an argument too. Printing a number is recursion on fuel, one more
--   than the number, which is enough since each step divides it.
-- - What GitHub answers, the digest of a body, the decoding and printing of JSON, the parser of a raw
--   GraphQL query, and net's reading of an address are arguments (Upstream, Graphql, Outside, World,
--   System). One operation reads the clock once. A time that would go below zero stops there.
-- - The loop over the pages of repositories runs on fuel, and Github/Reconcile/Discovery says how much is
--   enough; that over the lines of a transcript has one more than the bytes that are left.
-- - A Go map that is walked takes the order of its walk as an argument (Sources in Graph/Issue). The
--   matches of a regular expression are its steps; the search for the next one has the text's length as
--   fuel, since each step drops a code. What a server sends over a WebSocket is a list of frames, which
--   ends where a read fails (World in Cli/Subscribe).
-- - A panic of the bus (a send on a closed channel, a second close) is `none`.
--
-- Not modelled: the GraphQL layer that gqlgen generates and the relays of its subscriptions, HTTP serving
-- and clients, the commands but subscribe, subprocesses, the tmux control mode, the loops around timers,
-- the fakes for tests and the measuring harness: they are I/O, third-party calls or generated code.
pub mod Claude
pub mod Cli
pub mod Common
pub mod Core
mod Examples
pub mod Git
pub mod Github
pub mod Graph
pub mod IssueKey
pub mod Peer
pub mod Server
pub mod Tmux
