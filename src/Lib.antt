-- ===== src/Lib.antt =====
-- Verification library of moduless, a gateway that runs plugins as processes of their own.
--
-- A request goes through phases. In each phase the core asks the filters of the plugins that match
-- the request (core/pipeline, pathmatch, manifest); each call is guarded by the circuit breaker of
-- the plugin's process (core/pluginhost), and a plugin calls back for the services of the host
-- (core/hostsvc).
--
-- Files:
--   Base          lists, text as lists of bytes, association lists, integers
--   Pathmatch     pathmatch/pathmatch.go. Defs has Compile, Pattern.Match, CompileSet and Set.Match;
--                 Spec says what a pattern means without a scanning order; Segments, Laws, Literal and
--                 Compiled relate the two
--   Manifest      manifest: Filters (CompileFilters, CompiledFilter.Matches), Plugin (Validate and
--                 the root of a manifest), Plugin.Config (MergeConfig), Menus (the menu tree) and Cron
--                 (cron.go)
--   Pipeline      core/pipeline: Headers (headers.go), Context (context.go), Chain (chain.go) and
--                 Runner (runner.go). Run and runOne are run and run_one; the interfaces Target and
--                 Resolver are the record Plugins, a section parameter, so what a plugin answers is
--                 arbitrary
--   Pluginhost    core/pluginhost: Breaker (breaker.go) and Instance (instance.go). Instance.Race has
--                 BeginRequest and Drain as atomic operations in any interleaving. Supervisor
--                 (supervisor.go) has the crash counts and the passes of recover. Registry
--                 (registry.go) has the weighted round-robin of pick, Registry.Table the snapshots and
--                 InstallPlugin; Package (package.go, and Load of manifest/manifest.go) reads and
--                 checks a plugin; Manager (manager.go) enables, disables and upgrades it, over the
--                 registry, the packages and the supervisor; Scheduler (scheduler.go) runs its jobs
--   Hostsvc       core/hostsvc: Keys, Cache and Locks (memory.go), and Egress (egress.go), where the
--                 HTTP library is the record Web, a section parameter; Dial has guardedDial and
--                 blockedIP of the same file. Files (files.go) has the files of plugins, its calls of
--                 the object store and of the generated queries being the record Backend, a section
--                 parameter, and Files.Calls the RPC handlers of rpc_files.go with the permission
--                 test of server.go
--   Gateway       core/gateway: Menu (menu.go), the tree that the console is sent; and
--                 plugin_handler.go, where Serve has serve and servePlugin, Backend has callBackend and
--                 dispatch, Handler the responses, and Routes splitPluginPath, normalizeStatus and
--                 traceIDFor. The filters are the record Plugins, as in Pipeline; the plugins'
--                 backends are the record Backends, and the rest of the gateway is a function
--   Db            core/db: Sql (cmds.go) has identifiers and table names, Query and Pages (query.go)
--                 the statement of Query and the reading of a page, Tx (tx.go) the registry of open
--                 transactions and Versions the versioned writes and batches of the same file. What
--                 PostgreSQL does with a statement is an argument of query; the statements that write a
--                 document are data, and the record Engine answers them, under laws that hold of any
--                 settings and conditions
--   Event         core/event/bus.go: the subscribers of the bus and, as a table of channels with what
--                 each holds, the channels that Publish sends to without blocking
--
-- A string is its list of bytes. A Go map is an association list, its order that in which Go ranges
-- over the map. A method under a mutex, or one of atomic operations, is one step on its record; runs
-- are lists of steps by any goroutines. Clock readings and random ids are arguments. Times are
-- nanoseconds. int32 values wrap around, and so do the int counters of the round robin and the
-- timeout that a filter declares; else int is ℤ, negative statuses of plugins included. Upper case,
-- white space and header names are those of ASCII.
--
-- The loop of MemoryLocks.Acquire runs over a list of rounds, which stands for the passing of time; a
-- round holds what other goroutines did to the table before it. In the same way Supervisor.recover runs
-- over a list of passes. The loop of parsePart over a range (Cron.mask_loop) runs on fuel 200, which
-- is above its rounds whatever the step: a field has at most 60 values, and a sum that wraps around
-- leaves the range for good after a few rounds. Every other loop is recursion over the data.
--
-- An instance is a number, its state behind a heap where it matters. A call of the manager is one
-- step: calls are taken one after another, and what LoadPackage finds on disk and what launchOne
-- answers are arguments. The processes that a call watches, drains or kills are listed in order. The
-- round-robin counters are int, of 64 bits, and wrap around.
--
-- TxRegistry.Begin gives its lock back while the database opens a transaction. So it is three
-- operations, admit and then opened or refused, and Tx.Steps lets any other calls run between them;
-- an id that Begin makes is one that is not in use. A request is served by functions that each end
-- with what follows them, in the order of the source's returns; the log phase, which is deferred,
-- gets the context that the last of them leaves. Operators of predicates, as other texts whose case
-- is changed, are ASCII.
--
-- Not modelled: gRPC and generated messages, process launch, the meaning of SQL, the job queue and
-- migrations, the gateway's other handlers, sessions, the SDK, base64 and JSON, the YAML decoder and
-- SHA-256 (arguments of the definitions that use them), and the cancellation of a call by its
-- timeout, which is one of the ways in which a call fails.
pub mod Base
pub mod Pathmatch
pub mod Manifest
pub mod Pipeline
pub mod Pluginhost
pub mod Hostsvc
pub mod Gateway
pub mod Db
pub mod Event
