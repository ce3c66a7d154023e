-- ===== src/Lib.antt =====
-- A model of the daemon of mihomo-tui, which runs the mihomo proxy core.
--
-- The program (mihomotui/) keeps one configuration, in memory and in two private files: the main
-- file with references, and a file with the secrets. Every change goes through an update function
-- on a copy, the validator, the files, and only then the memory. Client programs reach the daemon
-- over a Unix socket, where the peer's credentials decide its role. The browser gateway
-- (internal/webgateway) is one of these clients: it keeps sessions of its own, and passes on a
-- fixed list of requests.
--
-- The files and the code they model:
--   Prelude, Prelude/*: tests, lists, integers, texts and the loop that collects problems. They
--     model what the code uses of Go and of its `strings` package, over the native numbers.
--   Config/Types, Config/Lookup: the records of mihomotui/config.go, the rule record of
--     mihomotui/builtin_rules.go, the version record of mihomotui/mihomo_versions.go, and
--     FindSubscriptionByName and the other lookups. The index -1 is `none`.
--   Config/Validate, Config/Validate/*: `Validate` of mihomotui/config_validate.go. Scalars,
--     Subscriptions, Pools and Rules hold one function per section of it, and one step function
--     per loop. Below them, Ports, Members, Exact and Providers hold proofs.
--   Config/Secrets: mihomotui/secrets.go. Config/Secrets/RoundTrip holds proofs.
--   Config/Disk: writePrivateFileAtomically, writeRuntimeSecrets, loadRuntimeSecrets, Flush.
--   Config/Load: `LoadConfig` of mihomotui/config.go, with ensureBuiltInRules. Load/RoundTrip and
--     Load/Restart hold proofs, the latter across a commit and the next start.
--   Config/Store: commitConfigLocked, UpdateGlobalConfig and ReplaceGlobalConfig of
--     mihomotui/config_store.go.
--   Subscription: the operations of mihomotui/config.go on subscriptions and rule providers.
--   Subscription/Metadata, Subscription/Refresh, Subscription/Import, Subscription/Update: the
--     update functions of mihomotui/daemon_handlers_subscription.go. Refresh/Failover,
--     Refresh/Settled, Refresh/Liveness, Import/Names and Import/Imported hold proofs;
--     Prelude/Pigeonhole bounds the search for a free name.
--   Pool: mihomotui/subscription_pool.go and the update functions of
--     mihomotui/daemon_handlers_pool.go. Pool/Moves and Pool/Active hold proofs.
--   Reconcile: `runReconcile` of mihomotui/reconcile.go, with proofs on the order of its calls.
--   Ipc: mihomotui/ipc_auth.go. Ipc/Roles holds proofs on the roles; Ipc/Sockets models the
--     permissions of the socket and its directory.
--   Gateway/Sessions: the sessions and the login window of internal/webgateway/server.go, with
--     proofs in Bounds, Ended and Life below it.
--   Gateway/Requests, Gateway/Serve: `ServeHTTP` and `login` of server.go; Serve/Guards has proofs.
--   Gateway/Routes: `forward` of internal/webgateway/proxy.go; Routes/Endpoints lists the
--     calls that it may make, and Routes/Targets has proofs.
--   Gateway/Summary: `summaryStatus` of proxy.go.
--   Profiles: the pool of mihomotui/manager_profiles.go. Profiles/Normal holds proofs.
--   Generator: buildRuleConfig of mihomotui/mihomo_config.go, and Generator/Groups its
--     buildProxyConfig. Generator/Closed and Groups/Uses hold proofs.
--   Tun, Tun/*: mihomotui/tun_routing_linux.go. Tun has the data and the host, Tun/Actions the form
--     of the functions, Tun/Commands the execution of one command. Tun/Policy, Tun/Preflight,
--     Tun/Nft, Tun/Legacy and Tun/Setup hold the functions. Tun/ReadOnly and Tun/Justified say which
--     commands only print and which are allowed; Refusal, Justified/*, Nft/Project and Legacy/Loops
--     hold proofs.
--   Tests/*: concrete configurations, and each theorem at one of them.
--
-- Fallible code returns a result type. A Go `int` whose sign the code tests is an integer of
-- Prelude/Int, and a count that is never negative is a natural number; both are unbounded, since
-- the values are ports, intervals and versions far below 2^63. Problems and errors are values with
-- the data that the code prints. A configuration that the code clones is a value here, so that
-- aliasing cannot arise. The loops run over lists by structural recursion. Two run
-- on fuel: the loops of Tun/Legacy, which repeat a deletion until it fails, on a bound of the host
-- plus one, which is enough when each deletion leaves fewer rules; and the search for a free name in
-- Subscription/Import, on twice the number of subscriptions plus two, since each has two identifiers.
--
-- A routine of Tun takes the machine, the state file and the commands run so far, and returns them
-- beside its result or its errors. The list of commands, with what each read and printed, is kept
-- for the proofs: a command may be allowed by what an earlier one printed. The text of an
-- error is modelled where the code looks into it, and a reason stands for it elsewhere.
--
-- Times of the gateway are counted in nanoseconds, as natural numbers.
--
-- Parameters: the functions of package `net` and `url` (`NetLib`), the YAML package (`Yaml`, with
-- the law that reading gives back what was written), what the operating system answers to a write
-- (`OsAnswers`) and to a read (`ReadAnswers`), clocks, random IDs, the
-- default tables, the user database, `path.Clean`, the JSON codec of the gateway, and, as a record
-- `Host`, the executor of commands, the decoding of their output, and the state file's errors.
--
-- Not modelled: downloads, HTTP and JSON, what the commands do to the kernel, the core's process,
-- the global part of the generated configuration, the terminal pages and the web pages.
pub mod Prelude
pub mod Config
pub mod Subscription
pub mod Pool
pub mod Reconcile
pub mod Ipc
pub mod Gateway
pub mod Profiles
pub mod Generator
pub mod Tun
pub mod Tests
