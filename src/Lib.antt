-- ===== src/Lib.antt =====
-- A model of pathosd, a daemon that announces virtual IPs (VIPs) by BGP while their health checks pass.
--
-- The parts and how they meet. A config file is parsed, filled with defaults and validated
-- (internal/config/load.go, defaults.go, validate.go). A scheduler (internal/checks/scheduler.go) runs
-- one check of one VIP again and again, and turns its results into health with the thresholds `rise` and
-- `fall`. It calls the policy manager (internal/policy/manager.go) with every result and with every
-- change of health. The manager combines the health of a VIP's checks by its checks policy
-- (internal/config/checkspolicy.go), decides by the VIP's policy whether it is announced, pessimized or
-- withdrawn (internal/policy/engine.go), and has its BGP notifier install or remove the route; a notifier
-- that fails is called again at the next result. That notifier is the BGP manager
-- (internal/bgp/manager.go), which builds a path and hands it to an embedded GoBGP server. A reload of
-- the config (internal/reload/reload.go) takes the difference of the running config and the file's
-- (internal/config/diff.go), adds and removes VIPs, has the new checks of a changed VIP run in the
-- shadow until they have a verdict, and then switches the VIP in the manager
-- (internal/policy/reload.go) and its schedulers (internal/checks/registry.go).
--
-- Which file models what. A definition has the name of its function in snake_case; a comment over it
-- gives the Go declaration.
--   Common/             tests on numbers, lists, integers, Go maps as association lists, decimals, texts
--                       in order and joined by commas
--   Config/Sections, Config/Checks, Config/Vip
--                       the structs of internal/config/config.go
--   Config/Stdlib       the parsers of Go's library and of gojq that the config goes through
--   Config/Defaults     internal/config/defaults.go; Defaults/Http and Defaults/Checks are about checks
--   Config/Validate     internal/config/validate.go: Validate/Services, CheckTypes, Policy, Vips and
--                       Sections; Validate/Distinct and Validate/Pace are about what it accepts
--   Config/Load, Config/Placeholders
--                       internal/config/load.go
--   Config/ChecksPolicy internal/config/checkspolicy.go; ChecksPolicy/Combine is about Eval
--   Config/Diff         internal/config/diff.go, with reflect.DeepEqual in Config/Equality
--   Model/              internal/model/model.go: states, attributes of a route, details of a check
--   Checks/Result       internal/checks/check.go
--   Checks/Scheduler    internal/checks/scheduler.go; the files below it compare it with a
--                       specification over the whole history of results
--   Checks/Registry     internal/checks/registry.go
--   Checks/Guard        internal/checks/localaddr.go; Guard/Missing puts it in front of a scheduler
--   Policy/Engine       internal/policy/engine.go
--   Policy/Notifier     the interface BGPNotifier, with the behaviour that the manager relies on
--   Policy/State, Policy/Manager, Policy/Handlers
--                       internal/policy/manager.go: the state, its helpers, the handlers of events
--   Policy/Commit       internal/policy/reload.go
--   Policy/Status       GetVIPStatuses of internal/policy/manager.go, and the managers that a run reaches
--   Policy/Sync         the manager's VIPs against the routes that are installed
--   Policy/Verdict      the state of a VIP against the health of its checks
--   Policy/Runs         the runs of the manager from its start on, and both of these throughout them
--   Bgp/Gobgp           the GoBGP server, as far as the BGP manager relies on it
--   Bgp/Communities     parseCommunities, and stringifyCommunities of route_state_metrics.go
--   Bgp/Manager         the routes of internal/bgp/manager.go; Manager/Implements makes it a notifier
--   Bgp/Peers           how that file sets up GoBGP, and UnreadyPeers of internal/model/summary.go;
--                       Bgp/Negotiates is about the address families of peers
--   Bgp/Accepted        the routes of a config that Validate accepts
--   Bgp/Ranks           how long the AS paths of two nodes are
--   Reload/Build        NewSchedulers of internal/reload/reload.go
--   Reload/State, Reload/Staging, Reload/Commit
--                       the Reloader, its staged VIPs, and their commit
--   Reload/Prepare, Reload/Apply, Reload/Attempt
--                       reloadLocked: what it builds, what it changes, and one reload as a whole
--   Reload/Progress, Reload/Outcome, Reload/Pace
--                       what a reload leaves behind, and what a loaded config lets it build
--   Tests/              the theorems at concrete inputs
--
-- How the code is modelled. Each method of the manager, of a scheduler, of the registry and of the
-- reloader holds a lock while it changes its state, so it is a function from a state to a state, and
-- a run of the program is an interleaving of such steps. The clock and os.Stat are read through
-- `Env`. Writes to metrics and calls of the transition listener are values of `Effect`, the newest
-- first; the policy manager's call of the notifier changes the notifier's state in `World`. A Go int
-- is an integer without bounds: prepends and thresholds are small numbers of the config, and a
-- counter stops at its threshold. A duration counts nanoseconds, and the product in stagingDeadline
-- does not overflow; a float64 of a ping is a count of its smallest unit. A Go map is an association
-- list in which a key stands once; Go leaves open in which order a loop visits a map, and the loops
-- modelled here have a result that does not depend on it, except for the order in which metrics are
-- deleted, in which staged VIPs are committed and shadows promoted, and in which kept VIPs are put
-- back. A nil slice and an empty one are the same list, and reflect.DeepEqual compares a map as its
-- list. An error is a value without its text; a problem that Validate finds is the path of its field.
-- A *Scheduler of the reloader is an address into a pool, since the registry, a staging and a list of
-- verdicts share it. The hash [32]byte{}, which stands for no file, is `none`. RemoveVIP of the
-- registry can panic, and then a reload gives `none`.
--
-- What is a parameter: expr-lang (`ExprLang`: what compiles, and what a program gives); the parsers
-- of Go's library and of gojq (`Stdlib`, without assumptions); the decoders of YAML and TOML and the
-- environment (`Decoders`, without assumptions); the hash, the factory of the checkers and the levels
-- that a logger takes (`Host`, without assumptions); the BGP notifier of the policy manager
-- (`Notifier`), of which is known that a success installs or removes the route of its prefix, that a
-- failed withdrawal changes nothing, and that routes of prefixes that do not overlap are left alone.
-- Bgp/Manager/Implements proves these of the BGP manager, over a GoBGP server (`Gobgp`) of which is
-- known how AddPath and DeletePath change its table, by UUID and by prefix. Tests/ has an instance of
-- each. Every loop is structural recursion; the only fuel is that of print_digits in Common/Text, one
-- more than the number that is printed: a number `n` has at most `n + 1` digits.
--
-- IsSynced (Policy/Sync/Managers) says that the VIPs are in step with the routes: each that has no
-- retry pending has the route its state and policy call for, if a notifier is set, and no two VIPs
-- share a route. IsEvaluated (Policy/Verdict) says that the health of a VIP is that of its checks and
-- its state the verdict of its policy. The theorems on events and commits take such a predicate from
-- one state of the manager to the next. IsConsistent (Bgp/Manager/Consistent) says that each UUID
-- that the BGP manager remembers was given out by the server, and that its route, if it is still
-- there, is that of its prefix.
--
-- Not modelled: the network checks themselves, whose results are the input of a scheduler; the
-- tickers and the tracing; the text of a duration; the sessions of GoBGP with its peers, and the
-- metrics of the routes but for stringifyCommunities; what renders the state (HTTP API, metrics,
-- status text); logging, telemetry, the start of the daemon and its command line.
pub mod Common
pub mod Bgp
pub mod Checks
pub mod Config
pub mod Model
pub mod Policy
pub mod Reload
mod Tests
