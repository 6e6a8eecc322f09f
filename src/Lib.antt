-- ===== src/Lib.antt =====
-- docker-socket-policy: a proxy in front of the Docker daemon's socket that lets a caller do what the
-- policies of the host allow. This library models its Rust implementation, under rs/src.
--
-- A request comes to the handler (rs/src/handler.rs), which asks the router (rs/src/proxy.rs) what to do
-- with it. The router denies it, allows it, gives a container create to the chain of the mutator and the
-- gates (rs/src/middleware.rs) with the policy that the manager (rs/src/policy.rs) selects, or asks the
-- handler to resolve a container by the daemon first. What is allowed goes to the daemon by the transport
-- (rs/src/transport.rs), and every decision is written to the audit log (rs/src/audit.rs).
--
-- The files, with the code that each models:
--   Base, Json: texts as UTF-8 bytes, results, maps, and the JSON values of serde_json.
--   Message: the errors and deny reasons, one constructor for each format string.
--   Policy: Policy and the rules of names, of rs/src/policy.rs; Policy/Groups: group_list and
--     check_group_add.
--   Image: parse_image_ref, normalize_name, matches_image_prefix and check_image_tag.
--   Manager: select_for_create, covering and check_conflicts; Manager/Load: Manager::new, where the
--     directory is a value.
--   Query, Paths: parse_query, query_unescape, create_name, strip_api_version and the tests of paths, of
--     rs/src/proxy.rs, and path_escape of rs/src/handler.rs.
--   Router: route_request; its children Route, Create and Pull have RouteResult, route_create with
--     route_by_name, and route_image_pull.
--   Gates: what the gates share, with one child for each gate of rs/src/middleware.rs.
--   Mutator: ContainerConfigMutator and force_endpoints; Chain: Chain::execute.
--   Handler: Handler::handle; its child Inspect has resolve_container. The state, World of State, is the
--     requests sent to the daemon and the entries of the audit log so far. Its child Tasks is `handle` as
--     a task that gives way at each `.await`, and the tasks of many requests, in any interleaving.
--   Transport, Audit: rs/src/transport.rs and rs/src/audit.rs; Audit/Trail writes the entries of the
--     tasks to the log's file.
--   Listener, for rs/src/main.rs: Addresses and Group check the flags; Effects is the operating system,
--     with the calls made of it as state; Socket is open_listener with the lock, the socket path and the
--     bind; Start is main up to the listener's task; Serving is the task, its connections and the
--     shutdown, as events in any order.
--   Examples: the tests, on a host with two policies.
-- The other children of these modules hold proofs.
--
-- Parameters stand for what is not in the repository: the regex crate (Regex), serde_yaml (`yaml`),
-- serde_json's parser and printer (`from_slice`, `to_vec`), the http crate's check of a URI (`uri_error`)
-- and the daemon (`transport`, whose answer may depend on all that it was sent). For the transport they
-- are tokio's connection and hyper's client (Hyper), for the audit log the file, the clock and the random
-- bytes, and for the start the system's calls (Os, whose answers may depend on all calls before), the
-- group database (`getgrnam`) and clap's parsing. In Handler/Tasks the daemon's answers are arbitrary.
-- Three theorems assume something of these: that the system's umask gives the mask that was set before,
-- that GIDs are of 32 bits, and that the log file takes the lines that are written to it. All loops are
-- structural recursion; there is no fuel.
--
-- A `str` is the list of its bytes. A number of JSON is a u64, an i64 below zero, or an f64 given by its
-- bits. The keys of a map are in the order of their bytes.
--
-- A broadcast reaches the receivers that were made before it, as the documentation of tokio says. A signal
-- is sent at most once by each of the two signal tasks. A connection that is shut down takes no new
-- request.
--
-- Not modelled: the log lines of the program, the setting up of the log, and the times of the timeouts,
-- which are events. The Go and TypeScript implementations (go, ts) and the Quint specification (spec) are
-- other programs.
pub mod Base
pub mod Json
pub mod Message
pub mod Policy
pub mod Image
pub mod Manager
pub mod Query
pub mod Paths
pub mod Router
pub mod Gates
pub mod Mutator
pub mod Chain
pub mod Handler
pub mod Listener
pub mod Transport
pub mod Audit
pub mod Examples
