-- ===== src/Lib.antt =====
-- MCP-Lock: a broker that stands between an MCP client and the tool servers that it supervises.
--
-- Only the tools that the operator's manifest declares read-only are exposed by default. A
-- server's other tools are exposed while an elevation is active, and an elevation is granted on a
-- challenge signed with a key of a registered client. This library models the security core of the
-- program, the client that speaks to a child, the command line, the daemon that starts it all, and
-- the mail server that is its first child.
--
-- Manifest (crates/core/src/manifest.rs): the operator's manifest, its tool classes, `validate`
--   and `load_from_bytes`.
-- Policy (crates/core/src/policy.rs): `classify`, elevations (Policy.Grant) and
--   `resolve_exposure`.
-- Broker (crates/core/src/broker.rs): `ServerSlot` and `BrokerState`, built from the first two.
-- Elevation (crates/core/src/elevation.rs): the message that is signed (Elevation.Challenge), and
--   the registry and the nonces (Elevation.Store). What it grants goes into a slot of Broker.
-- Auth (crates/core/src/auth.rs): the bearer token of the MCP endpoint.
-- Child (crates/broker/src/mcp_client.rs): the errors of a child, and what can be asked of one.
-- Client (crates/broker/src/mcp_client.rs): the client of one child: the lines of its output
--   (Lines), the requests and the wait for an answer (Requests), what a child is asked
--   (Operations), the end of the child (Reap), and the client as a child of the aggregator
--   (Supervised).
-- Aggregator (crates/broker/src/aggregator.rs): its state (Data), `build` (Build), pause, resume,
--   stop, start, approvals and the reaping of dead children (Lifecycle), `call` (Calls) and
--   `aggregated_tools` (Listing). It keeps a broker state, its children and their tools; Actions
--   makes every sequence of its operations a relation.
-- Audit (crates/core/src/audit.rs): the tape that the two handlers write.
-- Control (crates/transport/src/control.rs, crates/broker/src/control_handler.rs): the requests of
--   the control channel. `Handler` holds the aggregator, the nonces, the registry, the tape and
--   the log; Observe, Commands, Presence and Grants are its methods, Handle the match on the
--   request. Channel is the exchange of one request and its response.
-- Cli (crates/cli/src/main.rs): the command line: its arguments (Args), what it prints (Output)
--   and its commands (Session), which speak to the broker over Channel. Callable leads from a
--   command to the calls of an MCP client.
-- Mcp (crates/broker/src/handler.rs): the requests of the MCP client, over the JSON of Json.
-- Endpoint (crates/transport/src/endpoint.rs): the HTTP endpoint of the MCP client: the
--   subscribers (Notifier), the event stream (Stream) and the handling of one request (Requests),
--   behind the token of Auth.
-- Daemon (crates/broker/src/main.rs): the start of the broker: its arguments (Args), the registry
--   and the tape, and the check of a manifest. `Served` holds one aggregator and one tape; a request
--   of Mcp or of Control runs on these and leaves them to the next one (Requests).
-- Mail (crates/mail): the mail server, in the files of the source: mailstore.rs (Store), fake.rs
--   (Fake), tools.rs (Arguments and Tools), jsonrpc.rs and server.rs (Server), config.rs (Config)
--   and imap_backend.rs (Imap).
-- Prelude: what the parts share. BTreeMap is an association list in ascending order of the keys,
--   Hex the hexadecimal texts of nonces, Bytes the UTF-8 encoding of a text.
--
-- A method that changes its object returns the new value beside its result. A u64 is a native
-- number: `saturating_add` is cut at 2 ^ 64 - 1 and `saturating_sub` is the subtraction that stops
-- at 0. Identifiers and names are texts, compared as the source compares them. A loop is by
-- recursion on its list; the loop that reaps a child has fuel, its 101 rounds, which its theorem
-- shows to be enough, and the printer of a number has the 20 digits of a u64.
--
-- Ed25519 (`verify_strict`, `VerifyingKey::from_bytes`), the JSON serializer and the random
-- generator are parameters: a key type and functions, and the nonce drawn as an argument. So are
-- the children and their spawner (`McpChild`, which Client fills), the JSON values (`Json`), the
-- serializer of the tape and the writes to its file, at the endpoint the HTTP library and the
-- handler behind it, and in the mail server the IMAP session, the mail parser and the lower case
-- of Unicode. What an operation reads from a clock or the generator is an argument. The daemon's
-- environment, files and listeners are the parameter `System`; a variable that is set is a text.
--
-- A request to a child first writes its line, and then reads a channel of which each item has its
-- time of arrival. The write says how long it took, and the deadline of the answer is set when it
-- returned, as in the source; a write that blocks for ever, for which the source has no deadline, is
-- not covered. Time passes in a write and in a wait only.
--
-- A request runs from its start to its end before the next one: the locks are there for poisoning
-- only, and what another thread does between two locks of one request is not modelled. TLS,
-- sockets, the accept loops, processes and threads are not modelled.
pub mod Prelude
pub mod Manifest
pub mod Policy
pub mod Broker
pub mod Elevation
pub mod Auth
pub mod Audit
pub mod Child
pub mod Json
pub mod Aggregator
pub mod Control
pub mod Mcp
pub mod Endpoint
pub mod Client
pub mod Mail
pub mod Cli
pub mod Daemon
