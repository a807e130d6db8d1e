-- ===== src/Lib.antt =====
-- redog: a verification library for the proxy program of the same name.
--
-- The program accepts connections on its listeners, describes each by a `Metadata`, lets the tunnel
-- choose an adapter for it by the rules of the configuration, and relays the traffic through the
-- adapter while the connection stands in a table. The parts and the files that model them:
-- - Core: redog-core/src. Errors and `Result` (Core/Error, also `Outcome` for a call that may
--   panic, and the two builds), fixed-width arithmetic (Core/Words), addresses (Core/Address), the
--   metadata of a connection (Core/Metadata), and the traits `Rule` (Core/Rule) and `ProxyAdapter`
--   (Core/Adapter), each a record of its methods.
-- - Rules: redog-rules/src. The rules on domains (Domain), addresses (IpCidr), ports (Port) and the
--   final rule (FinalMatch), their parser (Parser: `parse_rule`), what they match (Matching,
--   Meaning) and how their lines are read back (RoundTrip).
-- - Component: redog-component/src. The trie of domains (Trie, trie.rs) with its children Paths,
--   Longest and Lookup, the pool of virtual addresses (FakeIp, fakeip.rs) with Range, Allocate,
--   Cycle, Lookup and History, over the cache of redog-common/src/cache.rs (Common/Cache), the
--   table of UDP sessions (Nat, nat.rs) with Sessions and CleanupLoop, and the sniffer (Sniffer,
--   sniffer.rs): the scan of a buffer (Scan), the parsers of a TLS hello (Tls, Message, Hello,
--   Total) and of an HTTP request (Http, Hosts).
-- - Config: redog-config/src. The data of the configuration (Types) and its validation (Validate,
--   Valid).
-- - Adapter: redog-adapter/src. The outbounds direct.rs and reject.rs (Outbound), the tracked
--   streams and datagrams of redog-core/src/conn.rs (Conn), and the groups selector.rs (Selector)
--   and url_test.rs (UrlTest: a round; Choice; Measured: the tests of the members;
--   HealthCheck: the loop).
-- - Tunnel: redog-tunnel/src. The counters and the table of connections (Statistics), the choice of
--   an adapter (Routing, FirstMatch, Order), the handling of a TCP connection (Handler), and the
--   system of all handlers (Leaks, Counting); the atomic operations of several snapshots of the
--   counters in any order (Speeds: Counted, Covers, Serial).
-- - Transport: redog-transport/src/socks5.rs. The bytes of a connection (Wire), the server's
--   handshake and the encoding of addresses (Socks5). Also redog-common/src/net.rs and
--   redog-tunnel/src/relay.rs (Net).
-- - Listener: redog-listener/src. The targets of HTTP requests, http_parse.rs (HostPort, Targets),
--   the SOCKS5 handler, socks/mod.rs (Socks, Requests), the HTTP handler, http/mod.rs (Http) over a
--   buffered reader (Reader, Reading, Headers) with what it makes of a request (Proxying; Ending:
--   the fuel), and the mixed handler, mixed/mod.rs (Mixed, Both); the loops that accept connections (Accept).
-- - Api: redog-api/src/server.rs. The tunnel that the handlers share (State), the handlers and
--   their routes (Server), and what a choice of a proxy or of the mode does (Entries, Selection,
--   Modes).
-- - App: redog/src/main.rs. The restarts of a listener (Restart); the configuration, the rules,
--   adapters, tunnel and listeners that the program starts with (Setup, Lines, Ports, Started); the
--   main loop with its handlers (Dispatch) over tokio's channel and semaphore (Libs), its permits
--   (Permits), its deliveries (Waiting, Delivery) and its progress (Progress), with one instance of
--   the two (Queues); a connection from a listener to its adapter (Journey); and the restarts of
--   the listeners' loops (Listening).
-- - Gui: redog-gui/src-tauri/src/api.rs. The client of the API (Client), the links of subscriptions
--   (Share, Links) and their pages (Subscription, Feed), over the crates in Libs; and sysproxy.rs,
--   the proxy settings of the system (Shell, Commands, SysProxy) and the copying of a command
--   (Clipboard); the menu of tray.rs (Tray, Tray/Menu), and the window of main.rs (Window).
-- - Dns: redog-dns/src/resolver.rs. The resolver (Resolver) and what it chooses (Choice).
-- - Common: lists, texts, numbers and UTF-8 as the Rust library defines them.
--
-- How the code corresponds. A method on `&self` that changes state takes the state as its last
-- argument and returns the new one; a lock or an atomic operation is one step.
-- A snapshot of the counters is four of them (Tunnel/Speeds); only where the counters do not matter
-- to a theorem, in Api, Leaks and Dispatch, it is taken at once. The calls on the table of UDP
-- sessions follow each other, so `cleanup`, three operations of the code, is one. A text is the list
-- of its code points, and bytes appear where the code sees them (Common/Utf8). A `HashMap` or a
-- `DashMap` is the list of its entries. `?` on a `Result` is `>>=`; a `Result` whose error is a
-- `String` is `Parsed`. Arithmetic on fixed-width integers that the code does not wrap or saturate
-- itself follows the build: `debug` panics on overflow, `release` wraps. Every loop is structural
-- but three kinds, which run on fuel: the one of App/Restart, where eleven calls are enough, since
-- the eleventh failure ends it; those of the sniffer, where the length of the buffer is enough,
-- since each turn moves on by three bytes at least; and the one over the headers of a request,
-- where the bytes that have still to come are enough, since a turn without any ends it.
--
-- What a peer sends is the finite list of what each read gives, with the end of file behind it; a
-- read that fails is not modelled. A peer that stays open and silent, or that sends headers without
-- end, is therefore not expressed: the handlers have no timeout and no limit on the headers, and
-- no theorem says that they end for such a peer.
--
-- The tasks of the program run one event at a time: a list of events is an interleaving, and an
-- event that is not possible changes nothing. The two waits of the main loop are two turns.
--
-- Parameters stand for what is not in the repository: the crates `lru`, and tokio's channel and
-- semaphore (with the laws that they document), `regex` and `ipnet`, the YAML and JSON libraries,
-- `base64`, `urlencoding`, `reqwest`, `str::to_lowercase`, the printing of addresses, the programs
-- of the operating system, and the sockets. The times that the connections of a round of URL tests
-- take, the time and what a relay ends with are arguments.
--
-- Not modelled: timers (their ticks are events) and the spawning of tasks, log output, the casts
-- `unwrap_adapter` and `as_any`, the traits of the providers, which nothing implements, and axum,
-- serde and Tauri, which decode the requests to the API, write its answers and draw the window and
-- the menu.
pub mod Common
pub mod Core
pub mod Rules
pub mod Component
pub mod Config
pub mod Adapter
pub mod Tunnel
pub mod Transport
pub mod Listener
pub mod Api
pub mod App
pub mod Gui
pub mod Dns
