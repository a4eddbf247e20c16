-- ===== src/Lib.antt =====
-- The network client's Windows service (service/network-service/src): a tray client asks it to connect
-- through a remote node; it runs a proxy core as a child process, points the system proxy at the core's
-- local port, counts the traffic, routes flows by rules, and undoes all of it on a disconnect, after a
-- failure and after a crash.
--
-- The parts and their files. The paths on the right are below service/network-service/src.
--   Prelude           texts, lists, JSON values, decimal texts; Prelude/Error is common.rs
--   App/State         app/state.rs: ConnState, StateStore and its writes. The children prove the
--                     properties: Store (each write), Graph (the diagram), Trail (histories), Parse
--   App/Lifecycle     app/lifecycle.rs. State is ConnectionManager with cleanup_partial, abort_start and
--                     persist_runtime; Connect is connect_locked, Disconnect is disconnect, Recover is
--                     recover, mark_recovered and startup_recover. Invariant says what holds between two
--                     operations; Steps, Safety, Closing, Recovery, Corners and Runs prove it and more
--   Route             route/manager.rs and route/bypass.rs. Registry is the module wininet, Endpoint the
--                     texts, Manager the operations of RouteManager; Restore, Crash and Baseline prove
--   Routing           routing/: Rule is rule.rs; BitTrie, DomainTrie, IpIndex and Index are matcher.rs;
--                     GeoIp is geoip.rs, Engine and Boot are engine.rs; Lpm, Cidr, Arena, Suffix, Domain,
--                     Private, Restart and Decision prove
--   Nodes             nodes/model.rs and nodes/manager.rs; Keys proves
--   Statistics        statistics/manager.rs with the statements of database.rs; Flush proves
--   Config            Schema and Defaults are config/schema.rs, Manager is config/manager.rs; Saves proves
--   Proxy             Core is proxy/manager.rs and proxy/adapter.rs: the core's process; Singbox and
--                     SingboxDns are config_builder.rs, Xray and Xray/Document are xray_builder.rs;
--                     SingboxDns/Declared, Singbox/Tags, Singbox/Builds and Xray/Transports prove
--   Tun               tun/manager.rs and tun/packet.rs; Bounds proves
--   Health            health/monitor.rs: the supervisor loop; Rounds proves
--   Dns               Cache is dns/cache.rs, Wire is dns/wire.rs, Resolver and Manager are the files of
--                     their names; Fresh, Wire/Names, Wire/Question, Wire/Answer, Manager/Answers and
--                     Manager/Tuned prove
--   Subscription      Link, Ss, Vmess, Trojan, Vless, Socks and Parser are subscription/parser/; Decoder is
--                     decoder.rs; Manager, Refresh and View (with mask_url of common.rs) are manager.rs; Crates
--                     holds what other crates do.
--                     HostPort, Share, FreshNode, Counts, Lines
--                     and the children of Refresh and View prove
--   Ipc               ipc/frame.rs; Stream proves
--   Tests             the theorems at concrete inputs
--
-- How the code corresponds. An operation is a function of the state of its manager that returns the new
-- state, and its result where it has one. `SvcResult` is the result, `?` is `>>=`. ConnectionManager
-- holds the states of the managers it calls, so a call that fails half-way leaves what the code leaves.
-- What the outside answers during one operation (registry calls, the process, sockets, files, the
-- database, the clock, new ids) is an argument, mostly a record named ...Answers, and the theorems are
-- for all answers unless they say otherwise. A text is the list of its code points, a HashMap an
-- association list, an address the list of its octets. Numbers are natural; a counter of the code that
-- wraps has `% 2 ^ w` written out. Logging and waiting leave no trace.
--
-- Concurrency. connect, disconnect and startup_recover hold one guard for their whole length, so they are
-- steps here. recover runs in the supervisor task without the guard; it is a step as well, so an
-- interleaving of recover with a disconnect is not covered. The locks inside a manager are not modelled.
--
-- Loops. All recursion is structural, on a list, a text or the bits of an address, but for four. The
-- digits of a decimal text take the number itself as fuel. The rounds of the supervisor take fuel, and one
-- unit more than there are ticks is enough, since each recovery follows a tick of its own. The loop that
-- reads a DNS name follows 16 pointers at most and passes over the message at most once between two of
-- them, so 17 rounds for each byte and 17 more are enough. The loop that fills a base64 text up to a
-- multiple of four has three rounds at most.
--
-- Not modelled: the desktop client, the pipe server and its protocol, the node probes and all that
-- is computed with floats, the netsh and wintun calls, diagnostics, the gRPC calls for the counters
-- of a core. Parameters are: the text of a JSON value in Proxy, the regex crate and the parser of
-- addresses in Routing and Dns, the exchange of bytes with a DNS server, and in Subscription the
-- download, DPAPI, and the crates for base64, percent decoding, URLs and JSON texts.
pub mod Prelude
pub mod Tests
pub mod App
pub mod Route
pub mod Config
pub mod Nodes
pub mod Proxy
pub mod Statistics
pub mod Tun
pub mod Routing
pub mod Ipc
pub mod Dns
pub mod Health
pub mod Subscription
