-- ===== src/Lib.antt =====
-- frp: a fast reverse proxy, a server frps and a client frpc (Go).
--
-- The server hands out remote ports, registers clients, joins proxies to groups and routes requests by
-- host, path and user. The client keeps each proxy in a phase, watches the service behind it and reads
-- its configuration from a file and a store. Two clients make holes in their NATs with the server's
-- advice. Each part is modelled with its whole state, and one function for each operation.
--
--   Server/Ports         src/server/ports/ports.go: Manager (PortManager), Acquire, Release, cleaning
--   Server/Registry      src/server/registry/registry.go: ClientRegistry, Register, MarkOfflineByRunID
--   Server/Group         src/server/group/tcp.go, base.go, registry.go: TCPGroupCtl, TCPGroup, baseGroup;
--                        it calls the port manager of Server/Ports (Tcp, with Steps for the critical
--                        sections); src/server/group/http.go:
--                        HTTPGroupController, HTTPGroup (Http), over the routers of Util/Vhost
--   Server/Proxies       src/server/proxy/proxy.go: Manager
--   Server/Logins        src/server/control.go: ControlManager; src/server/service.go: RegisterControl, over
--                        Server/Registry
--   Server/Visitors      src/server/visitor/visitor.go: Manager
--   Server/WorkConns     src/server/control.go: the pool of work connections of Control (RegisterWorkConn,
--                        GetWorkConn, the end of worker)
--   Server/Control       src/server/control.go: Control (RegisterProxy, CloseProxy, the end of worker),
--                        over Server/Proxies
--   Util/Texts           what is used of Go's package strings
--   Util/Naming          src/pkg/naming/names.go
--   Util/Decimal         what is used of Go's package strconv
--   Util/FeatureGate     src/pkg/policy/featuregate/feature_gate.go: featureGate
--   Util/DateCounter     src/pkg/util/metric/date_counter.go: StandardDateCounter
--   Util/Transporter     src/pkg/transport/message.go: transporterImpl
--   Util/Vhost           src/pkg/util/vhost/router.go: Routers (Router); http.go and vhost.go: the search
--                        for a host, getVhost and getListener (Find)
--   Client/Wrapper       src/client/proxy/proxy_wrapper.go: Wrapper and its phases; it uses Util/Naming
--   Client/Proxies       src/client/proxy/proxy_manager.go: Manager, over Client/Wrapper; Client/Keyed has
--                        what managers of configurations share
--   Client/Visitors      src/client/visitor/visitor_manager.go: Manager
--   Client/Health        src/client/health/health.go: Monitor
--   Nathole              src/pkg/nathole/classify.go (Classify), analysis.go (Behaviors: the tables;
--                        Records: the scores of two peers; Analyzer: the records by key),
--                        controller.go (Sessions: clients and sessions; Decisions: what peers are told)
--   Config               src/pkg/config/source/store.go, base_source.go, config_source.go (Store, with
--                        Reading for the opening of a store), aggregator.go (Aggregator);
--                        src/pkg/config/types/types.go: PortsRangeSlice (PortsRanges)
--   Prelude              shared types: Go strings as lists of bytes, maps as functions or as lists of
--                        entries, integers
--
-- Each theorem stands in a module named for what it shows, and Examples holds the tests of a part.
--
-- A method on a pointer is a function from the state to the next state. Where goroutines share objects
-- by reference (a portCtx that a port and a reservation share, a group that a retry has found) the
-- objects stand in a heap under their address. A call that holds a lock from its start to its end is one
-- step where its state has no other lock. The calls of a TCP group hold the group's lock over calls of the
-- registry and of the port manager, which have locks of their own: Server/Group/Tcp/Steps takes each as a step,
-- with the other groups and the other users of the port manager in between. The functions listen_group and
-- listen compose these steps for a call alone; listen has any changes between the rounds and their two parts.
--
-- Times are nanoseconds since some start (seconds in Util/DateCounter), and ports, modes and indices are natural numbers: negative
-- ones are out of scope. Strings are bytes, and ToLower is that of ASCII. The order in which a map is
-- iterated, whether a port can be bound, what the network answers and whether a file can be saved are
-- arguments. The answer for a port is the same during one Acquire. The uint64 of failures in the
-- health monitor wraps around, and its conversion to int turns negative at 2^63.
--
-- The loops of TCPGroupCtl.Listen and HTTPGroupController.Register run on a list of rounds, one for each
-- time that they may be repeated; they end in the first round in which the group is not stale. The loop over the free ports runs on the
-- number of tries, five in the source. All other loops are recursions on lists.
--
-- Not modelled: connections and the goroutines that copy data, the HTTP proxy and the muxers around the
-- routers, logging, metrics, authentication, plugins, the parsing of configurations, user interfaces.
mod Prelude
pub mod Server
pub mod Util
pub mod Client
pub mod Nathole
pub mod Config
