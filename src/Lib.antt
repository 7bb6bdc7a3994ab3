-- ===== src/Lib.antt =====
-- Model of sidero-proxy, a TCP proxy for Minecraft servers. A proxy accepts the connections that its nft
-- rules redirect, gives each client an internal address, maps the client to it in the kernel while the
-- connection lasts, reads the handshake to choose a backend, and forwards the bytes. A watcher on the
-- backend's host keeps bans and the node's DNAT rules, and a controller fails hostnames over in DNS.
--
-- The files and the code that each is about:
--   Base            shared names; Go's strings, sort, net addresses, maps and (value, error) pairs
--   Minecraft       internal/minecraft/handshake.go: readVarInt, parseVarInt, ReadHandshakePacket,
--                   NormalizeHostname; a reader or a slice is the list of the bytes left
--   Nft             internal/nat/nat.go: the script runner and the tolerated errors; its children give
--                   the commands that are issued and the rules that they leave
--   Nat             internal/nat/nat.go: NATManager.Add and Delete are `add` and `remove`; Nat.Elements
--                   has the two element runners, Nat.Netlink and Nat.Native what the
--                   kernel makes of the native one, Nat.Chains the three chain managers
--   Filter          internal/filter/filter.go: Ensure, Block and Unblock
--   Redis           the Redis commands as a parameter with laws, and a small store that meets them
--   Registration    internal/registration/registration.go: Register and the slots of the subnets;
--                   Registration.Listing is ListProxies
--   Assignment      internal/assignment/assign.lua as one step, and CounterToInternalIP;
--                   Assignment.Service has the methods of Service
--   Config          internal/config/config.go: the settings, their validation and their loading
--   Router          internal/router/router.go: New, resolveServer and handleConn, which is the list of
--                   the calls that one connection makes under given answers; Router.Listener is Start
--   Failover        internal/failover/controller.go: Reconcile, ensureHostname and Run;
--                   Failover.Cloudflare has the HTTP clients of cloudflare.go and healthcheck.go,
--                   and what the API promises them
--   Forwarder       internal/forwarder/forwarder.go: Proxy, as the steps of its two goroutines
--   Watcher         internal/watcher: Docker and Events are docker.go, NoSnat is nosnat.go, and Files,
--                   Bans, Node and Service are watcher.go, by what they are about; Service has Start,
--                   and the main of cmd/watcher
--   Health          internal/health/health.go: Check and handleHealthz
--   Start           cmd/proxy/main.go up to the redirection, with EnsureLocalSubnet and Ping; Start.Main
--                   goes on to the router, Start.Serving has the checker that main builds for /healthz,
--                   Start.OriginalDst and Start.Dialer are internal/origdst and the dialer
--   Runs            runs at concrete inputs, and the theorems applied to them
--
-- How the parts meet: Router.handle_conn calls the operations of Nat through the answers that it gets,
-- and Nat.Sessions has every interleaving of such connections as steps of one relation. Router uses the
-- reader of Minecraft and the servers of Config. Filter and Nat.Chains write scripts for the same runner.
-- Registration gives the number of the proxy from which Assignment builds the internal addresses. The
-- watcher's Bans call LookupReverse, ListProxies and ReserveForAllProxies in this order, and its Node
-- gives what Docker resolves to Nat.Chains and NoSnat; Watcher.Service runs both, and Assignment.Calls
-- bounds what they may do to Redis. The hook that Router.Listener calls sets the state that Health reads
-- (Start.Serving). Forwarder goes on from the bytes that Router.handle_conn leaves unread. Start calls
-- Registration, Nat.Chains and Filter in the order of main. Failover.Cloudflare gives the controller its
-- environment.
--
-- Bounds and fuel: numbers are natural numbers; settings, which a file may make negative, are integers.
-- Loops recurse on the list they walk. The VarInt loops recurse on the bytes left; the digits of a
-- number take the number itself as fuel, which Base.Decimal shows to be enough. The values of VarInts
-- are those of an int of 64 bits, as on the machines that the program is built for; a window of the
-- controller, a product of durations, is taken to be in the range of int64.
--
-- Not modelled: sockets beyond the order of the calls on them, goroutines other than as the sequences of
-- their steps, deadlines, logging, flags and signals, the HTTP server of /healthz and the wiring of the
-- controller's command. nft, netlink, iptables, ip, docker, Redis, HTTP, JSON, the files, the clock and
-- the Unicode tables are parameters. A theorem that needs more of them than their type takes it as a law
-- of the calls that the program makes
-- (Nft.Ruleset, Nat.Netlink, Start.Prepared, Redis, Failover.Zone, Failover.Cloudflare.Served, Watcher.NoSnat.Rules).
-- Cloudflare lists at most one page of records, and the client reads neither the paging nor the field
-- success: the environment of Failover.Cloudflare.Served is one whose answers fit in a page and report
-- their failures by the status. A command of Redis runs at most once, as with the retries of the client
-- switched off. The router's hook for its readiness is taken to be set, as main sets it; the test for a
-- hook that is nil is left out.
pub mod Base
pub mod Minecraft
pub mod Nft
pub mod Nat
pub mod Filter
pub mod Redis
pub mod Registration
pub mod Assignment
pub mod Config
pub mod Router
pub mod Failover
pub mod Forwarder
pub mod Watcher
pub mod Health
pub mod Start
pub mod Runs
