-- ===== src/Lib.antt =====
-- vgate-server: a VLESS proxy node that a manager configures.
--
-- The program runs one loop, `sync` of cmd/root.go, which asks the manager through api/client.go for
-- the configuration, the users and the quota snapshots, and hands them to an `Inbound`
-- (proxy/proxy.go), the server of proxy/vless. That server keeps its state under one mutex. A
-- goroutine for each connection runs the handshake of handler.go, registers the connection, and
-- counts every chunk of bytes against the user's counters and quota. What is counted goes back to
-- the manager in the reports of `sync`. The server's `Start` listens through the registry of
-- transport/transport.go: `tcp` wraps a listener in the security layer of transport/security, and
-- `ws` and `xhttp` hand the decoded settings to xray-core over transport/xraybridge.
--
-- Files:
--   Model             model/config.go, model/stream.go, model/user.go
--   Vless/Server      the struct of proxy/vless/server.go, and what it takes from other modules
--   Vless/Config      UpdateConfig and its helpers, of proxy/vless/server.go
--   Vless/Ratelimit   proxy/vless/ratelimit.go
--   Vless/Quota       proxy/vless/quota.go
--   Vless/Traffic     proxy/vless/traffic.go
--   Vless/Protocol    proxy/vless/protocol.go
--   Vless/User        proxy/vless/user.go
--   Vless/Handler     handleConnection of proxy/vless/handler.go; reads and the header in Wire
--   Vless/Udp         proxy/vless/udp.go: its two loops, and in Race both as steps
--   Vless/Security    buildSecuritySettings of proxy/vless/server.go, and what a transport decodes
--   Vless/Start       Start of proxy/vless/server.go, as steps beside UpdateConfig
--   Vless/Relay       what each path of a relay counts and limits: the connection, reader and writer
--                     of proxy/vless/traffic.go and ratelimit.go
--   Vless/HandleTcp   handleTCP of proxy/vless/handler.go, as steps of its two copies
--   Vless/Vision      proxy/vless/vision.go, and handleMux of proxy/vless/mux.go
--   Vless/Connection  handleConnection to its end: gate, forwarder, deferred calls
--   Vless/System      the server under any sequence of what its goroutines do with it, and in
--                     Account what one user's own rules make of that sequence
--   Vless/Mux         dialDispatcher, its link and the UDP socket of a session, of proxy/vless/mux.go
--   Transport/Settings, Tls, Reality, Security   transport/security
--   Transport/Address, Bridge, ChanListener      transport/xraybridge/bridge.go
--   Transport/Registry   transport/transport.go, the transports tcp, ws and xhttp, and
--                        proxy/vless/bootstrap.go
--   Api               api/client.go
--   Cmd               sync, applyUsage and the rounds of run of cmd/root.go, and the interface of
--                     proxy/proxy.go
--   Cmd/Startup       run of cmd/root.go up to its ticks, config/config.go, and the log levels of
--                     transport/xraybridge/log.go
--   Cmd/Life, Program the rounds over the server of proxy/vless with its connections, and the
--                     program from its start; the bytes they count in Books,
--                     Reports and Conserve
--   Base              what these share: lists, dictionaries, integers, bytes
--   Tests             concrete servers, and the theorems at concrete inputs
--
-- A Go name such as `accrueQuotaLocked` is `accrue_quota_locked` here. A method is a function from
-- the server to the next one, since it holds the mutex; two methods of different goroutines are two
-- steps in some order. `closed` lists the connections on which Close was called. A Go map is an
-- association list with one entry for each key, an int64 is an integer whose sums wrap at 2^63, and
-- a string is a list of bytes. A panic is a value of the handler's result.
--
-- Bounds and fuel: the handshake reads into 512 bytes and the UDP relay into 2048, as in the source.
-- Reading is by recursion on the chunks that arrive. The uplink loop of the UDP relay has one unit
-- of fuel more than the stream has bytes, and every round that goes on takes two bytes at least. A
-- channel listener holds 32 connections, and the socket of a Mux session reads 8192 bytes, as in the
-- source and in xray-core. A decimal text has one unit of fuel more than its number.
--
-- Code that runs beside other code is a relation of steps: Start beside UpdateConfig, the two
-- copies of handleTCP, the two loops of handleUDP, those of a Mux link, and the callbacks of a
-- channel listener beside Accept and Close. A step is what one goroutine does under the mutex, or
-- one call that blocks, and any order is a run. What the goroutines do with the server is a list of
-- its operations in any order (`Op`). A round of `sync` holds no lock while it waits for the manager,
-- so it comes with four such lists, for what happens before each of its calls (`Round`).
--
-- The rules of one user (`react`) are the specification of that server: an account has the user's
-- entry, quota state, two limiters and the open connections, as a Boolean for each, and an operation
-- changes it without a look at any other user. `IsValid` is the invariant of the maps.
--
-- Arguments that stand for code outside the repository: the limiter of golang.org/x/time/rate, the
-- decryption instance of xray-core and equality of decoded JSON settings (`Externals`), the protobuf
-- decoder of the addons, what a connection reads and writes (`Incoming`), what the manager answers
-- after the retries of the HTTP client (`Answer`), the listeners and certificates of crypto/tls and
-- REALITY (`Layers`, `Certificates`), xray-core's addresses (`XrayNet`), net.Listen, files, protojson
-- and xray-core's listeners (`Net`), the struct fields that reflection finds (`Fields`), the
-- resolver and the dialer of a Mux session (`Dialer`), viper and the levels of logrus (`Host`), and
-- Go's conversions of a float64, which are left to the implementation out of range (`Floats`).
--
-- Not modelled: xray-core's Vision codec and Mux worker with its pipes, whose chunks and sessions are
-- arguments, the log handler of xray-core, logging, the flags of the command line, the text form of
-- an address in a log, the order in which Go visits a map, white space and letters outside ASCII in
-- a short ID or a log level, and the time that waiting and sleeping take.
mod Base
pub mod Model
pub mod Vless
pub mod Transport
pub mod Api
pub mod Cmd
mod Tests
