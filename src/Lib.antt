-- ===== src/Lib.antt =====
-- p2p-tun: a relay that makes services of a private network reachable from outside. A client behind
-- a NAT keeps one TCP connection to the server; the server listens on public ports, and carries every
-- outside connection and UDP session over that one connection as a channel of frames.
--
-- Prelude        names of the libraries that all modules share; lists, words, results, maps, xor.
-- Text           Go strings as lists of character codes; strings.Split, TrimSpace, Contains.
-- Net            net.Conn and io.ReadFull with their errors as values; isNormalClose, isClosedErr.
-- Frame          writeFrame and readFrame of signal-server/main.go (relay/relay.go has the same).
--                Frame/RoundTrip: writing and reading; Frame/Faults: broken streams.
-- Stun           parsing and building of stun/stun.go. Stun/Server: buildSTUNResponse and the loop of
--                runSTUNServer in signal-server/main.go. Stun/Detect: BindingRequest and
--                DetectNATType. Stun/Attributes, Stun/Octets, Stun/Transaction, Stun/Interop and
--                Stun/Detect/Verdicts have the theorems.
-- Plugin         ConnLimit, IpFilter, Compression, TrafficLog, RateLimit: plugin/connlimit.go,
--                ipfilter.go, compression.go, trafficlog.go, ratelimit.go. Manager: plugin/plugin.go,
--                dynplugin/adapter.go and the set-up in main of signal-server/main.go.
-- DynPlugin      the hooks of dynplugin/manager.go over the list of plugins. Exec: parseExec of
--                dynplugin/process.go. Calls: Call, readLoop and Stop, any number of callers.
--                Loading: LoadDir, LoadPlugin and Start. Sdk: the other end, dynplugin/sdk.go.
-- Server         the relay server of signal-server/main.go: relayClient is Client, the globals that a
--                handler touches and the client are State, what a handler writes and closes is a list
--                of Effect. Accept: startTCPService, startUDPService. Udp: udpReadLoop,
--                udpSessionCleanup. Pipe: pipeExternalToClient. Frames: relayReadLoop. Check:
--                runPluginChecker. Register: handleRelayClient. Accounts and Reachable: what the
--                limiter of a client counts; Forward: the data; Deadlock: the lock of the sessions;
--                Shared: several UDP services of one client.
-- Relay          the client, relay/relay.go: Client is Relay, with the counters of logutil/logutil.go
--                that it changes. Inbound: handleControl and the switch of readLoop; Outbound:
--                the pipes. Session: Connect, readControl, readLoop with its deadlines, and Close.
--                Tunnel: data through both ends; Channels: the counter of channels;
--                Listing: GetConnections.
-- Logs           the counters and the two buffers of logutil/logutil.go.
-- Forward        forward/forward.go. Copying: the two directions of a connection; Goroutines: those of
--                ForwardUDP.
-- Keepalive      the loop of keepalive/keepalive.go.
-- Upnp           discovery, the requests and the answers of upnp/upnp.go.
-- App            the client program, main.go. Ports: parsePorts and the mappings; Status: AppStatus;
--                Tunnel: runTunnel; Gui: authMiddleware and the handlers. Ledger counts the mappings on
--                the router; Views: the handlers that only read.
--
-- The handlers are functions on explicit state. What the environment does is an argument of them:
-- the time, whether a write succeeds, what Read, net.Listen, encoding/json, net.ParseCIDR, the lz4
-- library, the file system and the processes of the dynamic plugins return. Connections, listeners and
-- addresses are numbers. A Go map is an association list in the order in which it is iterated. Numbers
-- are natural numbers, and a word of w bits keeps its `% 2 ^ w`; a limit that is negative is 0. Texts
-- of UPnP and of plugin commands are in ASCII. A handler runs to its end before the next one starts,
-- except in Plugin/ConnLimit/Race, where the load and the swap of OnAccept are steps of their own, and
-- in App/Gui, where a tunnel that was started runs at any later time. A lock matters where the code
-- leaves it locked: `udp_locked`. A tunnel that waits for stopCh, or that serves for ever, is a Thread.
--
-- The loop over the attributes of a STUN message runs on fuel, the length of the message; each turn
-- takes four bytes at least. readLoop of the client runs for the turns of a schedule. All other loops
-- are structural recursion on a list.
--
-- Not modelled: the text of the log lines, the loops around Accept and the shutdown of the server, the
-- sockets and the XML that upnp leaves to the libraries, and of main.go the page, the flags and runCLI,
-- which runs one tunnel without the web interface and ends the program at a signal. The
-- handlers of the server take Wait of plugin/ratelimit.go as one step, although its lock is released
-- during the sleep; Plugin/RateLimit/Interleaved has its two locked parts in any order.
pub mod Prelude
pub mod Text
pub mod Net
pub mod Forward
pub mod Frame
pub mod Stun
pub mod Plugin
pub mod DynPlugin
pub mod Server
pub mod Relay
pub mod Logs
pub mod Keepalive
pub mod Upnp
pub mod App
