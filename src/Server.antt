-- ===== src/Server.antt =====
-- The relay server of signal-server/main.go: its types, and what its handlers share. A handler
-- runs on the whole state; connections, listeners, addresses and texts of addresses are numbers, and
-- what the environment answers during a run is an argument of the handler.
pub mod Accept
pub mod Udp
pub mod Pipe
pub mod Frames
pub mod Check
pub mod Register
pub mod Accounts
pub mod Reachable
pub mod Forward
pub mod Deadlock
pub mod Shared
mod Tests
use p2p_tun.Plugin.ConnLimit
use p2p_tun.Plugin.IpFilter
use p2p_tun.Plugin.RateLimit
use p2p_tun.Plugin.Manager
use mathlib.Core.Option
use p2p_tun.Prelude.{
  Bool, Bytes, List, Option, [], false, if◌then◌else◌, length, map, none, some, true, ℕ, ◌%◌, ◌&&◌,
  ◌++◌, ◌+◌, ◌==◌, ◌^◌, ◌||◌, ◌∷◌,
}
use p2p_tun.Frame.{frame_data, frame_data_compressed}
use p2p_tun.Plugin.Compression.{Lz4}
use p2p_tun.Plugin.ConnLimit.{ConnLimit}
use p2p_tun.Plugin.IpFilter.{IpFilter}
use p2p_tun.Plugin.Manager.{Manager, PluginAction, has_compressor, ip_filter}
use p2p_tun.Plugin.RateLimit.{RateLimit, wait}
use p2p_tun.Plugin.TrafficLog.{opened}
use p2p_tun.Prelude.Assoc.{Assoc}
use p2p_tun.Text.{Text, text, text_eq}

pub record ServiceMapping : Type 0 where
  pub local_port : ℕ
  pub remote_port : ℕ
  pub proto : Text

-- controlMsg; a limit that is not positive is 0.
pub record ControlMsg : Type 0 where
  pub msg_type : Text
  pub channel_id : ℕ
  pub local_port : ℕ
  pub remote_port : ℕ
  pub proto : Text
  pub public_addr : Text
  pub remote_addr : ℕ
  pub services : List ServiceMapping
  pub auth_key : Text
  pub failed_services : List ServiceMapping
  pub features : List Text
  pub ip_allow : Text
  pub ip_deny : Text
  pub max_conns : ℕ
  pub rate_limit : ℕ

abbrev pub blank_msg : Text → ControlMsg
blank_msg msg_type = record {
  msg_type = msg_type;
  channel_id = 0;
  local_port = 0;
  remote_port = 0;
  proto = [];
  public_addr = [];
  remote_addr = 0;
  services = [];
  auth_key = [];
  failed_services = [];
  features = [];
  ip_allow = [];
  ip_deny = [];
  max_conns = 0;
  rate_limit = 0;
}

pub record UdpSession : Type 0 where
  pub channel_id : ℕ
  pub local_port : ℕ
  pub remote_addr : ℕ
  pub udp_conn : ℕ
  pub last_active : ℕ

-- relayClient. `udp_locked` says that a handler has left udpMu locked for ever.
pub record Client : Type 0 where
  pub services : List ServiceMapping
  pub channel_conns : Assoc ℕ
  pub udp_conns : Assoc ℕ
  pub udp_sessions : Assoc UdpSession
  pub features : List Text
  pub ip_filter : Option IpFilter
  pub conn_limiter : Option ConnLimit
  pub rate_limiter : Option RateLimit
  pub stopped : Bool
  pub udp_locked : Bool

-- What a handler does to the connections, in the order in which it does it.
pub data Effect : Type 0 where
  control : ControlMsg → Effect
  frame : ℕ → ℕ → Bytes → Effect
  close_conn : ℕ → Effect
  write_conn : ℕ → Bytes → Effect
  write_udp : ℕ → ℕ → Bytes → Effect

-- The globals of the server that a client's handlers touch, and the client.
pub record State : Type 0 where
  pub mgr : Manager
  pub rate_limiter : Option RateLimit
  pub next_cid : ℕ
  pub listeners : Assoc ℕ
  pub client : Client
  pub effects : List Effect

-- How the body of a loop ends. `blocked` waits for ever for a lock that nobody gives back.
pub data Turn : Type 0 where
  goes_on returns blocked : Turn

-- What the environment answers: the dynamic plugins on accepting and opening, whether the writes of
-- the control message and of the data to the client succeed, the time, and by how much a sleep overruns.
pub record Answer : Type 0 where
  pub accepts : Bool
  pub opened : PluginAction
  pub announced : Bool
  pub sent : Bool
  pub now : ℕ
  pub late : ℕ

-- Where a connection or a datagram comes from: the address as a number, and the bytes of its IP.
pub record Origin : Type 0 where
  pub addr : ℕ
  pub ip : Option Bytes

abbrev pub emit : Effect → State → State
emit e s = record s { effects = s.effects ++ e ∷ [] }

abbrev pub emit_if : Bool → Effect → State → State
emit_if sent e s = if sent then emit e s else s

-- `atomic.AddUint32(&nextCID, 1)`
abbrev pub next_channel : ℕ → ℕ
next_channel n = (n + 1) % 2 ^ 32

-- `client.ipFilter != nil && !client.ipFilter.OnAccept(...)`, negated.
abbrev pub passes_ip_filter : Client → Option Bytes → Bool
passes_ip_filter c ip = elim c.ip_filter [ none ↦ true | some f ↦ IpFilter.on_accept f ip ]

-- `client.connLimiter != nil && !client.connLimiter.OnAccept(...)`, negated, and the client after.
unfoldable pub limit_accept : Client → Bool × Client
limit_accept c = elim c.conn_limiter [
  | none ↦ (true, c)
  | some l ↦
      let (passed, l') = ConnLimit.on_accept l in (passed, record c { conn_limiter = some l' })
]

-- `if client.connLimiter != nil { client.connLimiter.OnClose() }`
unfoldable pub limit_close : Client → Client
limit_close c = record c { conn_limiter = Option.map ConnLimit.on_close c.conn_limiter }

-- `pluginMgr.OnClose(channelID)` and the client's limiter.
unfoldable pub account_close : ℕ → ℕ → State → State
unfolding limit_close
account_close channel_id now s = record s {
  mgr = Manager.on_close s.mgr channel_id now;
  client = limit_close s.client;
}

-- clientSupportsCompression
unfoldable pub supports_compression : List Text → Bool
supports_compression [] = false
supports_compression (f ∷ fs) = text_eq f (text "compression") || supports_compression fs

-- Wait on the limiter of the client if it has one, and on the global one otherwise.
unfoldable pub throttle : ℕ → ℕ → ℕ → State → State
throttle n now late s = elim s.client.rate_limiter [
  | some r ↦ record s {
    client = record s.client { rate_limiter = some (RateLimit.wait r n now late).0 };
  }
  | none ↦ elim s.rate_limiter [
    | some r ↦ record s { rate_limiter = some (RateLimit.wait r n now late).0 }
    | none ↦ s
  ]
]

-- The type and the body of the frame for a piece of data from outside.
abbrev pub pick_frame : Bytes → Bytes × Bool → ℕ × Bytes
pick_frame payload (packed, true) = (frame_data_compressed, packed)
pick_frame payload (packed, false) = (frame_data, payload)

unfoldable pub data_frame : Lz4 → State → Bytes → ℕ × Bytes
data_frame lz4 s payload =
    if Manager.has_compressor s.mgr && supports_compression s.client.features
    then pick_frame payload (Manager.compress lz4 s.mgr payload)
    else (frame_data, payload)

-- Throttle, compress and writeFrameLocked: a failed write ends the loop.
unfoldable pub forward : Lz4 → ℕ → Bytes → Answer → State → Turn × State
unfolding throttle data_frame
forward lz4 channel_id payload a s =
    let s1 = throttle (length payload) a.now a.late s in
    let (frame_type, body) = data_frame lz4 s1 payload in
    if a.sent then (goes_on, emit (frame frame_type channel_id body) s1) else (returns, s1)

-- The first session of the channel, in the order of the map.
unfoldable pub find_session : ℕ → Assoc UdpSession → Option (ℕ × UdpSession)
find_session channel_id [] = none
find_session channel_id ((key, sess) ∷ m) =
    if sess.channel_id == channel_id then some (key, sess) else find_session channel_id m
