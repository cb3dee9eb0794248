-- ===== src/Relay/Listing.antt =====
-- GetConnections of relay/relay.go: the list of connections against the tables of channels.
pub mod Steps
pub mod Shown
use p2p_tun.Prelude.{Bool, Bytes, List, Option, false, map, not, some, true, ℕ, ◌&&◌, ◌≡◌}
use p2p_tun.Plugin.Compression.{Lz4}
use p2p_tun.Prelude.Assoc.{IsMap, has, lookup}
use p2p_tun.Relay.{ConnInfo, Relay}
use p2p_tun.Relay.Inbound.{handle_new_conn, handle_new_udp_conn, on_close_frame, on_data_frame}
use p2p_tun.Relay.Outbound.{pipe_data, pipe_tcp_end, pipe_udp_end}
use p2p_tun.Server.{ControlMsg}

-- GetConnections
unfoldable pub get_connections : Relay → List ConnInfo
get_connections c = map (λ p. p.1) c.conn_infos

-- The numbers of channels are of two kinds, `is_udp` says which: a channel that has an entry in the
-- table of its kind is listed under its number, and no other is.
pub record Listed (is_udp : ℕ → Bool) (c : Relay) : Type 0 where
  pub channels : IsMap c.channels
  pub udp_channels : IsMap c.udp_channels
  pub conn_infos : IsMap c.conn_infos
  pub tcp : (k : ℕ) → has k c.channels ≡ (not (is_udp k) && has k c.conn_infos)
  pub udp : (k : ℕ) → has k c.udp_channels ≡ (is_udp k && has k c.conn_infos)
  pub ids : (k : ℕ) (info : ConnInfo) → lookup k c.conn_infos ≡ some info → info.channel_id ≡ k

-- What a connection does after Connect, when the server gives every number to one kind of channel.
pub data Life (lz4 : Lz4) (is_udp : ℕ → Bool) : Relay → Relay → Type 0 where
  begins : (c : Relay) → Life lz4 is_udp c c
  tcp_opened :
      (c d : Relay) (msg : ControlMsg) (dialed : Option ℕ) (sent : Bool) (now : ℕ)
      → Life lz4 is_udp c d
      → is_udp msg.channel_id ≡ false
      → Life lz4 is_udp c (handle_new_conn msg dialed sent now d)
  udp_opened :
      (c d : Relay) (msg : ControlMsg) (dialed : Option ℕ) (sent : Bool) (now : ℕ)
      → Life lz4 is_udp c d
      → is_udp msg.channel_id ≡ true
      → Life lz4 is_udp c (handle_new_udp_conn msg dialed sent now d)
  data_received :
      (c d : Relay) (frame_type channel_id : ℕ) (payload : Bytes) (written : Bool)
      → Life lz4 is_udp c d
      → Life lz4 is_udp c (on_data_frame lz4 frame_type channel_id payload written d)
  close_received :
      (c d : Relay) (channel_id : ℕ)
      → Life lz4 is_udp c d
      → Life lz4 is_udp c (on_close_frame channel_id d)
  piped :
      (c d : Relay) (channel_id : ℕ) (payload : Bytes)
      → Life lz4 is_udp c d
      → Life lz4 is_udp c (pipe_data lz4 channel_id payload d)
  tcp_ended :
      (c d : Relay) (conn channel_id : ℕ) (sent : Bool)
      → Life lz4 is_udp c d
      → is_udp channel_id ≡ false
      → Life lz4 is_udp c (pipe_tcp_end conn channel_id sent d)
  udp_ended :
      (c d : Relay) (conn channel_id : ℕ) (sent : Bool)
      → Life lz4 is_udp c d
      → is_udp channel_id ≡ true
      → Life lz4 is_udp c (pipe_udp_end conn channel_id sent d)
