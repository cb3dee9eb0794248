-- ===== src/Relay/Outbound.antt =====
-- The pipes of relay/relay.go from the local services to the server: pipeLocalToRelay and
-- pipeUDPFromRelay.
use p2p_tun.Plugin.Compression
use p2p_tun.Prelude.{Bool, Bytes, [], if◌then◌else◌, length, none, some, ℕ, ◌%◌, ◌+◌, ◌^◌}
use p2p_tun.Frame.{frame_close, frame_data}
use p2p_tun.Plugin.Compression.{Compression, Lz4}
use p2p_tun.Prelude.Assoc.{erase, has}
use p2p_tun.Relay.{Relay, one_less, send, send_if}
use p2p_tun.Relay.Inbound.{count_out}
use p2p_tun.Server.{close_conn, frame, pick_frame}

-- The type and the body of the frame for a piece of data of a local service.
unfoldable pub outgoing : Lz4 → Relay → Bytes → ℕ × Bytes
outgoing lz4 c payload = elim c.compressor [
  | none ↦ (frame_data, payload)
  | some p ↦
      if c.server_supports_compression
      then pick_frame payload (Compression.compress lz4 p payload)
      else (frame_data, payload)
]

-- The pipes of both kinds, for a piece of data that was read and whose frame is sent: the frame and
-- the counters. A read or a write that fails ends the pipe.
unfoldable pub pipe_data : Lz4 → ℕ → Bytes → Relay → Relay
unfolding outgoing
pipe_data lz4 channel_id payload c =
    let (frame_type, body) = outgoing lz4 c payload in
    send (frame frame_type channel_id body) (record c {
      bytes_out = (c.bytes_out + length payload) % 2 ^ 64;
      conn_infos = count_out channel_id (length payload) c.conn_infos;
    })

-- The deferred function of pipeLocalToRelay.
unfoldable pub pipe_tcp_end : ℕ → ℕ → Bool → Relay → Relay
pipe_tcp_end conn channel_id sent c =
    let c' = send_if sent (frame frame_close channel_id []) c in
    send (close_conn conn) (record c' {
      channels = erase channel_id c.channels;
      active_chan = if has channel_id c.channels then one_less c.active_chan else c.active_chan;
      conn_infos = erase channel_id c.conn_infos;
    })

-- The deferred function of pipeUDPFromRelay.
unfoldable pub pipe_udp_end : ℕ → ℕ → Bool → Relay → Relay
pipe_udp_end conn channel_id sent c =
    let c' = send_if sent (frame frame_close channel_id []) c in
    send (close_conn conn) (record c' {
      udp_channels = erase channel_id c.udp_channels;
      active_chan = if has channel_id c.udp_channels then one_less c.active_chan else c.active_chan;
      conn_infos = erase channel_id c.conn_infos;
    })
