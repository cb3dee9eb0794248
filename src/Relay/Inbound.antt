-- ===== src/Relay/Inbound.antt =====
-- What the client of relay/relay.go does with the frames of the server: handleControl and what it
-- calls, and the switch of readLoop.
use p2p_tun.Plugin.Compression
use p2p_tun.Prelude.{
  Bool, Bytes, Option, [], if◌then◌else◌, length, none, some, ℕ, ◌%◌, ◌+◌, ◌==◌, ◌^◌, ◌||◌,
}
use p2p_tun.Frame.{Frame, frame_close, frame_control, frame_data, frame_data_compressed}
use p2p_tun.Plugin.Compression.{Compression, Lz4}
use p2p_tun.Prelude.Assoc.{Assoc, erase, insert, lookup}
use p2p_tun.Relay.{ConnInfo, Relay, one_less, one_more, send, send_if}
use p2p_tun.Server.{ControlMsg, Effect, blank_msg, close_conn, control, frame, write_conn}
use p2p_tun.Text.{Text, text, text_eq}

abbrev pub new_info : ControlMsg → Text → ℕ → ConnInfo
new_info msg proto now = record {
  channel_id = msg.channel_id;
  remote_addr = msg.remote_addr;
  local_port = msg.local_port;
  proto = proto;
  connected_at = now;
  bytes_in = 0;
  bytes_out = 0;
}

abbrev pub ready : ℕ → Effect
ready channel_id = control (record (blank_msg (text "conn_ready")) { channel_id = channel_id })

-- handleNewConn; `dialed` is what the dial of the local service returns.
unfoldable pub handle_new_conn : ControlMsg → Option ℕ → Bool → ℕ → Relay → Relay
handle_new_conn msg none sent now c = send_if sent (frame frame_close msg.channel_id []) c
handle_new_conn msg (some conn) sent now c = send_if sent (ready msg.channel_id) (record c {
  channels = insert msg.channel_id conn c.channels;
  conn_infos = insert msg.channel_id (new_info msg (text "tcp") now) c.conn_infos;
  total_conns = c.total_conns + 1;
  active_chan = one_more c.active_chan;
})

-- handleNewUDPConn
unfoldable pub handle_new_udp_conn : ControlMsg → Option ℕ → Bool → ℕ → Relay → Relay
handle_new_udp_conn msg none sent now c = send_if sent (frame frame_close msg.channel_id []) c
handle_new_udp_conn msg (some conn) sent now c = send_if sent (ready msg.channel_id) (record c {
  udp_channels = insert msg.channel_id conn c.udp_channels;
  conn_infos = insert msg.channel_id (new_info msg (text "udp") now) c.conn_infos;
  total_conns = c.total_conns + 1;
  active_chan = one_more c.active_chan;
})

-- handleControl: the other messages are only logged.
unfoldable pub handle_control : ControlMsg → Option ℕ → Bool → ℕ → Relay → Relay
unfolding handle_new_conn handle_new_udp_conn
handle_control msg dialed sent now c =
    if text_eq msg.msg_type (text "new_conn")
    then handle_new_conn msg dialed sent now c
    else if text_eq msg.msg_type (text "new_udp_conn")
    then handle_new_udp_conn msg dialed sent now c
    else c

-- The data of a frame from the server; `none` where it is dropped.
unfoldable pub received : Lz4 → Option Compression → ℕ → Bytes → Option Bytes
received lz4 compressor frame_type payload =
    if frame_type == frame_data_compressed
    then elim compressor [ none ↦ none | some p ↦ Compression.decompress lz4 payload ]
    else some payload

-- The connection of a channel, TCP first.
abbrev pub local_conn : ℕ → Relay → Option ℕ
local_conn channel_id c = elim (lookup channel_id c.channels) [
  | some conn ↦ some conn
  | none ↦ lookup channel_id c.udp_channels
]

abbrev pub count_in : ℕ → ℕ → Assoc ConnInfo → Assoc ConnInfo
count_in channel_id n m = elim (lookup channel_id m) [
  | none ↦ m
  | some info ↦ insert channel_id (record info { bytes_in = (info.bytes_in + n) % 2 ^ 64 }) m
]

abbrev pub count_out : ℕ → ℕ → Assoc ConnInfo → Assoc ConnInfo
count_out channel_id n m = elim (lookup channel_id m) [
  | none ↦ m
  | some info ↦ insert channel_id (record info { bytes_out = (info.bytes_out + n) % 2 ^ 64 }) m
]

-- The write to the local connection; only one that succeeds is counted.
unfoldable pub write_local : ℕ → Bytes → Bool → Relay → Relay
write_local channel_id payload written c = elim (local_conn channel_id c) [
  | none ↦ c
  | some conn ↦
      if written
      then send (write_conn conn payload) (record c {
        bytes_in = (c.bytes_in + length payload) % 2 ^ 64;
        conn_infos = count_in channel_id (length payload) c.conn_infos;
      })
      else c
]

unfoldable pub on_data_frame : Lz4 → ℕ → ℕ → Bytes → Bool → Relay → Relay
unfolding received write_local
on_data_frame lz4 frame_type channel_id payload written c =
    elim (received lz4 c.compressor frame_type payload) [
      | none ↦ c
      | some plain ↦ write_local channel_id plain written c
    ]

unfoldable pub drop_tcp : ℕ → Relay → Relay
drop_tcp channel_id c = elim (lookup channel_id c.channels) [
  | none ↦ c
  | some conn ↦
      send (close_conn conn)
        (record c { channels = erase channel_id c.channels; active_chan = one_less c.active_chan })
]

unfoldable pub drop_udp : ℕ → Relay → Relay
drop_udp channel_id c = elim (lookup channel_id c.udp_channels) [
  | none ↦ c
  | some conn ↦ send (close_conn conn) (record c {
    udp_channels = erase channel_id c.udp_channels;
    active_chan = one_less c.active_chan;
  })
]

-- A close frame.
unfoldable pub on_close_frame : ℕ → Relay → Relay
unfolding drop_tcp drop_udp
on_close_frame channel_id c =
    let c' = drop_udp channel_id (drop_tcp channel_id c) in
    record c' { conn_infos = erase channel_id c'.conn_infos }

-- The body of the switch of readLoop.
unfoldable pub on_frame :
    Lz4 → (Bytes → Option ControlMsg) → Frame → Option ℕ → Bool → ℕ → Relay → Relay
unfolding handle_control on_data_frame on_close_frame
on_frame lz4 unmarshal f dialed sent now c =
    if f.frame_type == frame_control
    then elim (unmarshal f.payload) [ none ↦ c | some msg ↦ handle_control msg dialed sent now c ]
    else if f.frame_type == frame_data || f.frame_type == frame_data_compressed
    then on_data_frame lz4 f.frame_type f.channel_id f.payload sent c
    else if f.frame_type == frame_close
    then on_close_frame f.channel_id c
    else c
