-- ===== src/Server/Frames.antt =====
-- relayReadLoop of signal-server/main.go: what the server does with a frame of the client.
use p2p_tun.Plugin.Manager
use p2p_tun.Prelude.{Bytes, List, Option, [], if◌then◌else◌, length, none, some, ℕ, ◌==◌, ◌||◌, ◌∷◌}
use p2p_tun.Frame.{Frame, frame_close, frame_control, frame_data, frame_data_compressed}
use p2p_tun.Plugin.Compression.{Lz4}
use p2p_tun.Plugin.Manager.{Manager, can_decompress}
use p2p_tun.Prelude.Assoc.{erase, lookup}
use p2p_tun.Server.{
  Answer, ControlMsg, State, Turn, account_close, blank_msg, blocked, close_conn, control, emit,
  emit_if, find_session, goes_on, returns, throttle, write_conn, write_udp,
}
use p2p_tun.Text.{text, text_eq}

-- A control frame, parsed: only a ping is answered.
unfoldable pub on_control : Option ControlMsg → Answer → State → State
on_control none a s = s
on_control (some msg) a s =
    if text_eq msg.msg_type (text "ping")
    then emit_if a.announced (control (blank_msg (text "pong"))) s
    else s

-- The data of a frame; `none` where the frame is dropped.
unfoldable pub frame_payload : Lz4 → Manager → ℕ → Bytes → Option Bytes
frame_payload lz4 m frame_type payload =
    if frame_type == frame_data_compressed
    then if Manager.can_decompress m then Manager.decompress lz4 m payload else none
    else some payload

-- Where data of a channel goes: to its connection, or else to the session of that channel.
unfoldable pub deliver : ℕ → Bytes → State → Turn × State
deliver channel_id payload s = elim (lookup channel_id s.client.channel_conns) [
  | some conn ↦ (goes_on, emit (write_conn conn payload) s)
  | none ↦
      if s.client.udp_locked
      then (blocked, s)
      else elim (find_session channel_id s.client.udp_sessions) [
        | none ↦ (goes_on, s)
        | some (key, session) ↦
            (goes_on, emit (write_udp session.udp_conn session.remote_addr payload) s)
      ]
]

-- A plugin wants the channel closed: its limiter is released whether it had an entry or not.
unfoldable pub drop_channel : ℕ → ℕ → State → State
drop_channel channel_id now s =
    let s' = record s {
      client = record s.client { channel_conns = erase channel_id s.client.channel_conns };
    } in
    account_close channel_id now (elim (lookup channel_id s.client.channel_conns) [
      | some conn ↦ emit (close_conn conn) s'
      | none ↦ s'
    ])

unfoldable pub on_payload : ℕ → Bytes → Answer → State → Turn × State
unfolding deliver drop_channel throttle
on_payload channel_id payload a s =
    let (action, mgr) = Manager.on_data s.mgr channel_id (text "tx") (length payload) in
    let s' = record s { mgr = mgr } in
    if action.close
    then (goes_on, drop_channel channel_id a.now s')
    else deliver channel_id payload (throttle (length payload) a.now a.late s')

-- A data frame, compressed or not.
unfoldable pub on_data_frame : Lz4 → ℕ → ℕ → Bytes → Answer → State → Turn × State
unfolding on_payload frame_payload
on_data_frame lz4 frame_type channel_id payload a s =
    elim (frame_payload lz4 s.mgr frame_type payload) [
      | none ↦ (goes_on, s)
      | some plain ↦ on_payload channel_id plain a s
    ]

-- The first half of a close frame: the connection of the channel.
unfoldable pub close_tcp : ℕ → ℕ → State → State
close_tcp channel_id now s = elim (lookup channel_id s.client.channel_conns) [
  | none ↦ s
  | some conn ↦ account_close channel_id now (
      emit (close_conn conn) (record s {
        client = record s.client { channel_conns = erase channel_id s.client.channel_conns };
      }))
]

-- The second half: the session of the channel.
unfoldable pub close_udp : ℕ → ℕ → State → State
close_udp channel_id now s = elim (find_session channel_id s.client.udp_sessions) [
  | none ↦ s
  | some (key, session) ↦
      account_close channel_id now
        (record s { client = record s.client { udp_sessions = erase key s.client.udp_sessions } })
]

-- A close frame. Where the session is wanted, udpMu must be free.
unfoldable pub on_close_frame : ℕ → Answer → State → Turn × State
unfolding close_tcp close_udp
on_close_frame channel_id a s =
    let s' = close_tcp channel_id a.now s in
    if s.client.udp_locked then (blocked, s') else (goes_on, close_udp channel_id a.now s')

-- The switch of relayReadLoop over the types of frames; any other type is ignored.
unfoldable pub on_frame : Lz4 → (Bytes → Option ControlMsg) → Frame → Answer → State → Turn × State
unfolding on_control on_data_frame on_close_frame
on_frame lz4 unmarshal f a s =
    let on_data = on_data_frame lz4 f.frame_type f.channel_id f.payload a s in
    if f.frame_type == frame_control
    then (goes_on, on_control (unmarshal f.payload) a s)
    else if f.frame_type == frame_data || f.frame_type == frame_data_compressed
    then on_data
    else if f.frame_type == frame_close
    then on_close_frame f.channel_id a s
    else (goes_on, s)

-- relayReadLoop over the frames that arrive, until the connection fails.
unfoldable pub relay_read_loop :
    Lz4 → (Bytes → Option ControlMsg) → List (Frame × Answer) → State → State
unfolding on_frame
relay_read_loop lz4 unmarshal [] s = s
relay_read_loop lz4 unmarshal ((f, a) ∷ frames) s =
    let (turn, s') = on_frame lz4 unmarshal f a s in
    let rest = relay_read_loop lz4 unmarshal frames s' in
    elim turn [ goes_on ↦ rest | returns ↦ s' | blocked ↦ s' ]
