-- ===== src/Relay/Tests.antt =====
-- The theorems on the client at concrete states.
use p2p_tun.Server.Frames
use p2p_tun.Plugin.Manager
use p2p_tun.Prelude.{
  Bool, Bytes, Option, [], arith, false, length, map, none, refl, some, true, ℕ, ◌%◌, ◌++◌, ◌+◌,
  ◌==◌, ◌^◌, ◌||◌, ◌∷◌, ◌≡◌,
}
use p2p_tun.Plugin.Compression.{Lz4}
use p2p_tun.Plugin.Manager.{Manager, can_decompress, has_compressor, new_manager, no_action}
use p2p_tun.Prelude.Assoc.{IsMap, has, lookup}
use p2p_tun.Relay.{ConnInfo, Relay, connect, fresh_tables, negotiate, register_msg, send}
use p2p_tun.Relay.Channels.{Run, active_offset, moves, opens_tcp, stays}
use p2p_tun.Relay.Inbound.{handle_new_conn, on_data_frame}
use p2p_tun.Relay.Listing.{begins, get_connections, tcp_opened}
use p2p_tun.Relay.Listing.Shown.{get_connections_open}
use p2p_tun.Relay.Outbound.{pipe_data}
use p2p_tun.Relay.Tunnel.{tunnel_in, tunnel_out}
use p2p_tun.Server.{Answer, ControlMsg, State, blank_msg, control, data_frame, frame, write_conn}
use p2p_tun.Server.Register.{blank_client, server_features}
use p2p_tun.Text.{text, text_eq}

broken : Bytes → Option Bytes
broken b = none

broken_law : (b c : Bytes) → broken b ≡ some c → broken c ≡ some b
unfolding broken
broken_law b c e = ground (arith, e)

abbrev broken_lz4 : Lz4
broken_lz4 = record { pack = broken; unpack = broken; unpack-pack = broken_law }

abbrev idle_relay : Relay
idle_relay = record {
  auth_key = [];
  services = [];
  compressor = some (record { min_size = 128 });
  ip_allow = [];
  ip_deny = [];
  max_conns = 0;
  rate_limit = 0;
  channels = [];
  udp_channels = [];
  conn_infos = [];
  total_conns = 0;
  server_supports_compression = false;
  active_chan = 0;
  bytes_in = 0;
  bytes_out = 0;
  effects = [];
}

abbrev compressing : Manager
compressing = record new_manager { compressor = some (record { min_size = 128 }) }

abbrev ok_resp : ControlMsg
ok_resp = record (blank_msg (text "ok")) { features = text "compression" ∷ [] }

abbrev server_state : State
server_state = record {
  mgr = compressing;
  rate_limiter = none;
  next_cid = 6;
  listeners = [];
  client = record blank_client { features = text "compression" ∷ []; channel_conns = (6, 90) ∷ [] };
  effects = [];
}

abbrev open_relay : Relay
open_relay = record (negotiate ok_resp idle_relay) { channels = (6, 33) ∷ [] }

tunnel_in_example :
    (on_data_frame broken_lz4
      (data_frame broken_lz4 server_state (1 ∷ 2 ∷ [])).0
      6
      (data_frame broken_lz4 server_state (1 ∷ 2 ∷ [])).1
      true
      open_relay).effects
    ≡ open_relay.effects ++ write_conn 33 (1 ∷ 2 ∷ []) ∷ []
unfolding register_msg server_features Manager.has_compressor lookup negotiate
tunnel_in_example =
    tunnel_in broken_lz4 server_state idle_relay open_relay ok_resp 6 33 (1 ∷ 2 ∷ []) refl refl refl
      refl

abbrev all_well : Answer
all_well = record {
  accepts = true;
  opened = no_action;
  announced = true;
  sent = true;
  now = 1000;
  late = 0;
}

tunnel_out_example :
    (f : ℕ × Bytes) × ((pipe_data broken_lz4 6 (1 ∷ 2 ∷ []) open_relay).effects
      ≡ open_relay.effects ++ frame f.0 6 f.1 ∷ [])
    × ((Frames.on_data_frame broken_lz4 f.0 6 f.1 all_well server_state).1.effects
        ≡ server_state.effects ++ write_conn 90 (1 ∷ 2 ∷ []) ∷ [])
unfolding Manager.can_decompress lookup
tunnel_out_example =
    tunnel_out broken_lz4 open_relay all_well server_state 6 90 (1 ∷ 2 ∷ []) refl refl

abbrev new_conn : ControlMsg
new_conn = record (blank_msg (text "new_conn")) { channel_id = 6; local_port = 80 }

-- A client that connects again while two channels of its earlier connection are counted.
abbrev stale_relay : Relay
stale_relay = record idle_relay { active_chan = 2 }

abbrev connected : Relay
connected = negotiate ok_resp (send (control (register_msg stale_relay)) (fresh_tables stale_relay))

abbrev with_channel : Relay
with_channel = handle_new_conn new_conn (some 33) true 5 connected

connected-Run : Run broken_lz4 connected with_channel
unfolding negotiate lookup
connected-Run =
    moves connected connected with_channel (stays connected)
      (opens_tcp new_conn (some 33) true 5 connected refl)

active_offset_example :
    with_channel.active_chan
    ≡ (stale_relay.active_chan + length with_channel.channels + length with_channel.udp_channels)
      % 2 ^ 64
unfolding connect text_eq
active_offset_example =
    active_offset broken_lz4 (some ok_resp) stale_relay connected with_channel (omega arith) refl
      connected-Run

abbrev odd_is_udp : ℕ → Bool
odd_is_udp k = k % 2 == 1

get_connections_open_example :
    (map (λ (i : ConnInfo). i.channel_id) (get_connections with_channel)
      ≡ map (λ p. p.0) with_channel.conn_infos)
    × IsMap with_channel.conn_infos
    × ((k : ℕ)
        → has k with_channel.conn_infos
          ≡ (has k with_channel.channels || has k with_channel.udp_channels))
unfolding connect text_eq
get_connections_open_example =
    get_connections_open broken_lz4 odd_is_udp (some ok_resp) stale_relay connected with_channel
      refl (tcp_opened connected connected new_conn (some 33) true 5 (begins connected) refl)
