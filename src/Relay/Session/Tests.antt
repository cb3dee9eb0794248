-- ===== src/Relay/Session/Tests.antt =====
-- The theorems on the life of a connection at concrete inputs.
use p2p_tun.Prelude.{
  Bytes, List, Option, [], arith, false, map, none, refl, some, suc, true, zero, ◌++◌, ◌∷◌, ◌≡◌,
}
use p2p_tun.Frame.{Frame, frame_close}
use p2p_tun.Frame.RoundTrip.{wire}
use p2p_tun.Net.{eof, timeout}
use p2p_tun.Plugin.Compression.{Lz4}
use p2p_tun.Relay.Session.{
  Attempt, Session, Turn, connect_session, dialed_session, ended, nil_ch, ping, read_loop,
}
use p2p_tun.Relay.Session.Connecting.{answer_frame, connect_session-AsPromised}
use p2p_tun.Relay.Session.Promise.{AsPromised}
use p2p_tun.Relay.Session.Reading.{
  Event, IsFine, arrives, by_events, quiet, read_loop-by_events, read_loop_torn, source, sources,
  turn_of,
}
use p2p_tun.Server.{ControlMsg, blank_msg}
use p2p_tun.Text.{text}

abbrev idle_session : Session
idle_session = record {
  relay = record {
    auth_key = [];
    services = [];
    compressor = some (record { min_size = 128 });
    ip_allow = [];
    ip_deny = [];
    max_conns = 0;
    rate_limit = 0;
    channels = [];
    udp_channels = [];
    conn_infos = [];
    total_conns = 0;
    server_supports_compression = false;
    active_chan = 0;
    bytes_in = 0;
    bytes_out = 0;
    effects = [];
  };
  conn_open = false;
  close_ch = nil_ch;
  reading = false;
}

never : Bytes → Option Bytes
never b = none

never_law : (b c : Bytes) → never b ≡ some c → never c ≡ some b
unfolding never
never_law b c e = ground (arith, e)

abbrev never_lz4 : Lz4
never_lz4 = record { pack = never; unpack = never; unpack-pack = never_law }

-- Decoding where the first byte tells an ok from an error.
unmarshal : Bytes → Option ControlMsg
unmarshal [] = none
unmarshal (zero ∷ b) = some (record (blank_msg (text "error")) { public_addr = text "auth failed" })
unmarshal (suc n ∷ b) = some (blank_msg (text "ok"))

connect_session-AsPromised_example :
    AsPromised
      (blank_msg (text "ok"))
      (record { bytes = 9 ∷ []; fin = eof })
      idle_session
      (connect_session unmarshal
        (record {
          dialed = true;
          sent = true;
          answer = record { bytes = wire (answer_frame (1 ∷ [])) ++ 9 ∷ []; fin = eof };
        })
        idle_session)
unfolding unmarshal
connect_session-AsPromised_example =
    connect_session-AsPromised unmarshal (1 ∷ []) (9 ∷ []) eof (blank_msg (text "ok")) idle_session
      (omega arith) refl

abbrev unreachable : Attempt
unreachable = record { dialed = false; sent = false; answer = record { bytes = []; fin = eof } }

abbrev unsent : Attempt
unsent = record { dialed = true; sent = false; answer = record { bytes = []; fin = eof } }

abbrev given_up : Session
given_up = record (dialed_session idle_session) { conn_open = false }

abbrev goes_well : Turn
goes_well = record { closed = false; dialed = none; written = true; now = 7 }

abbrev close_7 : Frame
close_7 = record { frame_type = frame_close; channel_id = 7; payload = [] }

abbrev some_events : List Event
some_events = arrives close_7 goes_well ∷ quiet goes_well ∷ arrives close_7 goes_well ∷ []

close_7-IsFine : IsFine (arrives close_7 goes_well)
close_7-IsFine = (
  record { is_byte = omega arith; is_u32 = omega arith; fits_u32 = omega arith },
  omega arith,
  refl,
)

read_loop-by_events_example :
    read_loop never_lz4 unmarshal
      (map turn_of some_events ++ goes_well ∷ [])
      (source eof some_events)
      (sources eof some_events)
      idle_session
    ≡ ended (by_events never_lz4 unmarshal some_events idle_session)
read_loop-by_events_example =
    read_loop-by_events never_lz4 unmarshal some_events goes_well eof idle_session
      (close_7-IsFine, ((refl, refl), (close_7-IsFine, tt))) refl

read_loop_torn_example :
    read_loop never_lz4 unmarshal
      (goes_well ∷ [])
      (record { bytes = 2 ∷ []; fin = timeout })
      (record { bytes = (0 ∷ 0 ∷ 0 ∷ 7 ∷ 0 ∷ 0 ∷ 0 ∷ 0 ∷ []) ++ []; fin = eof } ∷ [])
      idle_session
    ≡ read_loop never_lz4 unmarshal []
        (record { bytes = (0 ∷ 0 ∷ 0 ∷ 7 ∷ 0 ∷ 0 ∷ 0 ∷ 0 ∷ []) ++ []; fin = eof })
        []
        (ping idle_session)
read_loop_torn_example =
    read_loop_torn never_lz4 unmarshal close_7 (2 ∷ []) (0 ∷ 0 ∷ 0 ∷ 7 ∷ 0 ∷ 0 ∷ 0 ∷ 0 ∷ []) [] eof
      goes_well [] [] idle_session close_7-IsFine refl refl (omega arith)
