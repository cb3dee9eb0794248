-- ===== src/Server/Tests.antt =====
-- The theorems on the server at concrete states.
use p2p_tun.Plugin.Manager
use mathlib.Core.Option
use p2p_tun.Prelude.{
  Bytes, Option, Result, [], arith, err, if◌then◌else◌, length, none, ok, refl, some, true, ℕ, ◌++◌,
  ◌+◌, ◌↔◌, ◌∷◌, ◌≡◌, ◌≤◌,
}
use p2p_tun.Frame.{Frame, frame_control}
use p2p_tun.Net.{NetError, Source, eof}
use p2p_tun.Plugin.Compression.{Lz4, data_of}
use p2p_tun.Plugin.IpFilter.{IpNet}
use p2p_tun.Plugin.Manager.{
  Manager, dynamic_log, has_compressor, new_manager, no_action, run_filters,
}
use p2p_tun.Prelude.Assoc.{lookup}
use p2p_tun.Server.{
  Answer, Client, ControlMsg, Origin, ServiceMapping, State, UdpSession, blank_msg, close_conn,
  control, frame, goes_on, limit_accept,
}
use p2p_tun.Server.Accept.{accept_tcp}
use p2p_tun.Server.Accounts.Cleaning.{clean_tick_keeps_active, goodbyes, keep_active, releases}
use p2p_tun.Server.Check.{check_state}
use p2p_tun.Server.Deadlock.{plugin_close_blocks}
use p2p_tun.Server.Forward.{pipe_turn_restores}
use p2p_tun.Server.Pipe.{pipe_turn}
use p2p_tun.Server.Reachable.{Run, accepts_tcp, bounded_by_limit, checks, moves, stays}
use p2p_tun.Server.Register.{
  Config, Server, answer_ok, auth_failed, blank_client, end_client, enter, handle_relay_client,
  refused, registration, server_features, settings, start_services,
}
use p2p_tun.Server.Register.Auth.{Admitted, refused_leaves_nothing, running_Admitted}
use p2p_tun.Server.Register.Listeners.{NotIn, end_client_releases, start_services_keeps}
use p2p_tun.Server.Shared.{Carried, udp_datagram_any_service}
use p2p_tun.Server.Udp.{clean_tick, udp_datagram, udp_read_loop}
use p2p_tun.Text.{Text, text, text_eq}

-- A library whose writer always fails.
broken : Bytes → Option Bytes
broken b = none

broken_law : (b c : Bytes) → broken b ≡ some c → broken c ≡ some b
unfolding broken
broken_law b c e = ground (arith, e)

abbrev broken_lz4 : Lz4
broken_lz4 = record { pack = broken; unpack = broken; unpack-pack = broken_law }

abbrev no_msg : Bytes → Option ControlMsg
no_msg b = none

abbrev no_cidr : Text → Option IpNet
no_cidr t = none

abbrev compressing : Manager
compressing = record new_manager { compressor = some (record { min_size = 128 }) }

abbrev idle_state : State
idle_state = record {
  mgr = compressing;
  rate_limiter = none;
  next_cid = 5;
  listeners = (8080, 70) ∷ [];
  client = blank_client;
  effects = [];
}

abbrev all_well : Answer
all_well = record {
  accepts = true;
  opened = no_action;
  announced = true;
  sent = true;
  now = 1000;
  late = 0;
}

abbrev web : ServiceMapping
web = record { local_port = 80; remote_port = 8080; proto = text "tcp" }

abbrev visitor : Origin
visitor = record { addr = 42; ip = some (10 ∷ 0 ∷ 0 ∷ 9 ∷ []) }

abbrev limited_msg : ControlMsg
limited_msg = record (blank_msg (text "register")) { services = web ∷ []; max_conns = 2 }

abbrev registered : State
registered = record idle_state { client = settings no_cidr limited_msg 0 }

-- A connection that is accepted, and that a check of the plugins takes away.
abbrev accepted : State
accepted = (accept_tcp web 90 visitor all_well registered).1

abbrev lost_here : ℕ
lost_here = if (check_state 6 2000 accepted).0 then 1 else 0

abbrev checked : State
checked = (check_state 6 2000 accepted).1

web-Run : Run broken_lz4 no_msg registered lost_here checked
web-Run = checks registered 0 accepted 6 2000 (
    moves registered 0 registered accepted (stays registered)
      (accepts_tcp web 90 visitor all_well registered (omega arith) refl))

bounded_by_limit_example :
    (length checked.client.channel_conns + length checked.client.udp_sessions + lost_here ≤ 2)
    × (Option.map (λ l. l.current) checked.client.conn_limiter
        ≡ some
            (length checked.client.channel_conns + length checked.client.udp_sessions + lost_here))
bounded_by_limit_example =
    bounded_by_limit broken_lz4 no_msg no_cidr limited_msg 0 idle_state lost_here checked
      (omega arith) (omega arith) web-Run

pipe_turn_restores_example :
    (f : ℕ × Bytes) × ((pipe_turn broken_lz4 90 6 (some (1 ∷ 2 ∷ [])) all_well idle_state).0
      ≡ goes_on)
    × ((pipe_turn broken_lz4 90 6 (some (1 ∷ 2 ∷ [])) all_well idle_state).1.effects
        ≡ idle_state.effects ++ frame f.0 6 f.1 ∷ [])
    × (data_of broken_lz4 f ≡ some (1 ∷ 2 ∷ []))
    × (length f.1 ≤ 2)
pipe_turn_restores_example =
    pipe_turn_restores broken_lz4 90 6 (1 ∷ 2 ∷ []) all_well idle_state refl

abbrev connected : State
connected = record idle_state { client = record blank_client { channel_conns = (6, 90) ∷ [] } }

abbrev keyed : Config
keyed = record { stun_port = 0; relay_port = 9000; public_addr = []; auth_key = text "k" }

abbrev one_client : Server
one_client = record {
  mgr = compressing;
  rate_limiter = none;
  next_cid = 5;
  listeners = (8080, 70) ∷ [];
  clients = (3, blank_client) ∷ [];
}

abbrev hello : Result NetError (Frame × Source)
hello = ok (
  record { frame_type = frame_control; channel_id = 0; payload = [] },
  record { bytes = []; fin = eof },
)

abbrev good_msg : Bytes → Option ControlMsg
good_msg b = some (record (blank_msg (text "register")) { auth_key = text "k" })

abbrev good_client : Client
good_client = settings no_cidr (record (blank_msg (text "register")) { auth_key = text "k" }) 0

running_Admitted_example : Admitted keyed good_msg hello
unfolding handle_relay_client registration text_eq start_services answer_ok server_features
    Manager.has_compressor
running_Admitted_example =
    running_Admitted keyed good_msg no_cidr 60 (text "h") hello [] true 0 one_client 6 []
      (record {
        mgr = compressing;
        rate_limiter = none;
        next_cid = 6;
        listeners = (8080, 70) ∷ [];
        client = good_client;
        effects =
            control (record (blank_msg (text "ok")) {
              public_addr = text "h";
              features = text "compression" ∷ [];
            })
            ∷ [];
      })
      (enter one_client) refl

bad_msg_refused :
    registration keyed (λ b. some (blank_msg (text "register"))) hello ≡ err auth_failed
unfolding registration text_eq
bad_msg_refused = refl

refused_leaves_nothing_example :
    handle_relay_client keyed
      (λ b. some (blank_msg (text "register")))
      no_cidr
      60
      (text "h")
      hello
      []
      true
      0
      one_client
    ≡ refused
        (control (record (blank_msg (text "error")) { public_addr = text "auth failed" })
          ∷ close_conn 60
          ∷ [])
        (record one_client { next_cid = 6 })
refused_leaves_nothing_example =
    refused_leaves_nothing keyed (λ b. some (blank_msg (text "register"))) no_cidr 60 (text "h")
      hello [] true 0 one_client auth_failed bad_msg_refused ((λ e. omega (arith, e)), tt)

end_client_releases_example :
    ((lookup 8080 (end_client 60 3 (71 ∷ []) idle_state one_client).0.listeners ≡ some 70)
      ↔ ((lookup 8080 idle_state.listeners ≡ some 70) × NotIn 70 (71 ∷ [])))
    × ((end_client 60 3 (71 ∷ []) idle_state one_client).0.client.stopped ≡ true)
    × (lookup 3 (end_client 60 3 (71 ∷ []) idle_state one_client).1.clients ≡ none)
end_client_releases_example =
    end_client_releases 60 3 (71 ∷ []) idle_state one_client 8080 70 (tt, tt) (tt, tt)

start_services_keeps_example :
    lookup 8080 (start_services (web ∷ []) (some 71 ∷ []) idle_state).1.listeners ≡ some 70
unfolding lookup
start_services_keeps_example =
    start_services_keeps (web ∷ []) (some 71 ∷ []) idle_state 8080 70 refl

abbrev old_session : UdpSession
old_session = record {
  channel_id = 6;
  local_port = 53;
  remote_addr = 42;
  udp_conn = 72;
  last_active = 0;
}

abbrev udp_state : State
udp_state = record idle_state {
  client = record blank_client {
    udp_sessions = (42, old_session) ∷ [];
    conn_limiter = some (record { max_conns = 2; current = 1 });
  };
}

clean_tick_keeps_active_example :
    let s' = (clean_tick (λ channel_id. true) 200000000000 udp_state).1 in
    (s'.client.udp_sessions ≡ keep_active 200000000000 udp_state.client.udp_sessions)
    × (s'.effects
        ≡ udp_state.effects
          ++ goodbyes (λ channel_id. true) 200000000000 udp_state.client.udp_sessions)
    × (s'.client.conn_limiter
        ≡ releases 200000000000 udp_state.client.udp_sessions udp_state.client.conn_limiter)
clean_tick_keeps_active_example =
    clean_tick_keeps_active (λ channel_id. true) 200000000000 udp_state refl (tt, tt)

-- The session is idle: its close frame goes out, and the limiter counts none.
idle_session_goes :
    (keep_active 200000000000 udp_state.client.udp_sessions ≡ [])
    × (goodbyes (λ channel_id. true) 200000000000 udp_state.client.udp_sessions ≡ frame 2 6 [] ∷ [])
unfolding keep_active goodbyes
idle_session_goes = (refl, refl)

abbrev strict_state : State
strict_state = record idle_state { mgr = record compressing { logger = some dynamic_log } }

abbrev unwelcome : Answer
unwelcome = record all_well { opened = record { close = true; reason = [] } }

plugin_close_blocks_example :
    (udp_read_loop broken_lz4 web 72
      ((visitor, 1 ∷ [], unwelcome) ∷ (visitor, 2 ∷ [], all_well) ∷ [])
      strict_state).effects
    ≡ strict_state.effects
unfolding lookup limit_accept Manager.on_accept Manager.run_filters
plugin_close_blocks_example =
    plugin_close_blocks broken_lz4 web 72 visitor (1 ∷ []) unwelcome
      ((visitor, 2 ∷ [], all_well) ∷ []) strict_state refl refl refl refl refl refl refl

udp_datagram_any_service_example :
    Carried broken_lz4 visitor
      (1 ∷ [])
      all_well
      old_session
      udp_state
      (udp_datagram broken_lz4 web 72 visitor (1 ∷ []) all_well udp_state)
unfolding lookup Manager.on_accept Manager.run_filters
udp_datagram_any_service_example =
    udp_datagram_any_service broken_lz4 web 72 visitor (1 ∷ []) all_well udp_state old_session refl
      refl refl refl refl
