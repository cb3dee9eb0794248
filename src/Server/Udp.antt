-- ===== src/Server/Udp.antt =====
-- udpReadLoop and udpSessionCleanup of signal-server/main.go. A datagram that arrives is one turn of
-- the loop; times are nanoseconds.
use p2p_tun.Plugin.Manager
use p2p_tun.Prelude.{
  Bool, Bytes, List, Option, [], if◌then◌else◌, length, ltb, none, some, true, ℕ, ◌&&◌, ◌*◌, ◌-◌,
  ◌∷◌,
}
use p2p_tun.Frame.{frame_close}
use p2p_tun.Plugin.Compression.{Lz4}
use p2p_tun.Plugin.Manager.{Manager}
use p2p_tun.Plugin.RateLimit.{second}
use p2p_tun.Prelude.Assoc.{Assoc, erase, insert, lookup}
use p2p_tun.Server.{
  Answer, Origin, ServiceMapping, State, Turn, UdpSession, account_close, blank_msg, blocked,
  control, emit_if, forward, frame, goes_on, limit_accept, limit_close, next_channel,
  passes_ip_filter, returns,
}
use p2p_tun.Text.{text}

-- The session of an address that has none yet, with udpMu locked. When a plugin wants it closed, the
-- code goes on without unlocking, and without telling the plugins that the channel is closed.
unfoldable pub open_session :
    ServiceMapping → ℕ → Origin → Answer → State → Option UdpSession × State
open_session svc conn from a s =
    let channel_id = next_channel s.next_cid in
    let session : UdpSession = record {
      channel_id = channel_id;
      local_port = svc.local_port;
      remote_addr = from.addr;
      udp_conn = conn;
      last_active = a.now;
    } in
    let (action, mgr) =
      Manager.on_open s.mgr a.opened (text "udp") from.addr channel_id svc.local_port a.now in
    if action.close
    then (
      none,
      record s {
        mgr = mgr;
        next_cid = channel_id;
        client = record (limit_close s.client) {
          udp_sessions = erase from.addr (insert from.addr session s.client.udp_sessions);
          udp_locked = true;
        };
      },
    )
    else (
      some session,
      emit_if a.announced
          (control (record (blank_msg (text "new_udp_conn")) {
            channel_id = channel_id;
            local_port = svc.local_port;
            proto = text "udp";
            remote_addr = from.addr;
          }))
          (record s {
            mgr = mgr;
            next_cid = channel_id;
            client = record s.client {
              udp_sessions = insert from.addr session s.client.udp_sessions;
            };
          }),
    )

-- The session of the address, a new one if need be. `none` where the code goes on without one.
unfoldable pub session_of : ServiceMapping → ℕ → Origin → Answer → State → Option UdpSession × State
unfolding open_session
session_of svc conn from a s = elim (lookup from.addr s.client.udp_sessions) [
  | some session ↦ (some session, s)
  | none ↦
      let (passed, client) = limit_accept s.client in
      let s' = record s { client = client } in
      if passed then open_session svc conn from a s' else (none, s')
]

-- `session.lastActive = time.Now()`, through the pointer that the map holds.
abbrev pub touch : ℕ → ℕ → UdpSession → State → State
touch addr now session s = record s {
  client = record s.client {
    udp_sessions = insert addr (record session { last_active = now }) s.client.udp_sessions;
  };
}

-- From OnData to the frame.
unfoldable pub relay_datagram : Lz4 → Origin → Bytes → Answer → UdpSession → State → Turn × State
unfolding forward
relay_datagram lz4 from payload a session s =
    let (action, mgr) = Manager.on_data s.mgr session.channel_id (text "rx") (length payload) in
    let s' = record s { mgr = mgr } in
    if action.close
    then (
      goes_on,
      account_close session.channel_id a.now (record s' {
        client = record s'.client { udp_sessions = erase from.addr s'.client.udp_sessions };
      }),
    )
    else forward lz4 session.channel_id payload a s'

abbrev pub relay_session : Lz4 → Origin → Bytes → Answer → Option UdpSession × State → Turn × State
relay_session lz4 from payload a (none, s) = (goes_on, s)
relay_session lz4 from payload a (some session, s) =
    relay_datagram lz4 from payload a session (touch from.addr a.now session s)

-- One datagram. The two filters come first, and then udpMu.
unfoldable pub udp_datagram :
    Lz4 → ServiceMapping → ℕ → Origin → Bytes → Answer → State → Turn × State
unfolding session_of relay_datagram
udp_datagram lz4 svc conn from payload a s =
    let (passed, mgr) = Manager.on_accept s.mgr a.accepts from.ip in
    let s' = record s { mgr = mgr } in
    if passed && passes_ip_filter s.client from.ip
    then if s.client.udp_locked
      then (blocked, s')
      else relay_session lz4 from payload a (session_of svc conn from a s')
    else (goes_on, s')

-- The loop, over the datagrams that arrive. A failed write and a lock that is not free end it.
unfoldable pub udp_read_loop :
    Lz4 → ServiceMapping → ℕ → List (Origin × Bytes × Answer) → State → State
unfolding udp_datagram
udp_read_loop lz4 svc conn [] s = s
udp_read_loop lz4 svc conn ((from, payload, a) ∷ arrivals) s =
    let (turn, s') = udp_datagram lz4 svc conn from payload a s in
    let rest = udp_read_loop lz4 svc conn arrivals s' in
    elim turn [ goes_on ↦ rest | returns ↦ s' | blocked ↦ s' ]

-- The sessions that have been idle for more than 120 seconds are closed, in the order of the map.
unfoldable pub is_idle : ℕ → UdpSession → Bool
is_idle now session = ltb (120 * second) (now - session.last_active)

-- A session that goes; `sent` says whether its close frame can be written.
unfoldable pub expire : Bool → ℕ → ℕ → UdpSession → State → State
expire sent now key session s =
    let closed =
      account_close session.channel_id now
        (emit_if sent (frame frame_close session.channel_id []) s) in
    record closed {
      client = record closed.client { udp_sessions = erase key closed.client.udp_sessions };
    }

-- The loop over the sessions; `sends` says for which channels a frame can be written.
unfoldable pub clean_sessions : (ℕ → Bool) → ℕ → Assoc UdpSession → State → State
unfolding expire
clean_sessions sends now [] s = s
clean_sessions sends now ((key, session) ∷ m) s =
    clean_sessions sends now m
      (if is_idle now session then expire (sends session.channel_id) now key session s else s)

-- One tick of udpSessionCleanup.
unfoldable pub clean_tick : (ℕ → Bool) → ℕ → State → Turn × State
unfolding clean_sessions
clean_tick sends now s =
    if s.client.udp_locked
    then (blocked, s)
    else (goes_on, clean_sessions sends now s.client.udp_sessions s)
