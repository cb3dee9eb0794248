-- ===== src/Server/Shared.antt =====
-- udpReadLoop of signal-server/main.go when a client has several UDP services: the sessions are kept
-- by the address of the sender alone.
use p2p_tun.Plugin.Manager
use p2p_tun.Prelude.{Bytes, [], arith, false, length, refl, some, true, ℕ, ◌++◌, ◌∷◌, ◌≡◌}
use p2p_tun.Plugin.Compression.{Lz4, data_of}
use p2p_tun.Plugin.Manager.{Manager}
use p2p_tun.Plugin.Manager.Filters.{on_data_never_closes}
use p2p_tun.Plugin.TrafficLog.{count}
use p2p_tun.Prelude.Assoc.{insert, lookup}
use p2p_tun.Server.{
  Answer, Origin, ServiceMapping, State, Turn, UdpSession, data_frame, forward, frame, goes_on,
  passes_ip_filter, throttle,
}
use p2p_tun.Server.Forward.{data_frame_restores, throttle-effects}
use p2p_tun.Server.Udp.{relay_datagram, session_of, touch, udp_datagram}
use p2p_tun.Text.{text}

session_of_known :
    (svc : ServiceMapping) (conn : ℕ) (from : Origin) (a : Answer) (s : State)
    (session : UdpSession)
    → lookup from.addr s.client.udp_sessions ≡ some session
    → session_of svc conn from a s ≡ (some session, s)
unfolding session_of
session_of_known svc conn from a s session e = rw (session_of, e) refl

throttle-sessions :
    (n now late : ℕ) (s : State)
    → ((throttle n now late s).client.udp_sessions ≡ s.client.udp_sessions)
      × ((throttle n now late s).next_cid ≡ s.next_cid)
unfolding throttle
throttle-sessions n now late s = ground arith

-- What the state is after the datagram: one frame on the channel of the session that stands for the
-- payload, and the session as it was but for the time of its use.
abbrev pub Carried : Lz4 → Origin → Bytes → Answer → UdpSession → State → Turn × State → Type 0
Carried lz4 from payload a session s (turn, s') =
    (turn ≡ goes_on)
    × (s'.client.udp_sessions
        ≡ insert from.addr (record session { last_active = a.now }) s.client.udp_sessions)
    × (s'.next_cid ≡ s.next_cid)
    × (f : ℕ × Bytes) × (s'.effects ≡ s.effects ++ frame f.0 session.channel_id f.1 ∷ [])
    × (data_of lz4 f ≡ some payload)

forward-Carried :
    (lz4 : Lz4) (channel_id : ℕ) (payload : Bytes) (a : Answer) (s : State)
    → a.sent ≡ true
    → let (turn, s') = forward lz4 channel_id payload a s in
      (turn ≡ goes_on)
      × (s'.client.udp_sessions ≡ s.client.udp_sessions)
      × (s'.next_cid ≡ s.next_cid)
      × (f : ℕ × Bytes) × (s'.effects ≡ s.effects ++ frame f.0 channel_id f.1 ∷ [])
      × (data_of lz4 f ≡ some payload)
unfolding forward
forward-Carried lz4 channel_id payload a s q =
    let s1 = throttle (length payload) a.now a.late s in
    let (sessions, count) = throttle-sessions (length payload) a.now a.late s in
    (
      rw q refl,
      rw q sessions,
      rw q count,
      data_frame lz4 s1 payload,
      rw (q, throttle-effects (length payload) a.now a.late s) refl,
      (data_frame_restores lz4 s1 payload).0,
    )

relay_datagram-Carried :
    (lz4 : Lz4) (from : Origin) (payload : Bytes) (a : Answer) (session : UdpSession) (s : State)
    → a.sent ≡ true
    → Carried lz4 from payload a session s
        (relay_datagram lz4 from payload a session (touch from.addr a.now session s))
unfolding relay_datagram
relay_datagram-Carried lz4 from payload a session s q =
    let s1 = touch from.addr a.now session s in
    let (action, mgr) = Manager.on_data s1.mgr session.channel_id (text "rx") (length payload) in
    rw (on_data_never_closes s1.mgr session.channel_id (text "rx") (length payload))
      (forward-Carried lz4 session.channel_id payload a (record s1 { mgr = mgr }) q)

-- A datagram that the filters let pass, from an address that has a session, while the lock of the
-- sessions is free and the frame can be written: at whatever service and socket of the client it
-- arrives, it is carried in that session. One frame goes out, on the channel of the session, and
-- decodes to the datagram; no channel is opened, and the session only notes the time. So a sender
-- that has used one service reaches the local port of that service through every other one.
pub udp_datagram_any_service :
    (lz4 : Lz4) (svc : ServiceMapping) (conn : ℕ) (from : Origin) (payload : Bytes) (a : Answer)
    (s : State) (session : UdpSession)
    → lookup from.addr s.client.udp_sessions ≡ some session
    → (Manager.on_accept s.mgr a.accepts from.ip).0 ≡ true
    → passes_ip_filter s.client from.ip ≡ true
    → s.client.udp_locked ≡ false
    → a.sent ≡ true
    → Carried lz4 from payload a session s (udp_datagram lz4 svc conn from payload a s)
unfolding udp_datagram
udp_datagram_any_service lz4 svc conn from payload a s session e p i u q =
    let s' = record s { mgr = (Manager.on_accept s.mgr a.accepts from.ip).1 } in
    rw (p, i)
      (simp u (
        rw (session_of_known svc conn from a s' session e)
          (relay_datagram-Carried lz4 from payload a session s' q)))
