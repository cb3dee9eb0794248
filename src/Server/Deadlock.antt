-- ===== src/Server/Deadlock.antt =====
-- udpReadLoop of signal-server/main.go after a plugin has closed a session that was just opened.
use p2p_tun.Plugin.Manager
use p2p_tun.Prelude.{
  Bytes, List, Option, [], ap, arith, false, none, refl, some, true, ℕ, ◌∙◌, ◌∷◌, ◌≡◌,
}
use p2p_tun.Plugin.Compression.{Lz4}
use p2p_tun.Plugin.Manager.{Manager, dynamic_log}
use p2p_tun.Prelude.Assoc.{lookup}
use p2p_tun.Server.{
  Answer, Client, Origin, ServiceMapping, State, Turn, UdpSession, goes_on, limit_accept,
  passes_ip_filter,
}
use p2p_tun.Server.Udp.{open_session, relay_session, session_of, udp_datagram, udp_read_loop}

locked_datagram :
    (lz4 : Lz4) (svc : ServiceMapping) (conn : ℕ) (from : Origin) (payload : Bytes) (a : Answer)
    (s : State)
    → s.client.udp_locked ≡ true
    → ((udp_datagram lz4 svc conn from payload a s).1.effects ≡ s.effects)
      × ((udp_datagram lz4 svc conn from payload a s).1.client ≡ s.client)
unfolding udp_datagram
locked_datagram lz4 svc conn from payload a s u = ground (arith, u)

locked_loop :
    (lz4 : Lz4) (svc : ServiceMapping) (conn : ℕ) (arrivals : List (Origin × Bytes × Answer))
    (s : State)
    → s.client.udp_locked ≡ true
    → (udp_read_loop lz4 svc conn arrivals s).effects ≡ s.effects
unfolding udp_read_loop
locked_loop lz4 svc conn [] s u = refl
locked_loop lz4 svc conn ((from, payload, a) ∷ arrivals) s u =
    let step = locked_datagram lz4 svc conn from payload a s u in
    let later =
      locked_loop lz4 svc conn arrivals (udp_datagram lz4 svc conn from payload a s).1
        (ap (λ (c : Client). c.udp_locked) step.1 ∙ u) in
    ground (arith, step.0, later)

closing_session :
    (svc : ServiceMapping) (conn : ℕ) (from : Origin) (a : Answer) (s : State)
    → lookup from.addr s.client.udp_sessions ≡ none
    → (limit_accept s.client).0 ≡ true
    → a.opened.close ≡ true
    → s.mgr.logger ≡ some dynamic_log
    → ((session_of svc conn from a s).0 ≡ none)
      × ((session_of svc conn from a s).1.effects ≡ s.effects)
      × ((session_of svc conn from a s).1.client.udp_locked ≡ true)
unfolding session_of open_session Manager.on_open
closing_session svc conn from a s l p c d =
    rw (session_of, l, p, Manager.on_open, d, c) (refl, refl, refl)

relay_no_session :
    (lz4 : Lz4) (from : Origin) (payload : Bytes) (a : Answer) (r : Option UdpSession × State)
    → r.0 ≡ none
    → relay_session lz4 from payload a r ≡ (goes_on, r.1)
relay_no_session lz4 from payload a (none, s) e = refl
relay_no_session lz4 from payload a (some session, s) e = ground (arith, e)

passed_datagram :
    (lz4 : Lz4) (svc : ServiceMapping) (conn : ℕ) (from : Origin) (payload : Bytes) (a : Answer)
    (s : State)
    → s.client.udp_locked ≡ false
    → passes_ip_filter s.client from.ip ≡ true
    → (Manager.on_accept s.mgr a.accepts from.ip).0 ≡ true
    → udp_datagram lz4 svc conn from payload a s
      ≡ relay_session lz4 from payload a (
          session_of svc conn from a
            (record s { mgr = (Manager.on_accept s.mgr a.accepts from.ip).1 }))
unfolding udp_datagram
passed_datagram lz4 svc conn from payload a s u f m = simp (m, f, u)

closing_datagram :
    (lz4 : Lz4) (svc : ServiceMapping) (conn : ℕ) (from : Origin) (payload : Bytes) (a : Answer)
    (s : State)
    → s.client.udp_locked ≡ false
    → lookup from.addr s.client.udp_sessions ≡ none
    → (limit_accept s.client).0 ≡ true
    → passes_ip_filter s.client from.ip ≡ true
    → (Manager.on_accept s.mgr a.accepts from.ip).0 ≡ true
    → a.opened.close ≡ true
    → s.mgr.logger ≡ some dynamic_log
    → ((udp_datagram lz4 svc conn from payload a s).1.effects ≡ s.effects)
      × ((udp_datagram lz4 svc conn from payload a s).1.client.udp_locked ≡ true)
unfolding udp_datagram Manager.on_accept
closing_datagram lz4 svc conn from payload a s u l p f m c d =
    let s' = record s { mgr = (Manager.on_accept s.mgr a.accepts from.ip).1 } in
    let r = session_of svc conn from a s' in
    let none_left = closing_session svc conn from a s' l p c d in
    let path =
      passed_datagram lz4 svc conn from payload a s u f m
      ∙ relay_no_session lz4 from payload a r none_left.0 in
    (
      ap (λ (x : Turn × State). x.1.effects) path ∙ none_left.1,
      ap (λ (x : Turn × State). x.1.client.udp_locked) path ∙ none_left.2,
    )

-- When a plugin wants a session closed that a datagram from a new address has just opened, udpMu
-- stays locked: of all the datagrams that arrive later, from whatever address, none is forwarded.
pub plugin_close_blocks :
    (lz4 : Lz4) (svc : ServiceMapping) (conn : ℕ) (from : Origin) (payload : Bytes) (a : Answer)
    (arrivals : List (Origin × Bytes × Answer)) (s : State)
    → s.client.udp_locked ≡ false
    → lookup from.addr s.client.udp_sessions ≡ none
    → (limit_accept s.client).0 ≡ true
    → passes_ip_filter s.client from.ip ≡ true
    → (Manager.on_accept s.mgr a.accepts from.ip).0 ≡ true
    → a.opened.close ≡ true
    → s.mgr.logger ≡ some dynamic_log
    → (udp_read_loop lz4 svc conn ((from, payload, a) ∷ arrivals) s).effects ≡ s.effects
unfolding udp_read_loop
plugin_close_blocks lz4 svc conn from payload a arrivals s u l p f m c d =
    let first = closing_datagram lz4 svc conn from payload a s u l p f m c d in
    let later =
      locked_loop lz4 svc conn arrivals (udp_datagram lz4 svc conn from payload a s).1 first.1 in
    ground (arith, first.0, later)
