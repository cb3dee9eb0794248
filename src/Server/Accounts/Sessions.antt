-- ===== src/Server/Accounts/Sessions.antt =====
-- The handlers of UDP in signal-server/main.go leave the limiter of the client with the number of
-- its channels and sessions.
use p2p_tun.Plugin.Manager
use p2p_tun.Prelude.{
  Bool-cases, Bytes, Option, Option-cases, arith, false, inl, inr, length, none, refl, some, true,
  ℕ, ◌+◌, ◌<◌, ◌^◌, ◌≡◌,
}
use p2p_tun.Plugin.Compression.{Lz4}
use p2p_tun.Plugin.Manager.{Manager}
use p2p_tun.Plugin.Manager.Filters.{on_data_never_closes}
use p2p_tun.Prelude.Assoc.{
  Assoc, IsMap-erase, IsMap-insert, erase, has, has-insert, insert, length-erase, length-insert,
  lookup,
}
use p2p_tun.Server.{
  Answer, Client, Origin, ServiceMapping, State, UdpSession, limit_accept, limit_close,
  next_channel,
}
use p2p_tun.Server.Accounts.{
  Accounts, Accounts-later, add_session-Accounts, limit_accept-Accounts, limit_close-Accounts,
  resize-Accounts, set_session-Accounts,
}
use p2p_tun.Server.Accounts.Handlers.{Kept, forward-Kept}
use p2p_tun.Server.Udp.{
  open_session, relay_datagram, relay_session, session_of, touch, udp_datagram,
}
use p2p_tun.Text.{text}

-- What holds of the session that session_of returns: it is in the map.
InMap : ℕ → Option UdpSession × State → Type 0
InMap addr (none, s) = Unit
InMap addr (some session, s) = has addr s.client.udp_sessions ≡ true

locked-Accounts :
    (max lost : ℕ) (n : ℕ) (c : Client)
    → Accounts max lost n c
    → Accounts max lost n (record c { udp_locked = true })
locked-Accounts max lost n c k = record {
  limit = k.limit;
  maximum = k.maximum;
  limiter = k.limiter;
  counts = k.counts;
  channels = k.channels;
  sessions = k.sessions;
  below = k.below;
}

-- A session that is stored and taken out again leaves as many as there were.
length-erase-insert :
    (addr : ℕ) (session : UdpSession) (m : Assoc UdpSession)
    → has addr m ≡ false
    → length (erase addr (insert addr session m)) ≡ length m
length-erase-insert addr session m f = ground (
  arith,
  length-erase addr (insert addr session m),
  length-insert addr session m,
  has-insert addr session m,
  f,
)

-- The client after a plugin closed the session that was just stored for `addr`.
abbrev closed_session : ℕ → UdpSession → Client → Client
closed_session addr session c = record (limit_close c) {
  udp_sessions = erase addr (insert addr session c.udp_sessions);
  udp_locked = true;
}

closed_session-Accounts :
    (max lost : ℕ) (n addr : ℕ) (session : UdpSession) (c : Client)
    → has addr c.udp_sessions ≡ false
    → Accounts max (lost + 1) n c
    → Accounts max lost n (closed_session addr session c)
unfolding limit_close
closed_session-Accounts max lost n addr session c f k =
    let m = erase addr (insert addr session c.udp_sessions) in
    locked-Accounts max lost n (record (limit_close c) { udp_sessions = m })
      (resize-Accounts max lost lost n (limit_close c) m
        (IsMap-erase addr (insert addr session c.udp_sessions)
          (IsMap-insert addr session c.udp_sessions k.sessions))
        (ground (arith, length-erase-insert addr session c.udp_sessions f))
        (limit_close-Accounts max lost n c k))

open_session-Kept :
    (max lost : ℕ) (svc : ServiceMapping) (conn : ℕ) (from : Origin) (a : Answer) (s : State)
    → s.next_cid + 1 < 2 ^ 32
    → has from.addr s.client.udp_sessions ≡ false
    → Accounts max (lost + 1) s.next_cid s.client
    → Kept max lost (open_session svc conn from a s).1
      × InMap from.addr (open_session svc conn from a s)
unfolding open_session InMap
open_session-Kept max lost svc conn from a s h f k =
    let channel_id = next_channel s.next_cid in
    let session : UdpSession = record {
      channel_id = channel_id;
      local_port = svc.local_port;
      remote_addr = from.addr;
      udp_conn = conn;
      last_active = a.now;
    } in
    let later = Accounts-later max (lost + 1) s.next_cid channel_id s.client (omega (arith, h)) k in
    let closed = closed_session-Accounts max lost channel_id from.addr session s.client f later in
    let added = add_session-Accounts max lost channel_id from.addr session s.client f later in
    let there = has-insert from.addr session s.client.udp_sessions in
    ground (arith, closed, added, there)

pub has-some :
    (addr : ℕ) (session : UdpSession) (m : Assoc UdpSession)
    → lookup addr m ≡ some session
    → has addr m ≡ true
has-some addr session m e = rw (has, e) refl

has-none : (addr : ℕ) (m : Assoc UdpSession) → lookup addr m ≡ none → has addr m ≡ false
has-none addr m e = rw (has, e) refl

limit_accept-sessions : (c : Client) → (limit_accept c).1.udp_sessions ≡ c.udp_sessions
unfolding limit_accept
limit_accept-sessions c = ground arith

session_of-Kept :
    (max lost : ℕ) (svc : ServiceMapping) (conn : ℕ) (from : Origin) (a : Answer) (s : State)
    → s.next_cid + 1 < 2 ^ 32
    → Kept max lost s
    → Kept max lost (session_of svc conn from a s).1
      × InMap from.addr (session_of svc conn from a s)
unfolding session_of InMap
session_of-Kept max lost svc conn from a s h k =
    let (passed, client) = limit_accept s.client in
    let s' = record s { client = client } in
    let accepted = limit_accept-Accounts max lost s.next_cid s.client k in
    elim (Option-cases (lookup from.addr s.client.udp_sessions)) [
      | inr (session, e) ↦
          rw (session_of, e) (k, has-some from.addr session s.client.udp_sessions e)
      | inl e ↦ elim (Bool-cases passed) [
        | inr f ↦ rw (session_of, e, f) (rw f at accepted, tt)
        | inl f ↦
            rw (session_of, e, f)
              (open_session-Kept max lost svc conn from a s' h
                (rw (limit_accept-sessions s.client) (has-none from.addr s.client.udp_sessions e))
                (rw f at accepted))
      ]
    ]

relay_datagram-Kept :
    (max lost : ℕ) (lz4 : Lz4) (from : Origin) (payload : Bytes) (a : Answer) (session : UdpSession)
    (s : State)
    → Kept max lost s
    → Kept max lost (relay_datagram lz4 from payload a session s).1
unfolding relay_datagram
relay_datagram-Kept max lost lz4 from payload a session s k =
    let (action, mgr) = Manager.on_data s.mgr session.channel_id (text "rx") (length payload) in
    rw (on_data_never_closes s.mgr session.channel_id (text "rx") (length payload))
      (forward-Kept max lost lz4 session.channel_id payload a (record s { mgr = mgr }) k)

relay_session-Kept :
    (max lost : ℕ) (lz4 : Lz4) (from : Origin) (payload : Bytes) (a : Answer)
    (r : Option UdpSession × State)
    → Kept max lost r.1
    → InMap from.addr r
    → Kept max lost (relay_session lz4 from payload a r).1
unfolding InMap
relay_session-Kept max lost lz4 from payload a (none, s) k i = k
relay_session-Kept max lost lz4 from payload a (some session, s) k i =
    relay_datagram-Kept max lost lz4 from payload a session (touch from.addr a.now session s) (
      set_session-Accounts max lost s.next_cid from.addr (record session { last_active = a.now })
        s.client i k)

-- A datagram leaves the limiter right, whatever the plugins answer.
pub udp_datagram-Kept :
    (max lost : ℕ) (lz4 : Lz4) (svc : ServiceMapping) (conn : ℕ) (from : Origin) (payload : Bytes)
    (a : Answer) (s : State)
    → s.next_cid + 1 < 2 ^ 32
    → Kept max lost s
    → Kept max lost (udp_datagram lz4 svc conn from payload a s).1
unfolding udp_datagram
udp_datagram-Kept max lost lz4 svc conn from payload a s h k =
    let s' = record s { mgr = (Manager.on_accept s.mgr a.accepts from.ip).1 } in
    let found = session_of-Kept max lost svc conn from a s' h k in
    ground (
      arith,
      k,
      relay_session-Kept max lost lz4 from payload a (session_of svc conn from a s') found.0
          found.1,
    )
