-- ===== src/Server/Accept.antt =====
-- startServiceListener and startTCPService of signal-server/main.go: the listener, and the body of
-- its loop from Accept to the pipe.
use p2p_tun.Plugin.Manager
use p2p_tun.Prelude.{Bool, Bytes, Option, false, if◌then◌else◌, none, some, true, ℕ}
use p2p_tun.Plugin.Manager.{Manager, is_some}
use p2p_tun.Prelude.Assoc.{erase, has, insert}
use p2p_tun.Server.{
  Answer, Origin, ServiceMapping, State, Turn, account_close, blank_msg, close_conn, control, emit,
  goes_on, limit_accept, next_channel, passes_ip_filter, returns,
}
use p2p_tun.Text.{text, text_eq}

-- The three filters, in order; a connection that one of them refuses is closed.
unfoldable pub check_client : ℕ → Option Bytes → State → Bool × State
check_client conn ip s =
    let (passed, client) = limit_accept s.client in
    let s' = record s { client = client } in
    if passes_ip_filter s.client ip
    then if passed then (true, s') else (false, emit (close_conn conn) s')
    else (false, emit (close_conn conn) s)

unfoldable pub check_accept : ℕ → Origin → Answer → State → Bool × State
unfolding check_client
check_accept conn from a s =
    let (passed, mgr) = Manager.on_accept s.mgr a.accepts from.ip in
    let s' = record s { mgr = mgr } in
    if passed then check_client conn from.ip s' else (false, emit (close_conn conn) s')

-- The new_conn message; if it cannot be sent, the connection goes and the listener ends.
unfoldable pub announce_tcp : ServiceMapping → ℕ → ℕ → Origin → Answer → State → Turn × State
announce_tcp svc conn channel_id from a s =
    if a.announced
    then (
      goes_on,
      emit
          (control (record (blank_msg (text "new_conn")) {
            channel_id = channel_id;
            local_port = svc.local_port;
            remote_addr = from.addr;
          }))
          s,
    )
    else (
      returns,
      emit (close_conn conn) (
          account_close channel_id a.now (record s {
            client = record s.client { channel_conns = erase channel_id s.client.channel_conns };
          })),
    )

-- A channel for a connection that is let in. When a plugin wants it closed, its entry of
-- channelConns stays, and the listener ends.
unfoldable pub open_tcp : ServiceMapping → ℕ → Origin → Answer → State → Turn × State
unfolding announce_tcp
open_tcp svc conn from a s =
    let channel_id = next_channel s.next_cid in
    let (action, mgr) =
      Manager.on_open s.mgr a.opened (text "tcp") from.addr channel_id svc.local_port a.now in
    let s' = record s {
      next_cid = channel_id;
      mgr = mgr;
      client = record s.client { channel_conns = insert channel_id conn s.client.channel_conns };
    } in
    if action.close
    then (returns, emit (close_conn conn) (account_close channel_id a.now s'))
    else announce_tcp svc conn channel_id from a s'

-- One turn of the loop, after a successful Accept.
unfoldable pub accept_tcp : ServiceMapping → ℕ → Origin → Answer → State → Turn × State
unfolding check_accept open_tcp
accept_tcp svc conn from a s =
    let (passed, s') = check_accept conn from a s in
    if passed then open_tcp svc conn from a s' else (goes_on, s')

-- The deferred function of the loop.
unfoldable pub end_listener : ServiceMapping → State → State
end_listener svc s = record s { listeners = erase svc.remote_port s.listeners }

-- startTCPService; `listened` is what net.Listen returns.
unfoldable pub start_tcp_service : ServiceMapping → Option ℕ → State → Option ℕ × State
start_tcp_service svc listened s =
    if has svc.remote_port s.listeners then (none, s) else elim listened [
      | none ↦ (none, s)
      | some ln ↦ (some ln, record s { listeners = insert svc.remote_port ln s.listeners })
    ]

-- startUDPService; `listened` is what net.ListenUDP returns.
unfoldable pub start_udp_service : ServiceMapping → Option ℕ → State → Bool × State
start_udp_service svc listened s = elim listened [
  | none ↦ (false, s)
  | some conn ↦ (
    true,
    record s {
      client = record s.client { udp_conns = insert svc.remote_port conn s.client.udp_conns };
    },
  )
]

-- startServiceListener: whether it worked, the listener if there is one, and the state.
unfoldable pub start_service : ServiceMapping → Option ℕ → State → (Bool × Option ℕ) × State
unfolding start_tcp_service start_udp_service
start_service svc listened s =
    let (started, s_udp) = start_udp_service svc listened s in
    let (ln, s_tcp) = start_tcp_service svc listened s in
    if text_eq svc.proto (text "udp")
    then ((started, none), s_udp)
    else if text_eq svc.proto (text "tcp")
    then ((is_some ln, ln), s_tcp)
    else ((false, none), s)
