-- ===== src/Server/Check.antt =====
-- runPluginChecker of signal-server/main.go: the channels that OnCheck returns are closed in the
-- first client that has them, in the order of the map of clients.
use p2p_tun.Plugin.Manager
use p2p_tun.Prelude.{Bool, List, Option, [], false, if◌then◌else◌, none, some, true, ℕ, ◌∷◌}
use p2p_tun.Plugin.Manager.{Manager}
use p2p_tun.Prelude.Assoc.{Assoc, erase, lookup}
use p2p_tun.Server.{Client, State, Turn, blocked, close_conn, emit, find_session, goes_on, returns}
use p2p_tun.Stun.{found}

-- What one client does about a channel: whether it had it, the connection to close, and the client.
unfoldable pub check_client_channel : ℕ → Client → Turn × Bool × Option ℕ × Client
check_client_channel channel_id c = elim (lookup channel_id c.channel_conns) [
  | some conn ↦
      (goes_on, true, some conn, record c { channel_conns = erase channel_id c.channel_conns })
  | none ↦
      if c.udp_locked
      then (blocked, false, none, c)
      else elim (find_session channel_id c.udp_sessions) [
        | some (key, session) ↦
            (goes_on, true, none, record c { udp_sessions = erase key c.udp_sessions })
        | none ↦ (goes_on, false, none, c)
      ]
]

-- The same in the state that the handlers of this client work on: whether it had the channel, and the
-- state after the connection is closed and the plugins are told.
unfoldable pub check_state : ℕ → ℕ → State → Bool × State
unfolding check_client_channel
check_state channel_id now s =
    let (_, found, conn, c') = check_client_channel channel_id s.client in
    let s' = record s { client = c' } in
    let closed : State = elim conn [ some x ↦ emit (close_conn x) s' | none ↦ s' ] in
    if found
    then (true, record closed { mgr = Manager.on_close s.mgr channel_id now })
    else (false, closed)

-- The loop over the clients, which ends at the first that had the channel.
unfoldable pub check_channel : ℕ → Assoc Client → Turn × Bool × Option ℕ × Assoc Client
unfolding check_client_channel
check_channel channel_id [] = (goes_on, false, none, [])
check_channel channel_id ((cid, c) ∷ clients) =
    let (turn, found, conn, c') = check_client_channel channel_id c in
    let (turn', found', conn', clients') = check_channel channel_id clients in
    elim turn [
      | blocked ↦ (blocked, found, conn, (cid, c') ∷ clients)
      | returns ↦ (returns, found, conn, (cid, c') ∷ clients)
      | goes_on ↦
          if found
          then (goes_on, true, conn, (cid, c') ∷ clients)
          else (turn', found', conn', (cid, c') ∷ clients')
    ]

-- One tick: OnClose of the plugins for every channel that some client had. The limiter of that
-- client is not told.
unfoldable pub check_tick : List ℕ → ℕ → Manager → Assoc Client → Turn × Manager × Assoc Client
unfolding check_channel
check_tick [] now m clients = (goes_on, m, clients)
check_tick (channel_id ∷ channels) now m clients =
    let (turn, found, conn, clients') = check_channel channel_id clients in
    let m' : Manager = if found then Manager.on_close m channel_id now else m in
    let rest = check_tick channels now m' clients' in
    elim turn [
      | goes_on ↦ rest
      | returns ↦ (returns, m, clients')
      | blocked ↦ (blocked, m, clients')
    ]
