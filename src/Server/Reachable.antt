-- ===== src/Server/Reachable.antt =====
-- A registered client of signal-server/main.go and its handlers, one after another in any order.
use mathlib.Core.Option
use mathlib.Core.Path.{subst}
use p2p_tun.Prelude.{
  Bool, Bytes, Option, ap, arith, false, if◌then◌else◌, length, lt→ltb, refl, some, sym, ℕ, ◌+◌,
  ◌<◌, ◌^◌, ◌≡◌, ◌≤◌,
}
use p2p_tun.Frame.{Frame}
use p2p_tun.Plugin.Compression.{Lz4}
use p2p_tun.Plugin.ConnLimit.{new_conn_limit}
use p2p_tun.Plugin.ConnLimit.Bounds.{new-Counts}
use p2p_tun.Plugin.IpFilter.{IpNet}
use p2p_tun.Server.{Answer, ControlMsg, Origin, ServiceMapping, State}
use p2p_tun.Server.Accept.{accept_tcp}
use p2p_tun.Server.Accounts.{Accounts, Accounts-later}
use p2p_tun.Server.Accounts.Checking.{check_state-Kept}
use p2p_tun.Server.Accounts.Closing.{on_frame-Kept, pipe_turn-Kept}
use p2p_tun.Server.Accounts.Expiring.{clean_tick-Kept}
use p2p_tun.Server.Accounts.Handlers.{Kept, accept_tcp-Kept}
use p2p_tun.Server.Accounts.Sessions.{udp_datagram-Kept}
use p2p_tun.Server.Check.{check_state}
use p2p_tun.Server.Frames.{on_frame}
use p2p_tun.Server.Pipe.{pipe_turn}
use p2p_tun.Server.Register.{settings}
use p2p_tun.Server.Udp.{clean_tick, udp_datagram}
use p2p_tun.Text.{Text}

module _ (lz4 : Lz4) (unmarshal : Bytes → Option ControlMsg) where
  -- One handler of the client, run to its end, with any input, or whatever the other clients do,
  -- which share the plugins, the counter of channels and the listeners. The counter of channels does
  -- not wrap around, and no plugin wants a TCP connection closed at once.
  pub data Step : State → State → Type 0 where
    accepts_tcp :
        (svc : ServiceMapping) (conn : ℕ) (from : Origin) (a : Answer) (s : State)
        → s.next_cid + 1 < 2 ^ 32
        → a.opened.close ≡ false
        → Step s (accept_tcp svc conn from a s).1
    receives :
        (svc : ServiceMapping) (conn : ℕ) (from : Origin) (payload : Bytes) (a : Answer) (s : State)
        → s.next_cid + 1 < 2 ^ 32
        → Step s (udp_datagram lz4 svc conn from payload a s).1
    reads_frame : (f : Frame) (a : Answer) (s : State) → Step s (on_frame lz4 unmarshal f a s).1
    pipes :
        (conn channel_id : ℕ) (read : Option Bytes) (a : Answer) (s : State)
        → Step s (pipe_turn lz4 conn channel_id read a s).1
    cleans : (sends : ℕ → Bool) (now : ℕ) (s : State) → Step s (clean_tick sends now s).1
    shares : (s s' : State) → s'.client ≡ s.client → s.next_cid ≤ s'.next_cid → Step s s'

  -- The handlers of the client and of the others, and the closes of runPluginChecker; the number is
  -- the connections of the client that runPluginChecker took away.
  pub data Run : State → ℕ → State → Type 0 where
    stays : (s : State) → Run s 0 s
    moves : (s : State) (lost : ℕ) (s' s'' : State) → Run s lost s' → Step s' s'' → Run s lost s''
    checks :
        (s : State) (lost : ℕ) (s' : State) (channel_id now : ℕ)
        → Run s lost s'
        → Run s
            (if (check_state channel_id now s').0 then lost + 1 else lost)
            (check_state channel_id now s').1

  shares-Kept :
      (max lost : ℕ) (s s' : State)
      → s'.client ≡ s.client
      → s.next_cid ≤ s'.next_cid
      → Kept max lost s
      → Kept max lost s'
  shares-Kept max lost s s' e h k =
      subst (Accounts max lost s'.next_cid) (sym e)
        (Accounts-later max lost s.next_cid s'.next_cid s.client h k)

  Step-Kept : (max lost : ℕ) (s s' : State) → Step s s' → Kept max lost s → Kept max lost s'
  Step-Kept max lost _ _ (accepts_tcp svc conn from a s h q) k =
      accept_tcp-Kept max lost svc conn from a s h q k
  Step-Kept max lost _ _ (receives svc conn from payload a s h) k =
      udp_datagram-Kept max lost lz4 svc conn from payload a s h k
  Step-Kept max lost _ _ (reads_frame f a s) k = on_frame-Kept max lost lz4 unmarshal f a s k
  Step-Kept max lost _ _ (pipes conn channel_id read a s) k =
      pipe_turn-Kept max lost lz4 conn channel_id read a s k
  Step-Kept max lost _ _ (cleans sends now s) k = clean_tick-Kept max lost sends now s k
  Step-Kept max lost _ _ (shares s s' e h) k = shares-Kept max lost s s' e h k

  Run-Kept : (max lost : ℕ) (s s' : State) → Run s lost s' → Kept max 0 s → Kept max lost s'
  Run-Kept max _ _ _ (stays s) k = k
  Run-Kept max _ _ _ (moves s lost s' s'' r t) k =
      Step-Kept max lost s' s'' t (Run-Kept max lost s s' r k)
  Run-Kept max _ _ _ (checks s lost s' channel_id now r) k =
      check_state-Kept max lost channel_id now s' (Run-Kept max lost s s' r k)

  -- The client that registered with a limit, before the first connection.
  settings-Kept :
      (parse_cidr : Text → Option IpNet) (msg : ControlMsg) (now : ℕ) (s : State)
      → 0 < msg.max_conns
      → msg.max_conns < 2 ^ 31
      → Kept msg.max_conns 0 (record s { client = settings parse_cidr msg now })
  unfolding settings new_conn_limit
  settings-Kept parse_cidr msg now s p q = record {
    limit = new_conn_limit msg.max_conns;
    maximum = ground arith;
    limiter = rw (lt→ltb 0 msg.max_conns p) refl;
    counts = new-Counts msg.max_conns p q;
    channels = tt;
    sessions = tt;
    below = tt;
  }

  -- A client that registered with a limit of connections, while its handlers, those of other clients
  -- and runPluginChecker run in whatever order: its limiter counts exactly its channels, its UDP
  -- sessions and the ones that runPluginChecker took away, which are never given back, and together
  -- they never are more than the limit. This holds as long as the counter of channels does not wrap
  -- around and no plugin closes a TCP connection when it opens.
  pub bounded_by_limit :
      (parse_cidr : Text → Option IpNet) (msg : ControlMsg) (now : ℕ) (s : State) (lost : ℕ)
      (s' : State)
      → 0 < msg.max_conns
      → msg.max_conns < 2 ^ 31
      → Run (record s { client = settings parse_cidr msg now }) lost s'
      → let held = length s'.client.channel_conns + length s'.client.udp_sessions + lost in
        (held ≤ msg.max_conns) × (Option.map (λ l. l.current) s'.client.conn_limiter ≡ some held)
  bounded_by_limit parse_cidr msg now s lost s' p q r =
      let k =
        Run-Kept msg.max_conns lost (record s { client = settings parse_cidr msg now }) s' r
          (settings-Kept parse_cidr msg now s p q) in
      (omega arith, rw k.limiter (ap some (omega arith)))
