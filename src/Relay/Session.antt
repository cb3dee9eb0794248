-- ===== src/Relay/Session.antt =====
-- The life of a connection of relay/relay.go: Connect on the bytes of the server, readControl,
-- readLoop with its deadlines, and Close. encoding/json is an argument.
pub mod Connecting
pub mod Reading
pub mod Promise
mod Tests
use p2p_tun.Prelude.{
  Bool, Bytes, List, Option, Result, [], err, false, if◌then◌else◌, none, ok, some, true, ℕ, ◌==◌,
  ◌∷◌,
}
use p2p_tun.Frame.{Frame, frame_control, read_frame}
use p2p_tun.Net.{NetError, Source, is_closed_err, timeout}
use p2p_tun.Plugin.Compression.{Lz4}
use p2p_tun.Relay.{Relay, fresh_tables, negotiate, register_msg, send}
use p2p_tun.Relay.Inbound.{on_frame}
use p2p_tun.Server.{ControlMsg, blank_msg, control}
use p2p_tun.Text.{Text, text, text_eq}

-- closeCh is nil before the first dial that succeeds, then open, then closed.
pub data CloseCh : Type 0 where
  nil_ch open_ch closed_ch : CloseCh

-- The connection of a Client, and whether its readLoop was started.
pub record Session : Type 0 where
  pub relay : Relay
  pub conn_open : Bool
  pub close_ch : CloseCh
  pub reading : Bool

pub data ConnectError : Type 0 where
  dial_failed register_not_sent not_control no_json : ConnectError
  read_failed : NetError → ConnectError
  rejected : Text → ConnectError

-- readControl
unfoldable pub read_control :
    (Bytes → Option ControlMsg) → Source → Result ConnectError (ControlMsg × Source)
read_control unmarshal conn = elim (read_frame conn) [
  | err e ↦ err (read_failed e)
  | ok (f, rest) ↦
      if f.frame_type == frame_control
      then elim (unmarshal f.payload) [ none ↦ err no_json | some msg ↦ ok (msg, rest) ]
      else err not_control
]

-- What happens to one call of Connect: the dial, the write of the registration, and the bytes that
-- the server sends within the deadline.
pub record Attempt : Type 0 where
  pub dialed : Bool
  pub sent : Bool
  pub answer : Source

-- Connect after a dial that succeeds.
abbrev pub dialed_session : Session → Session
dialed_session s = record s {
  relay = fresh_tables s.relay;
  conn_open = true;
  close_ch = open_ch;
  reading = false;
}

-- Connect once the registration is sent.
abbrev pub registered : Session → Session
registered s =
    let s' = dialed_session s in
    record s' { relay = send (control (register_msg s.relay)) s'.relay }

-- `conn.Close()` and a return of the error: closeCh stays open.
abbrev pub give_up : ConnectError → Session → Session × Result ConnectError Source
give_up e s = (record s { conn_open = false }, err e)

-- The text of the error that the server's answer stands for.
abbrev pub rejection : ControlMsg → Text
rejection resp = if text_eq resp.msg_type (text "error") then resp.public_addr else resp.msg_type

-- Connect once the answer is read.
unfoldable pub accept_answer : ControlMsg → Source → Session → Session × Result ConnectError Source
unfolding negotiate
accept_answer resp rest s =
    if text_eq resp.msg_type (text "ok")
    then (record s { relay = negotiate resp s.relay; reading = true }, ok rest)
    else give_up (rejected (rejection resp)) s

unfoldable pub await_answer :
    (Bytes → Option ControlMsg) → Source → Session → Session × Result ConnectError Source
unfolding read_control accept_answer
await_answer unmarshal answer s = elim (read_control unmarshal answer) [
  | err e ↦ give_up e s
  | ok (resp, rest) ↦ accept_answer resp rest s
]

-- Connect. A dial that fails leaves the client as it was.
unfoldable pub connect_session :
    (Bytes → Option ControlMsg) → Attempt → Session → Session × Result ConnectError Source
unfolding register_msg await_answer
connect_session unmarshal a s =
    if a.dialed
    then if a.sent
      then await_answer unmarshal a.answer (registered s)
      else give_up register_not_sent (dialed_session s)
    else (s, err dial_failed)

-- Close; `none` is the panic of closing a nil channel.
unfoldable pub close : Session → Option Session
close s = elim s.close_ch [
  | nil_ch ↦ none
  | _ ↦ some (record s { close_ch = closed_ch; conn_open = false })
]

-- What the environment does during one turn of readLoop: whether Close was called before it, and
-- the answers for the frame or the ping.
pub record Turn : Type 0 where
  pub closed : Bool
  pub dialed : Option ℕ
  pub written : Bool
  pub now : ℕ

-- The deferred Close.
abbrev pub ended : Session → Session
ended s = record s { close_ch = closed_ch; conn_open = false; reading = false }

abbrev pub handle : Lz4 → (Bytes → Option ControlMsg) → Frame → Turn → Session → Session
handle lz4 unmarshal f t s = record s {
  relay = on_frame lz4 unmarshal f t.dialed t.written t.now s.relay;
}

abbrev pub ping : Session → Session
ping s = record s { relay = send (control (blank_msg (text "ping"))) s.relay }

-- How a turn ends: the loop goes on, reads again after a timeout, or returns.
pub data Next : Type 0 where
  reads : Source → Next
  waits returns : Next

-- `netErr.Timeout()`
abbrev pub is_timeout : NetError → Bool
is_timeout timeout = true
is_timeout _ = false

-- readLoop after a failed readFrame: a heartbeat after a timeout, and a return after all else.
abbrev pub on_error : Turn → NetError → Session → Next × Session
on_error t e s =
    if is_closed_err (some e)
    then (returns, s)
    else if is_timeout e
    then if t.written then (waits, ping s) else (returns, s)
    else (returns, s)

unfoldable pub read_turn :
    Lz4 → (Bytes → Option ControlMsg) → Turn → Source → Session → Next × Session
unfolding is_closed_err
read_turn lz4 unmarshal t conn s = if t.closed then (returns, s) else elim (read_frame conn) [
  | ok (f, rest) ↦ (reads rest, handle lz4 unmarshal f t s)
  | err e ↦ on_error t e s
]

-- readLoop for the turns of a schedule. The bytes that arrive after a timeout are the next source;
-- what readFrame took before the timeout is lost.
unfoldable pub read_loop :
    Lz4 → (Bytes → Option ControlMsg) → List Turn → Source → List Source → Session → Session
unfolding read_turn
read_loop lz4 unmarshal [] conn later s = s
read_loop lz4 unmarshal (t ∷ ts) conn later s =
    let (then_what, s') = read_turn lz4 unmarshal t conn s in
    elim then_what [
      | reads rest ↦ read_loop lz4 unmarshal ts rest later s'
      | waits ↦ elim later [ [] ↦ s' | conn' ∷ later' ↦ read_loop lz4 unmarshal ts conn' later' s' ]
      | returns ↦ ended s'
    ]
