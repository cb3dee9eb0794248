-- ===== src/Forward.antt =====
-- The forwarder of forward/forward.go. Every connection and every datagram has goroutines of its own,
-- and a schedule says in which order they move. The sockets and io.Copy's reads are outside.
pub mod Copying
pub mod Goroutines
mod Tests
use p2p_tun.Prelude.{
  Bool, Bytes, List, Option, [], drop, false, get_elem?, if◌then◌else◌, length, map, none, set,
  some, take, true, ℕ, ◌&&◌, ◌++◌, ◌∷◌,
}

-- What happens to one io.Copy of handleTCPConn: a chunk that is read and written, a write that
-- fails after a part of its chunk, or a read that ends, with io.EOF or another error.
pub data Chunk : Type 0 where
  copied broken : Bytes → Chunk
  ended : Chunk

-- What a direction has carried, and whether its CloseWrite was called.
pub record Half : Type 0 where
  pub carried : Bytes
  pub write_closed : Bool

-- io.Copy and the CloseWrite behind it.
unfoldable pub copy_step : Chunk → Half → Half
copy_step c h = if h.write_closed then h else elim c [
  | copied b ↦ record h { carried = h.carried ++ b }
  | broken b ↦ record { carried = h.carried ++ b; write_closed = true }
  | ended ↦ record h { write_closed = true }
]

-- The two directions of handleTCPConn.
pub record Pair : Type 0 where
  pub to_target : Half
  pub to_client : Half

pub data Move : Type 0 where
  up down : Chunk → Move

unfoldable pub copy_move : Move → Pair → Pair
unfolding copy_step
copy_move (up c) p = record p { to_target = copy_step c p.to_target }
copy_move (down c) p = record p { to_client = copy_step c p.to_client }

unfoldable pub copy_moves : List Move → Pair → Pair
copy_moves [] p = p
copy_moves (m ∷ ms) p = copy_moves ms (copy_move m p)

abbrev pub fresh_half : Half
fresh_half = record { carried = []; write_closed = false }

abbrev pub fresh_pair : Pair
fresh_pair = record { to_target = fresh_half; to_client = fresh_half }

-- `wg.Wait()` returns, and the deferred calls close both connections.
abbrev pub is_over : Pair → Bool
is_over p = p.to_target.write_closed && p.to_client.write_closed

-- handleTCPConn for a dial and a schedule: what is carried, and whether the client is closed.
unfoldable pub handle_tcp_conn : Bool → List Move → Pair × Bool
unfolding copy_moves
handle_tcp_conn dialed ms =
    let p = copy_moves ms fresh_pair in if dialed then (p, is_over p) else (fresh_pair, true)

-- Where the goroutine of a datagram stands in ForwardUDP: before the call that the name says.
pub data Stage : Type 0 where
  at_dial at_write at_deadline at_read over : Stage
  at_reply : Bytes → Stage

pub record Task : Type 0 where
  pub client_addr : ℕ
  pub payload : Bytes
  pub stage : Stage

-- What the next call of a goroutine returns.
pub data Outcome : Type 0 where
  fails succeeds : Outcome
  hears : Bytes → Outcome

pub data Act : Type 0 where
  dials closes : Act
  writes : Bytes → Act
  replies : ℕ → Bytes → Act

abbrev pub max_datagram : ℕ
max_datagram = 65535

abbrev pub at : Stage → Task → Task
at stage t = record t { stage = stage }

-- The next call of a goroutine; each return runs the deferred Close of a socket that is open.
unfoldable pub advance : Outcome → Task → Task × List Act
advance o t = elim t.stage [
  | at_dial ↦ elim o [ fails ↦ (at over t, []) | _ ↦ (at at_write t, dials ∷ []) ]
  | at_write ↦ elim o [
    | fails ↦ (at over t, closes ∷ [])
    | _ ↦ (at at_deadline t, writes t.payload ∷ [])
  ]
  | at_deadline ↦ elim o [ fails ↦ (at over t, closes ∷ []) | _ ↦ (at at_read t, []) ]
  | at_read ↦ elim o [
    | hears b ↦ (at (at_reply (take max_datagram b)) t, [])
    | _ ↦ (at over t, closes ∷ [])
  ]
  | at_reply b ↦ elim o [
    | fails ↦ (at over t, closes ∷ [])
    | _ ↦ (at over t, replies t.client_addr b ∷ closes ∷ [])
  ]
  | over ↦ (t, [])
]

-- ForwardUDP: the buffer that all reads share, the goroutines that were started, and what they did.
pub record Forwarder : Type 0 where
  pub buf : Bytes
  pub tasks : List Task
  pub log : List (ℕ × Act)

-- ReadFromUDP puts a datagram at the front of the buffer, cut to its size.
abbrev pub fill : Bytes → Bytes → Bytes
fill d buf = take max_datagram d ++ drop (length (take max_datagram d)) buf

abbrev pub start_task : ℕ → Bytes → Task
start_task client_addr payload = record {
  client_addr = client_addr;
  payload = payload;
  stage = at_dial;
}

-- One turn of the loop of ForwardUDP; `none` is an error, which is passed over.
unfoldable pub receive : Option (ℕ × Bytes) → Forwarder → Forwarder
receive none s = s
receive (some (client_addr, d)) s =
    let buf = fill d s.buf in
    record s {
      buf = buf;
      tasks = s.tasks ++ start_task client_addr (take (length (take max_datagram d)) buf) ∷ [];
    }

abbrev pub tag : ℕ → List Act → List (ℕ × Act)
tag i acts = map (λ a. (i, a)) acts

-- The i-th goroutine moves.
unfoldable pub move_task : ℕ → Outcome → Forwarder → Forwarder
unfolding advance
move_task i o s = elim (get_elem? s.tasks i) [
  | none ↦ s
  | some t ↦
      let (t', acts) = advance o t in
      record s { tasks = set s.tasks i t'; log = s.log ++ tag i acts }
]

pub data Turn : Type 0 where
  arrives : Option (ℕ × Bytes) → Turn
  moves : ℕ → Outcome → Turn

unfoldable pub turn : Turn → Forwarder → Forwarder
unfolding receive move_task
turn (arrives d) s = receive d s
turn (moves i o) s = move_task i o s

unfoldable pub turns : List Turn → Forwarder → Forwarder
turns [] s = s
turns (t ∷ ts) s = turns ts (turn t s)

abbrev pub new_forwarder : Bytes → Forwarder
new_forwarder buf = record { buf = buf; tasks = []; log = [] }
