-- ===== src/Relay/Session/Reading.antt =====
-- readLoop of relay/relay.go on the bytes that arrive, deadlines included.
use p2p_tun.Prelude.{
  All, Bool-cases, Bytes, List, Option, [], err, false, inl, inr, length, map, refl, some, true,
  ◌++◌, ◌<◌, ◌∷◌, ◌≡◌, ◌≤◌,
}
use p2p_tun.Frame.{Frame, IsFrame, max_frame_size, read_frame}
use p2p_tun.Frame.Faults.{read_frame_late}
use p2p_tun.Frame.RoundTrip.{read_frame-wire, wire}
use p2p_tun.Net.{NetError, Source, is_closed_err, read_full, short_read, timeout}
use p2p_tun.Plugin.Compression.{Lz4}
use p2p_tun.Relay.Session.{
  Session, Turn, ended, handle, is_timeout, on_error, ping, read_loop, read_turn, reads, returns,
  waits,
}
use p2p_tun.Server.{ControlMsg}

-- What comes from the server: a whole frame, or nothing until the deadline.
pub data Event : Type 0 where
  arrives : Frame → Turn → Event
  quiet : Turn → Event

abbrev pub turn_of : Event → Turn
turn_of (arrives f t) = t
turn_of (quiet t) = t

-- The bytes up to the next deadline, how they end, and the sources behind the deadline.
abbrev pub front : List Event → Bytes
front [] = []
front (arrives f t ∷ es) = wire f ++ front es
front (quiet t ∷ es) = []

abbrev pub front_fin : NetError → List Event → NetError
front_fin e [] = e
front_fin e (arrives f t ∷ es) = front_fin e es
front_fin e (quiet t ∷ es) = timeout

abbrev pub source : NetError → List Event → Source
source e es = record { bytes = front es; fin = front_fin e es }

abbrev pub sources : NetError → List Event → List Source
sources e [] = []
sources e (arrives f t ∷ es) = sources e es
sources e (quiet t ∷ es) = source e es ∷ sources e es

-- The frames are of Go's types and within the limit, nobody closes the client, and pings are sent.
abbrev pub IsFine : Event → Type 0
IsFine (arrives f t) = IsFrame f × (length f.payload ≤ max_frame_size) × (t.closed ≡ false)
IsFine (quiet t) = (t.closed ≡ false) × (t.written ≡ true)

-- What the client does for each event.
abbrev pub by_events : Lz4 → (Bytes → Option ControlMsg) → List Event → Session → Session
by_events lz4 unmarshal [] s = s
by_events lz4 unmarshal (arrives f t ∷ es) s =
    by_events lz4 unmarshal es (handle lz4 unmarshal f t s)
by_events lz4 unmarshal (quiet t ∷ es) s = by_events lz4 unmarshal es (ping s)

module _ (lz4 : Lz4) (unmarshal : Bytes → Option ControlMsg) where
  read_turn-frame :
      (t : Turn) (f : Frame) (rest : Bytes) (e : NetError) (s : Session)
      → IsFine (arrives f t)
      → read_turn lz4 unmarshal t (record { bytes = wire f ++ rest; fin = e }) s
        ≡ (reads (record { bytes = rest; fin = e }), handle lz4 unmarshal f t s)
  unfolding read_turn
  read_turn-frame t f rest e s w = rw (read_turn, w.2, read_frame-wire f rest e w.0 w.1) refl

  read_turn-late :
      (t : Turn) (conn : Source) (s : Session)
      → read_frame conn ≡ err timeout
      → t.closed ≡ false
      → t.written ≡ true
      → read_turn lz4 unmarshal t conn s ≡ (waits, ping s)
  unfolding read_turn
  read_turn-late t conn s h c w = rw (read_turn, c, h) (rw w refl)

  on_error-returns :
      (t : Turn) (e : NetError) (s : Session) → is_timeout e ≡ false → on_error t e s ≡ (returns, s)
  on_error-returns t e s h = elim (Bool-cases (is_closed_err (some e))) [
    | inl c ↦ rw c refl
    | inr c ↦ rw (c, h) refl
  ]

  read_turn-ends :
      (t : Turn) (conn : Source) (e : NetError) (s : Session)
      → read_frame conn ≡ err e
      → is_timeout e ≡ false
      → read_turn lz4 unmarshal t conn s ≡ (returns, s)
  unfolding read_turn
  read_turn-ends t conn e s h n = elim (Bool-cases t.closed) [
    | inl c ↦ rw (read_turn, c) refl
    | inr c ↦ rw (read_turn, c, h) (on_error-returns t e s n)
  ]

  read_frame-empty : (e : NetError) → read_frame (record { bytes = []; fin = e }) ≡ err e
  unfolding read_frame read_full short_read
  read_frame-empty e = refl

  -- While whole frames arrive between the deadlines, readLoop does for the bytes what it promises
  -- for the frames: it handles each frame once and in order, sends a ping for every deadline that
  -- passes, loses nothing, and when the connection ends in an error other than a timeout it closes
  -- the client and returns.
  pub read_loop-by_events :
      (es : List Event) (t : Turn) (e : NetError) (s : Session)
      → All IsFine es
      → is_timeout e ≡ false
      → read_loop lz4 unmarshal (map turn_of es ++ t ∷ []) (source e es) (sources e es) s
        ≡ ended (by_events lz4 unmarshal es s)
  unfolding read_loop
  read_loop-by_events [] t e s w h =
      let stops = read_turn-ends t (source e []) e s (read_frame-empty e) h in
      rw (stops, read_loop) (rw stops refl)
  read_loop-by_events (arrives f u ∷ es) t e s w h =
      let whole = read_turn-frame u f (front es) (front_fin e es) s w.0 in
      rw (whole, read_loop)
        (rw whole (read_loop-by_events es t e (handle lz4 unmarshal f u s) w.1 h))
  read_loop-by_events (quiet u ∷ es) t e s w h =
      let late =
        read_turn-late u (source e (quiet u ∷ es)) s (read_frame-empty timeout) w.0.0 w.0.1 in
      rw (late, read_loop) (rw late (read_loop-by_events es t e (ping s) w.1 h))

  -- A deadline that passes inside a frame loses the part of the frame that was read: after the ping,
  -- readLoop goes on as if a new frame began in the middle of this one.
  pub read_loop_torn :
      (f : Frame) (head tail rest : Bytes) (e : NetError) (t : Turn) (ts : List Turn)
      (later : List Source) (s : Session)
      → IsFine (arrives f t)
      → t.written ≡ true
      → wire f ≡ head ++ tail
      → 0 < length tail
      → read_loop lz4 unmarshal
          (t ∷ ts)
          (record { bytes = head; fin = timeout })
          (record { bytes = tail ++ rest; fin = e } ∷ later)
          s
        ≡ read_loop lz4 unmarshal ts (record { bytes = tail ++ rest; fin = e }) later (ping s)
  unfolding read_loop
  read_loop_torn f head tail rest e t ts later s w p cut h =
      let late =
        read_turn-late t (record { bytes = head; fin = timeout }) s
          (read_frame_late f head tail w.0 w.1 cut h) w.2 p in
      rw (late, read_loop) (rw late refl)
