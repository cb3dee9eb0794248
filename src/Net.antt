-- ===== src/Net.antt =====
-- Connections as the relay sees them: net.Conn.Write, io.ReadFull, and the errors that they return,
-- with the classification of errors in relay/relay.go and signal-server/main.go.
use p2p_tun.Prelude.{
  Bool, Bytes, Option, Result, drop, err, false, if◌then◌else◌, leb, length, none, ok, some, take,
  true, ℕ, ◌++◌, ◌-◌, ◌==◌,
}

-- The errors that the code tells apart. `too_large` is readFrame's own.
pub data NetError : Type 0 where
  eof unexpected_eof timeout closed reset broken_pipe other : NetError
  too_large : ℕ → NetError

-- What a connection still delivers, and the error that follows.
pub record Source : Type 0 where
  pub bytes : Bytes
  pub fin : NetError

-- A stream that ends inside the bytes that are wanted has an unexpected end.
unfoldable pub short_read : Bool → NetError → NetError
short_read false eof = unexpected_eof
short_read _ e = e

-- io.ReadFull: all `n` bytes, or an error.
unfoldable pub read_full : ℕ → Source → Result NetError (Bytes × Source)
unfolding short_read
read_full n s =
    if leb n (length s.bytes)
    then ok (take n s.bytes, record s { bytes = drop n s.bytes })
    else err (short_read (length s.bytes == 0) s.fin)

-- What was written to a connection, and how many bytes it takes before it breaks with `fault`.
pub record Sink : Type 0 where
  pub sent : Bytes
  pub room : ℕ
  pub fault : NetError

-- net.Conn.Write: all the bytes, or a part of them and an error.
unfoldable pub write : Sink → Bytes → Sink × Option NetError
write k b =
    if leb (length b) k.room
    then (record k { sent = k.sent ++ b; room = k.room - length b }, none)
    else (record k { sent = k.sent ++ take k.room b; room = 0 }, some k.fault)

-- isNormalClose of the server: `nil`, the end of the stream, and three texts of errors.
unfoldable pub is_normal_close : Option NetError → Bool
is_normal_close none = true
is_normal_close (some eof) = true
is_normal_close (some closed) = true
is_normal_close (some reset) = true
is_normal_close (some broken_pipe) = true
is_normal_close _ = false

-- isClosedErr of the client.
unfoldable pub is_closed_err : Option NetError → Bool
is_closed_err (some eof) = true
is_closed_err (some closed) = true
is_closed_err _ = false
