-- ===== src/Frame.antt =====
-- The frames between relay client and server: one byte of type, the channel and the length of the
-- payload as big-endian words, and the payload. Server side: writeFrame, readFrame of
-- signal-server/main.go; client side: the methods of the same names in relay/relay.go.
pub mod RoundTrip
pub mod Faults
mod Tests
use p2p_tun.Prelude.{
  Bytes, Option, Result, [], err, get_or, if◌then◌else◌, length, ltb, none, ok, put_u32, some,
  uint32_at, ℕ, ◌%◌, ◌++◌, ◌<◌, ◌>>=◌, ◌>>◌, ◌^◌, ◌∷◌,
}
use p2p_tun.Net.{NetError, Sink, Source, read_full, too_large, write}

abbrev pub frame_control : ℕ
frame_control = 0x00

abbrev pub frame_data : ℕ
frame_data = 0x01

abbrev pub frame_close : ℕ
frame_close = 0x02

abbrev pub frame_data_compressed : ℕ
frame_data_compressed = 0x03

abbrev pub frame_header_size : ℕ
frame_header_size = 9

abbrev pub max_frame_size : ℕ
max_frame_size = 65536

pub record Frame : Type 0 where
  pub frame_type : ℕ
  pub channel_id : ℕ
  pub payload : Bytes

-- What Go's types say of a frame: a byte, a uint32 and a slice that is no longer than 2 ^ 32.
pub record IsFrame (f : Frame) : Type 0 where
  pub is_byte : f.frame_type < 256
  pub is_u32 : f.channel_id < 2 ^ 32
  pub fits_u32 : length f.payload < 2 ^ 32

abbrev pub header : ℕ → ℕ → Bytes → Bytes
header frame_type channel_id payload =
    frame_type ∷ (put_u32 channel_id ++ put_u32 (length payload % 2 ^ 32))

-- A failed write of the header is returned; an empty payload is not written.
after_header : Bytes → Sink × Option NetError → Sink × Option NetError
after_header payload (k, some e) = (k, some e)
after_header payload (k, none) = if ltb 0 (length payload) then write k payload else (k, none)

-- writeFrame of the server.
unfoldable pub write_frame : Sink → ℕ → ℕ → Bytes → Sink × Option NetError
unfolding after_header
write_frame conn frame_type channel_id payload =
    after_header payload (write conn (header frame_type channel_id payload))

-- The second half of readFrame: the limit on the length, and the payload unless it is empty.
unfoldable pub read_payload : ℕ → Source → Result NetError (Bytes × Source)
read_payload payload_len conn =
    if ltb max_frame_size payload_len
    then err (too_large payload_len)
    else if ltb 0 payload_len
    then read_full payload_len conn
    else ok ([], conn)

-- readFrame of the server.
unfoldable pub read_frame : Source → Result NetError (Frame × Source)
read_frame conn = do
  (head, rest) ← read_full frame_header_size conn
  (payload, rest') ← read_payload (uint32_at head 5) rest
  ok (
    record { frame_type = get_or head 0 0; channel_id = uint32_at head 1; payload = payload },
    rest',
  )
