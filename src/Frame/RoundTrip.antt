-- ===== src/Frame/RoundTrip.antt =====
-- What the writer sends, the reader reads back.
use mathlib.Core.List.{append_assoc}
use p2p_tun.Prelude.{
  All, Bytes, List, Option, [], arith, drop-append, err, length, length-append, none, ok, refl,
  some, suc, take-append, u32-put, zero, ℕ, ◌%◌, ◌++◌, ◌+◌, ◌-◌, ◌<◌, ◌^◌, ◌∷◌, ◌≡◌, ◌≤◌,
}
use p2p_tun.Frame.{
  Frame, IsFrame, header, max_frame_size, read_frame, read_payload, uint32_at, write_frame,
}
use p2p_tun.Net.{NetError, Sink, Source, eof, read_full, write}

-- The bytes of a frame on the wire.
abbrev pub wire : Frame → Bytes
wire f = header f.frame_type f.channel_id f.payload ++ f.payload

pub read_full-append :
    (xs ys : Bytes) (e : NetError)
    → read_full (length xs) (record { bytes = xs ++ ys; fin = e })
      ≡ ok (xs, record { bytes = ys; fin = e })
unfolding read_full
read_full-append xs ys e = ground (arith, length-append xs ys, take-append xs ys, drop-append xs ys)

-- On a connection with room for them, writeFrame sends the bytes of the frame and no other.
pub write_frame-wire :
    (k : Sink) (t c : ℕ) (p : Bytes)
    → length p + 9 ≤ k.room
    → write_frame k t c p
      ≡ (record k { sent = k.sent ++ (header t c p ++ p); room = k.room - (length p + 9) }, none)
unfolding write_frame write
write_frame-wire k t c [] h = ground arith
write_frame-wire k t c (b ∷ p) h = ground (arith, append_assoc k.sent (header t c (b ∷ p)) (b ∷ p))

read_payload-append :
    (p rest : Bytes) (e : NetError)
    → length p ≤ max_frame_size
    → read_payload (length p) (record { bytes = p ++ rest; fin = e })
      ≡ ok (p, record { bytes = rest; fin = e })
unfolding read_payload
read_payload-append [] rest e h = refl
read_payload-append (b ∷ p) rest e h = ground (arith, read_full-append (b ∷ p) rest e)

pub header_fields :
    (f : Frame)
    → IsFrame f
    → (uint32_at (header f.frame_type f.channel_id f.payload) 1 ≡ f.channel_id)
      × (uint32_at (header f.frame_type f.channel_id f.payload) 5 ≡ length f.payload)
header_fields f w = omega (arith, u32-put f.channel_id, u32-put (length f.payload % 2 ^ 32))

-- readFrame returns any frame of at most 65536 bytes that writeFrame put on the wire, and leaves
-- what follows it.
pub read_frame-wire :
    (f : Frame) (rest : Bytes) (e : NetError)
    → IsFrame f
    → length f.payload ≤ max_frame_size
    → read_frame (record { bytes = wire f ++ rest; fin = e })
      ≡ ok (f, record { bytes = rest; fin = e })
unfolding read_frame
read_frame-wire f rest e w h =
    rw (read_full-append (header f.frame_type f.channel_id f.payload) (f.payload ++ rest) e) (
      rw ((header_fields f w).1, read_payload-append f.payload rest e h, (header_fields f w).0)
        refl)

-- A reader that keeps calling readFrame, as both read loops do, until readFrame fails.
unfoldable pub read_frames : ℕ → Source → List Frame × Option NetError
read_frames zero conn = ([], none)
read_frames (suc fuel) conn = elim (read_frame conn) [
  | ok (f, rest) ↦ let (fs, e) = read_frames fuel rest in (f ∷ fs, e)
  | err e ↦ ([], some e)
]

abbrev pub wires : List Frame → Bytes
wires [] = []
wires (f ∷ fs) = wire f ++ wires fs

-- Frames written one after the other are read back one after the other, and then the end of the
-- stream is reported. One round for each frame and one for the end are enough.
pub read_frames-wires :
    (fs : List Frame) (n : ℕ)
    → All IsFrame fs
    → All (λ f. length f.payload ≤ max_frame_size) fs
    → length fs < n
    → read_frames n (record { bytes = wires fs; fin = eof }) ≡ (fs, some eof)
unfolding read_frames
read_frames-wires [] zero w h p = absurd (omega arith)
read_frames-wires [] (suc n) w h p = unfold read_frame read_full in refl
read_frames-wires (f ∷ fs) zero w h p = absurd (omega arith)
read_frames-wires (f ∷ fs) (suc n) w h p =
    rw (read_frame-wire f (wires fs) eof w.0 h.0, read_frames)
      (rw (read_frames-wires fs n w.1 h.1 (omega arith)) refl)
