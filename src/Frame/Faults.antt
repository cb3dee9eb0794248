-- ===== src/Frame/Faults.antt =====
-- What readFrame and writeFrame do with oversized frames, broken streams and failing writes.
use mathlib.Core.List.{append_assoc}
use native.Mathlib.Decide.{dec_lt}
use p2p_tun.Prelude.{
  >>=-eq-ok, All, All-append, Bool-cases, Bytes, IsByte, [], ap, arith, err, get_or, get_or-IsByte,
  if◌then◌else◌, inl, inr, length, length-append, length-take, none, ok, refl, split_longer, sym,
  take-append-drop, ℕ, ◌++◌, ◌+◌, ◌<◌, ◌==◌, ◌^◌, ◌||◌, ◌∙◌, ◌∷◌, ◌≡◌, ◌≤◌,
}
use p2p_tun.Frame.{
  Frame, IsFrame, frame_header_size, header, max_frame_size, read_frame, read_payload, uint32_at,
  write_frame,
}
use p2p_tun.Frame.RoundTrip.{header_fields, read_full-append, wire, write_frame-wire}
use p2p_tun.Net.{
  NetError, Sink, Source, eof, read_full, short_read, timeout, too_large, unexpected_eof,
}
use p2p_tun.Plugin.ConnLimit.Race.{start}
use p2p_tun.Text.{split}

rebuild_header :
    (h p : Bytes)
    → length h ≡ 9
    → All IsByte h
    → length p ≡ uint32_at h 5
    → header (get_or h 0 0) (uint32_at h 1) p ≡ h
rebuild_header (t ∷ a ∷ b ∷ c ∷ d ∷ e ∷ f ∷ g ∷ i ∷ []) p l w q = ground arith
rebuild_header _ p l w q = absurd (omega arith)

read_full-ok :
    (n : ℕ) (s : Source) (x : Bytes) (r : Source)
    → read_full n s ≡ ok (x, r)
    → (length x ≡ n) × (s.bytes ≡ x ++ r.bytes) × (r.fin ≡ s.fin)
unfolding read_full
read_full-ok n s x r h = ground (arith, length-take n s.bytes, take-append-drop n s.bytes)

read_payload-ok :
    (n : ℕ) (s : Source) (x : Bytes) (r : Source)
    → read_payload n s ≡ ok (x, r)
    → (length x ≡ n) × (n ≤ max_frame_size) × (s.bytes ≡ x ++ r.bytes) × (r.fin ≡ s.fin)
unfolding read_payload
read_payload-ok n s x r h = ground (arith, read_full-ok n s x r)

u32_at-lt : (h : Bytes) (i : ℕ) → All IsByte h → uint32_at h i < 2 ^ 32
u32_at-lt h i w = omega (
  arith,
  get_or-IsByte h i w,
  get_or-IsByte h (i + 1) w,
  get_or-IsByte h (i + 2) w,
  get_or-IsByte h (i + 3) w,
)

abbrev frame_of : Bytes → Bytes → Frame
frame_of head p = record {
  frame_type = get_or head 0 0;
  channel_id = uint32_at head 1;
  payload = p;
}

whole_parts :
    (s : Source) (head p : Bytes) (rest r : Source)
    → All IsByte s.bytes
    → read_full 9 s ≡ ok (head, rest)
    → read_payload (uint32_at head 5) rest ≡ ok (p, r)
    → IsFrame (frame_of head p)
      × (length p ≤ max_frame_size)
      × (s.bytes ≡ wire (frame_of head p) ++ r.bytes)
      × (r.fin ≡ s.fin)
whole_parts s head p rest r w a b =
    let (la, ea, fa) = read_full-ok 9 s head rest a in
    let (lb, mb, eb, fb) = read_payload-ok (uint32_at head 5) rest p r b in
    let wh : All IsByte head = (All-append IsByte head rest.bytes (rw ea at w)).0 in
    (
      record {
        is_byte = get_or-IsByte head 0 wh;
        is_u32 = u32_at-lt head 1 wh;
        fits_u32 = omega arith;
      },
      omega arith,
      ea
          ∙ ap (◌++◌ head) eb
          ∙ sym (append_assoc head p r.bytes)
          ∙ ap (λ (t : Bytes). (t ++ p) ++ r.bytes) (sym (rebuild_header head p la wh lb)),
      fb ∙ fa,
    )

-- Whatever bytes arrive, a frame that readFrame returns is within the limit, and its bytes are those
-- that readFrame took from the connection.
pub read_frame_sound :
    (s : Source) (f : Frame) (r : Source)
    → All IsByte s.bytes
    → read_frame s ≡ ok (f, r)
    → IsFrame f
      × (length f.payload ≤ max_frame_size)
      × (s.bytes ≡ wire f ++ r.bytes)
      × (r.fin ≡ s.fin)
unfolding read_frame
read_frame_sound s f r w h =
    let ((head, rest), a, h') = >>=-eq-ok (read_full frame_header_size s) _ h in
    let ((p, rest'), b, h'') = >>=-eq-ok (read_payload (uint32_at head 5) rest) _ h' in
    ground (arith, whole_parts s head p rest rest' w a b)

read_payload_large :
    (n : ℕ) (s : Source) → max_frame_size < n → read_payload n s ≡ err (too_large n)
unfolding read_payload
read_payload_large n s h = ground arith

-- writeFrame sends a payload of more than 65536 bytes without complaint; readFrame refuses it after
-- its header, so that the connection is given up.
pub read_frame_large :
    (k : Sink) (f : Frame) (rest : Bytes) (e : NetError)
    → IsFrame f
    → max_frame_size < length f.payload
    → length f.payload + 9 ≤ k.room
    → k.sent ≡ []
    → ((write_frame k f.frame_type f.channel_id f.payload).1 ≡ none)
      × (read_frame (record {
        bytes = (write_frame k f.frame_type f.channel_id f.payload).0.sent ++ rest;
        fin = e;
      })
          ≡ err (too_large (length f.payload)))
unfolding read_frame
read_frame_large k f rest e w h room start =
    rw (write_frame-wire k f.frame_type f.channel_id f.payload room, start)
      (
        refl,
        rw (read_full-append (header f.frame_type f.channel_id f.payload) (f.payload ++ rest) e)
            (rw (header_fields f w).1 (rw (read_payload_large (length f.payload) _ h) refl)),
      )

read_full_short :
    (n : ℕ) (b : Bytes) (e : NetError)
    → length b < n
    → read_full n (record { bytes = b; fin = e }) ≡ err (short_read (length b == 0) e)
unfolding read_full
read_full_short n b e h = ground arith

read_payload_short :
    (n : ℕ) (b : Bytes) (e : NetError)
    → n ≤ max_frame_size
    → length b < n
    → read_payload n (record { bytes = b; fin = e }) ≡ err (short_read (length b == 0) e)
unfolding read_payload
read_payload_short n b e h l = ground (arith, read_full_short n b e)

read_frame_short :
    (f : Frame) (front back : Bytes) (e : NetError)
    → IsFrame f
    → length f.payload ≤ max_frame_size
    → wire f ≡ front ++ back
    → 0 < length back
    → read_frame (record { bytes = front; fin = e })
      ≡ err (short_read (length front == 0 || length front == 9) e)
unfolding read_frame
read_frame_short f front back e w l split h = elim (dec_lt (length front) 9) [
  | yes short ↦ rw (read_full_short 9 front e short) (ground arith)
  | no long ↦
      let head : Bytes = header f.frame_type f.channel_id f.payload in
      let (part, p, q) = split_longer head f.payload front back split (omega arith) in
      let shorter : length part < length f.payload =
        omega (arith, ap length q, length-append part back) in
      rw p (
        rw (read_full-append head part e) (
          rw ((header_fields f w).1, read_payload_short (length f.payload) part e l shorter)
            (ground arith)))
]

-- A stream that ends inside a frame gives an error, never a frame: the plain end of the stream if no
-- byte of the frame came or if exactly the header came, and an unexpected end otherwise.
pub read_frame_cut :
    (f : Frame) (front back : Bytes)
    → IsFrame f
    → length f.payload ≤ max_frame_size
    → wire f ≡ front ++ back
    → 0 < length back
    → read_frame (record { bytes = front; fin = eof })
      ≡ err (if length front == 0 || length front == 9 then eof else unexpected_eof)
read_frame_cut f front back w l e h = elim (Bool-cases (length front == 0 || length front == 9)) [
  | inl at ↦ rw (read_frame_short f front back eof w l e h, at) (unfold short_read in refl)
  | inr at ↦ rw (read_frame_short f front back eof w l e h, at) (unfold short_read in refl)
]

-- A deadline that passes inside a frame is reported as such.
pub read_frame_late :
    (f : Frame) (front back : Bytes)
    → IsFrame f
    → length f.payload ≤ max_frame_size
    → wire f ≡ front ++ back
    → 0 < length back
    → read_frame (record { bytes = front; fin = timeout }) ≡ err timeout
read_frame_late f front back w l e h = elim (Bool-cases (length front == 0 || length front == 9)) [
  | inl at ↦ rw (read_frame_short f front back timeout w l e h, at) (unfold short_read in refl)
  | inr at ↦ rw (read_frame_short f front back timeout w l e h, at) (unfold short_read in refl)
]
