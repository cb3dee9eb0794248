-- ===== src/Plugin/Compression.antt =====
-- plugin/compression.go. The lz4 library is an argument: the bytes that its writer produced, or the
-- error of the write, and the bytes that its reader produced.
use p2p_tun.Prelude.{
  Bool, Bytes, Option, Option-cases, arith, false, if◌then◌else◌, inl, inr, leb, length, ltb, none,
  some, true, ℕ, ◌==◌, ◌≡◌, ◌≤◌,
}
use p2p_tun.Frame.{frame_data, frame_data_compressed}

pub record Compression : Type 0 where
  pub min_size : ℕ

-- NewCompression, from the int that it is given: `none` stands for a negative one.
unfoldable pub new_compression : Option ℕ → Compression
new_compression none = record { min_size = 128 }
new_compression (some n) = record { min_size = n }

-- What the code uses of github.com/pierrec/lz4: reading gives back what writing was given.
pub record Lz4 : Type 0 where
  pub pack : Bytes → Option Bytes
  pub unpack : Bytes → Option Bytes
  pub unpack-pack : (b c : Bytes) → pack b ≡ some c → unpack c ≡ some b

module _ (lz4 : Lz4) where
  -- Compress: short data, failing writes and data that does not shrink stay as they are.
  unfoldable pub compress : Compression → Bytes → Bytes × Bool
  compress c b = if ltb (length b) c.min_size then (b, false) else elim (lz4.pack b) [
    | none ↦ (b, false)
    | some packed ↦ if leb (length b) (length packed) then (b, false) else (packed, true)
  ]

  -- Decompress; `none` is its error.
  unfoldable pub decompress : Bytes → Option Bytes
  decompress b = lz4.unpack b

  -- What the pipes of both sides do with a piece of data: a compressed frame exactly when Compress
  -- says so, and the reader's choice by the type of the frame.
  unfoldable pub frame_of : Compression → Bytes → ℕ × Bytes
  frame_of c b =
      let (body, packed) = compress c b in
      if packed then (frame_data_compressed, body) else (frame_data, body)

  unfoldable pub data_of : ℕ × Bytes → Option Bytes
  data_of (frame_type, body) =
      if frame_type == frame_data_compressed then decompress body else some body

  -- The receiver restores the data of the sender, compressed or not, and a frame never carries more
  -- bytes than the data had.
  pub data_of-frame_of :
      (c : Compression) (b : Bytes)
      → (data_of (frame_of c b) ≡ some b) × (length (frame_of c b).1 ≤ length b)
  unfolding data_of frame_of compress decompress
  data_of-frame_of c b = elim (Option-cases (lz4.pack b)) [
    | inl e ↦ ground arith
    | inr (packed, e) ↦ ground (arith, lz4.unpack-pack b packed e)
  ]
