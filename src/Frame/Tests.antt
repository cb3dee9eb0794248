-- ===== src/Frame/Tests.antt =====
-- The theorems on frames at concrete frames.
use p2p_tun.Prelude.{
  Bytes, [], arith, err, length, length-replicate, refl, replicate, some, ℕ, ◌∷◌, ◌≡◌,
}
use p2p_tun.Frame.{Frame, IsFrame, read_frame}
use p2p_tun.Frame.Faults.{read_frame_cut}
use p2p_tun.Frame.RoundTrip.{read_frames, read_frames-wires, wires}
use p2p_tun.Net.{Sink, Source, eof, reset, unexpected_eof}

abbrev hi : Frame
hi = record { frame_type = 1; channel_id = 7; payload = 104 ∷ 105 ∷ [] }

abbrev bye : Frame
bye = record { frame_type = 2; channel_id = 7; payload = [] }

hi-IsFrame : IsFrame hi
hi-IsFrame = record { is_byte = omega arith; is_u32 = omega arith; fits_u32 = omega arith }

bye-IsFrame : IsFrame bye
bye-IsFrame = record { is_byte = omega arith; is_u32 = omega arith; fits_u32 = omega arith }

abbrev empty_sink : Sink
empty_sink = record { sent = []; room = 100; fault = reset }

read_frames-wires_example :
    read_frames 3 (record { bytes = wires (hi ∷ bye ∷ []); fin = eof }) ≡ (hi ∷ bye ∷ [], some eof)
read_frames-wires_example =
    read_frames-wires (hi ∷ bye ∷ []) 3 (hi-IsFrame, (bye-IsFrame, tt))
      (omega arith, (omega arith, tt)) (omega arith)

abbrev hi_source : Source
hi_source = record { bytes = 1 ∷ 0 ∷ 0 ∷ 0 ∷ 7 ∷ 0 ∷ 0 ∷ 0 ∷ 2 ∷ 104 ∷ 105 ∷ 9 ∷ []; fin = eof }

unfoldable zeros : ℕ → Bytes
zeros n = replicate n 0

length-zeros : (n : ℕ) → length (zeros n) ≡ n
unfolding zeros
length-zeros n = length-replicate n 0

abbrev large : Frame
large = record { frame_type = 1; channel_id = 7; payload = zeros 70000 }

read_frame_cut_example :
    read_frame (record { bytes = 1 ∷ 0 ∷ 0 ∷ 0 ∷ 7 ∷ 0 ∷ 0 ∷ 0 ∷ 2 ∷ 104 ∷ []; fin = eof })
    ≡ err unexpected_eof
read_frame_cut_example =
    read_frame_cut hi (1 ∷ 0 ∷ 0 ∷ 0 ∷ 7 ∷ 0 ∷ 0 ∷ 0 ∷ 2 ∷ 104 ∷ []) (105 ∷ []) hi-IsFrame
      (omega arith) refl (omega arith)
