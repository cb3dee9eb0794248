-- ===== src/Forward/Copying.antt =====
-- The two directions of handleTCPConn of forward/forward.go, each on its own.
use mathlib.Core.List.{append-nil, append_assoc}
use p2p_tun.Prelude.{
  Bool, Bytes, List, [], false, if◌then◌else◌, not, refl, true, ◌&&◌, ◌++◌, ◌||◌, ◌∙◌, ◌∷◌, ◌≡◌,
}
use p2p_tun.Forward.{
  Chunk, Half, Move, Pair, broken, copied, copy_move, copy_moves, copy_step, down, ended,
  fresh_pair, handle_tcp_conn, up,
}

abbrev pub upward : List Move → List Chunk
upward [] = []
upward (up c ∷ ms) = c ∷ upward ms
upward (down c ∷ ms) = upward ms

abbrev pub downward : List Move → List Chunk
downward [] = []
downward (up c ∷ ms) = downward ms
downward (down c ∷ ms) = c ∷ downward ms

-- What a direction carries, read off its chunks: all up to the first end.
abbrev pub carried_by : List Chunk → Bytes
carried_by [] = []
carried_by (copied b ∷ cs) = b ++ carried_by cs
carried_by (broken b ∷ cs) = b
carried_by (ended ∷ cs) = []

abbrev pub ends : List Chunk → Bool
ends [] = false
ends (copied b ∷ cs) = ends cs
ends (broken b ∷ cs) = true
ends (ended ∷ cs) = true

-- A direction after its chunks, from where it stands.
abbrev after : List Chunk → Half → Half
after cs h =
    if h.write_closed
    then h
    else record { carried = h.carried ++ carried_by cs; write_closed = ends cs }

abbrev half : Bytes → Bool → Half
half carried write_closed = record { carried = carried; write_closed = write_closed }

copy_step-after :
    (c : Chunk) (cs : List Chunk) (carried : Bytes) (w : Bool)
    → after cs (copy_step c (half carried w)) ≡ after (c ∷ cs) (half carried w)
unfolding copy_step
copy_step-after c cs carried true = refl
copy_step-after (copied b) cs carried false = rw append_assoc refl
copy_step-after (broken b) cs carried false = refl
copy_step-after ended cs carried false = rw append-nil refl

after_none : (carried : Bytes) (w : Bool) → after [] (half carried w) ≡ half carried w
after_none carried true = refl
after_none carried false = rw append-nil refl

copy_moves-apart :
    (ms : List Move) (p : Pair)
    → copy_moves ms p ≡ record {
      to_target = after (upward ms) p.to_target;
      to_client = after (downward ms) p.to_client;
    }
unfolding copy_moves copy_move
copy_moves-apart [] p =
    rw (after_none p.to_target.carried p.to_target.write_closed)
      (rw (after_none p.to_client.carried p.to_client.write_closed) refl)
copy_moves-apart (up c ∷ ms) p =
    copy_moves-apart ms (copy_move (up c) p)
    ∙ rw (copy_step-after c (upward ms) p.to_target.carried p.to_target.write_closed) refl
copy_moves-apart (down c ∷ ms) p =
    copy_moves-apart ms (copy_move (down c) p)
    ∙ rw (copy_step-after c (downward ms) p.to_client.carried p.to_client.write_closed) refl

-- However the two goroutines interleave, each side receives what the other one sent before it
-- ended, and the end of one direction leaves the other one open; the connections are closed when
-- both have ended, or when the target cannot be dialled.
pub handle_tcp_conn-apart :
    (dialed : Bool) (ms : List Move)
    → let (p, client_closed) = handle_tcp_conn dialed ms in
      (p.to_target.carried ≡ (if dialed then carried_by (upward ms) else []))
      × (p.to_client.carried ≡ (if dialed then carried_by (downward ms) else []))
      × (client_closed ≡ (not dialed || (ends (upward ms) && ends (downward ms))))
unfolding handle_tcp_conn
handle_tcp_conn-apart true ms = rw (copy_moves-apart ms fresh_pair) (refl, refl, refl)
handle_tcp_conn-apart false ms = (refl, refl, refl)
