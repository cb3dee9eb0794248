-- ===== src/Forward/Tests.antt =====
-- The theorems on the forwarder at concrete schedules.
use p2p_tun.Prelude.{List, [], none, refl, some, true, ◌∷◌, ◌≡◌}
use p2p_tun.Forward.{
  Turn, advance, arrives, broken, closes, copied, dials, down, ended, fails, handle_tcp_conn, hears,
  moves, new_forwarder, replies, succeeds, turns, up, writes,
}
use p2p_tun.Forward.Copying.{handle_tcp_conn-apart}
use p2p_tun.Forward.Goroutines.{acts_of, turns-alone}

handle_tcp_conn-apart_example :
    let (p, client_closed) = handle_tcp_conn true (
      up (copied (1 ∷ 2 ∷ []))
      ∷ down (copied (9 ∷ []))
      ∷ up ended
      ∷ up (copied (3 ∷ []))
      ∷ down (broken (8 ∷ []))
      ∷ []) in
    (p.to_target.carried ≡ 1 ∷ 2 ∷ []) × (p.to_client.carried ≡ 9 ∷ 8 ∷ []) × (client_closed ≡ true)
handle_tcp_conn-apart_example = handle_tcp_conn-apart true (
    up (copied (1 ∷ 2 ∷ []))
    ∷ down (copied (9 ∷ []))
    ∷ up ended
    ∷ up (copied (3 ∷ []))
    ∷ down (broken (8 ∷ []))
    ∷ [])

-- Two clients; the second datagram overwrites the buffer before the first is sent.
abbrev two_clients : List Turn
two_clients =
    arrives (some (7, 1 ∷ 2 ∷ []))
    ∷ arrives none
    ∷ arrives (some (8, 5 ∷ []))
    ∷ moves 1 succeeds
    ∷ moves 0 succeeds
    ∷ moves 0 succeeds
    ∷ moves 1 fails
    ∷ moves 0 succeeds
    ∷ moves 0 (hears (4 ∷ []))
    ∷ moves 1 succeeds
    ∷ moves 0 succeeds
    ∷ []

turns-alone_example :
    acts_of 0 (turns two_clients (new_forwarder (0 ∷ 0 ∷ 0 ∷ []))).log
    ≡ dials ∷ writes (1 ∷ 2 ∷ []) ∷ replies 7 (4 ∷ []) ∷ closes ∷ []
unfolding advance
turns-alone_example = turns-alone two_clients (0 ∷ 0 ∷ 0 ∷ []) 0 7 (1 ∷ 2 ∷ []) refl
