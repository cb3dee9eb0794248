-- ===== src/Keepalive/Tests.antt =====
-- The theorem on the loop at a concrete sequence of ticks.
use p2p_tun.Prelude.{List, [], none, some, ◌∷◌}
use p2p_tun.Keepalive.{Event, stop, tick}
use p2p_tun.Text.{text}

abbrev some_ticks : List Event
some_ticks =
    tick none
    ∷ tick (some (text "1.2.3.4:5"))
    ∷ tick (some (text "1.2.3.4:6"))
    ∷ stop
    ∷ tick (some (text "1.2.3.4:7"))
    ∷ []
