-- ===== src/Keepalive.antt =====
-- The loop of keepalive/keepalive.go: a binding request at every tick, until it is told to stop.
pub mod Changes
mod Tests
use p2p_tun.Prelude.{List, Option, [], if◌then◌else◌, none, not, some, ◌&&◌, ◌++◌, ◌∷◌}
use p2p_tun.Text.{Text, is_empty, text_eq}

-- What the loop meets: the stop channel, or a tick with what BindingRequest returns.
pub data Event : Type 0 where
  stop : Event
  tick : Option Text → Event

-- What it logs at the level of Info.
pub data Note : Type 0 where
  stopped : Note
  changed : Text → Text → Note

-- `lastAddr != "" && currentAddr != lastAddr`
abbrev pub note_change : Text → Text → List Note
note_change last current =
    if not (is_empty last) && not (text_eq current last) then changed last current ∷ [] else []

-- Keepalive from an address on, empty where none is known; after a failure the address stays.
unfoldable pub keepalive : Text → List Event → List Note
keepalive last [] = []
keepalive last (stop ∷ es) = stopped ∷ []
keepalive last (tick none ∷ es) = keepalive last es
keepalive last (tick (some addr) ∷ es) = note_change last addr ++ keepalive addr es
