-- ===== src/Plugin/RateLimit/Interleaved.antt =====
-- Wait of plugin/ratelimit.go called by many goroutines: its two locked parts are steps of their own,
-- and those of different calls interleave while the calls sleep.
use p2p_tun.Prelude.{List, Option, [], none, some, ℕ, ◌*◌, ◌+◌, ◌∷◌, ◌≡◌, ◌≤◌}
use p2p_tun.Plugin.RateLimit.{RateLimit, reserve, second, settle}
use p2p_tun.Plugin.RateLimit.Rate.{IsBucket}
use p2p_tun.Plugin.TrafficLog.Totals.{total}

-- A locked part of some call, with the time since the last one and the size of the call: the first
-- part, which may send the call to sleep, or the second, after a sleep.
pub data Part : Type 0 where
  asks : ℕ → ℕ → Part
  wakes : ℕ → ℕ → Part

abbrev pub slept : Option ℕ → ℕ
slept none = 0
slept (some sleep) = sleep

-- The parts in the order in which they get the lock: the limiter, the time, and the nanoseconds for
-- which the calls together are sent to sleep.
unfoldable pub run_parts : RateLimit → ℕ → List Part → RateLimit × ℕ × ℕ
run_parts r now [] = (r, now, 0)
run_parts r now (asks gap n ∷ ps) =
    let (r', sleep) = reserve r n (now + gap) in
    let (last, end, total) = run_parts r' (now + gap) ps in (last, end, slept sleep + total)
run_parts r now (wakes gap n ∷ ps) = run_parts (settle r n (now + gap)) (now + gap) ps

-- The bytes of the calls, and how many they are.
abbrev pub asked : List Part → ℕ
asked [] = 0
asked (asks gap n ∷ ps) = n + asked ps
asked (wakes gap n ∷ ps) = asked ps

abbrev pub calls : List Part → ℕ
calls [] = 0
calls (asks gap n ∷ ps) = 1 + calls ps
calls (wakes gap n ∷ ps) = calls ps

-- What one part costs.
record Paid (r : RateLimit) (n sleep now : ℕ) (r' : RateLimit) : Type 0 where
  bucket : IsBucket r' now
  stamped : r'.last_refill ≡ now
  same_rate : r'.bytes_per_sec ≡ r.bytes_per_sec
  paid :
      n * second + r'.tokens + r.last_refill * r.bytes_per_sec
      ≤ r.tokens + now * r.bytes_per_sec + sleep * r.bytes_per_sec + r.bytes_per_sec
