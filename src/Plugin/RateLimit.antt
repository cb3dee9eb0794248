-- ===== src/Plugin/RateLimit.antt =====
-- plugin/ratelimit.go: a token bucket. The float64 tokens are exact here, in units of a billionth of
-- a byte, so that one nanosecond at `bytes_per_sec` is `bytes_per_sec` units; times are nanoseconds.
pub mod Rate
pub mod Interleaved
use p2p_tun.Prelude.{Option, if◌then◌else◌, leb, ltb, none, some, ℕ, ◌*◌, ◌+◌, ◌-◌, ◌/◌, ◌^◌}

pub record RateLimit : Type 0 where
  pub bytes_per_sec : ℕ
  pub tokens : ℕ
  pub max_tokens : ℕ
  pub last_refill : ℕ

abbrev pub second : ℕ
second = 10 ^ 9

-- NewRateLimit: `nil` for a limit that is not positive (a negative one is 0 here).
unfoldable pub new_rate_limit : ℕ → ℕ → Option RateLimit
new_rate_limit bytes_per_sec now =
    if leb bytes_per_sec 0
    then none
    else some (record {
      bytes_per_sec = bytes_per_sec;
      tokens = bytes_per_sec * second;
      max_tokens = bytes_per_sec * second;
      last_refill = now;
    })

unfoldable pub refill : RateLimit → ℕ → RateLimit
refill r now =
    let filled = r.tokens + (now - r.last_refill) * r.bytes_per_sec in
    record r {
      last_refill = now;
      tokens = if ltb r.max_tokens filled then r.max_tokens else filled;
    }

-- What Wait does under the first lock: the time to sleep, 0 if it returns at once. The duration is
-- cut to whole nanoseconds.
unfoldable pub reserve : RateLimit → ℕ → ℕ → RateLimit × Option ℕ
reserve r n now =
    let r' = refill r now in
    if leb (n * second) r'.tokens
    then (record r' { tokens = r'.tokens - n * second }, none)
    else (record r' { tokens = 0 }, some ((n * second - r'.tokens) / r.bytes_per_sec))

-- What Wait does under the second lock, after the sleep.
unfoldable pub settle : RateLimit → ℕ → ℕ → RateLimit
settle r n now =
    let r' = refill r now in
    record r' { tokens = if ltb r'.tokens (n * second) then 0 else r'.tokens - n * second }

-- Wait, run alone: the code releases the lock during the sleep, and here nobody takes it then. `now`
-- is the time of the call, and `late` by how much the sleep overran. The result is the limiter and
-- the time at which Wait returns.
abbrev pub finish : ℕ → ℕ → ℕ → RateLimit × Option ℕ → RateLimit × ℕ
finish n now late (r, none) = (r, now)
finish n now late (r, some sleep) = (settle r n (now + sleep + late), now + sleep + late)

unfoldable pub wait : RateLimit → ℕ → ℕ → ℕ → RateLimit × ℕ
wait r n now late = finish n now late (reserve r n now)
