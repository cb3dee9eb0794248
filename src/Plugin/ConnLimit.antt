-- ===== src/Plugin/ConnLimit.antt =====
-- plugin/connlimit.go. An int32 is its bit pattern, a number below 2 ^ 32.
pub mod Race
pub mod Bounds
use p2p_tun.Prelude.{Bool, false, if◌then◌else◌, ltb, not, true, ℕ, ◌%◌, ◌+◌, ◌-◌, ◌^◌}

pub record ConnLimit : Type 0 where
  pub max_conns : ℕ
  pub current : ℕ

-- `a < b` for two int32.
abbrev pub lt32 : ℕ → ℕ → Bool
lt32 a b = ltb ((a + 2 ^ 31) % 2 ^ 32) ((b + 2 ^ 31) % 2 ^ 32)

-- NewConnLimit: `int32(maxConns)` keeps the low 32 bits of the int.
unfoldable pub new_conn_limit : ℕ → ConnLimit
new_conn_limit max_conns = record { max_conns = max_conns % 2 ^ 32; current = 0 }

-- `l.maxConns <= 0`
abbrev pub is_unlimited : ConnLimit → Bool
is_unlimited l = not (lt32 0 l.max_conns)

-- OnAccept, with no other goroutine between the load and the swap.
unfoldable pub on_accept : ConnLimit → Bool × ConnLimit
on_accept l =
    if is_unlimited l
    then (true, l)
    else if lt32 l.current l.max_conns
    then (true, record l { current = (l.current + 1) % 2 ^ 32 })
    else (false, l)

-- `atomic.AddInt32(&l.current, -1)`
unfoldable pub on_close : ConnLimit → ConnLimit
on_close l = record l { current = (l.current + (2 ^ 32 - 1)) % 2 ^ 32 }
