-- ===== src/Plugin/ConnLimit/Bounds.antt =====
-- The limiter used by one goroutine at a time.
use p2p_tun.Prelude.{arith, if◌then◌else◌, ltb, true, ℕ, ◌%◌, ◌+◌, ◌<◌, ◌^◌, ◌≡◌, ◌≤◌, ◌⊎◌}
use p2p_tun.Plugin.ConnLimit.{ConnLimit, new_conn_limit, on_accept, on_close}

-- A limiter with a positive limit that counts `held` connections.
pub record Counts (l : ConnLimit) (held : ℕ) : Type 0 where
  pub positive : 0 < l.max_conns
  pub in_range : l.max_conns < 2 ^ 31
  pub counted : l.current ≡ held
  pub within : held ≤ l.max_conns

-- A new limiter counts nothing, if its limit is a positive int32.
pub new-Counts : (n : ℕ) → 0 < n → n < 2 ^ 31 → Counts (new_conn_limit n) 0
unfolding new_conn_limit
new-Counts n p q = ground arith

-- OnAccept lets a connection in exactly when fewer than the limit are held, and then counts it;
-- OnClose takes one off.
pub on_accept-Counts :
    (l : ConnLimit) (held : ℕ)
    → Counts l held
    → ((on_accept l).0 ≡ ltb held l.max_conns)
      × Counts (on_accept l).1 (if ltb held l.max_conns then held + 1 else held)
      × ((on_accept l).1.max_conns ≡ l.max_conns)
unfolding on_accept
on_accept-Counts l held c = ground arith

pub on_close-Counts : (l : ConnLimit) (held : ℕ) → Counts l (held + 1) → Counts (on_close l) held
unfolding on_close
on_close-Counts l held c = ground arith

-- A limit whose low 32 bits are no positive int32 is no limit at all: OnAccept never refuses.
pub on_accept_truncated :
    (n : ℕ)
    → (n % 2 ^ 32 ≡ 0) ⊎ (2 ^ 31 ≤ n % 2 ^ 32)
    → on_accept (new_conn_limit n) ≡ (true, new_conn_limit n)
unfolding on_accept new_conn_limit
on_accept_truncated n h = ground arith
