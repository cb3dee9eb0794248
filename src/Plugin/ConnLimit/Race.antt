-- ===== src/Plugin/ConnLimit/Race.antt =====
-- OnAccept as many goroutines run it at once: the load, the test and the swap are steps of their own.
use p2p_tun.Prelude.{
  arith, false, if◌then◌else◌, refl, true, ℕ, ◌%◌, ◌+◌, ◌-◌, ◌<◌, ◌==◌, ◌^◌, ◌∙◌, ◌≡◌, ◌≢◌, ◌≤◌,
}
use p2p_tun.Plugin.ConnLimit.{ConnLimit, lt32, new_conn_limit, on_close}
use p2p_tun.Plugin.ConnLimit.Bounds.{Counts, new-Counts}

-- Where a goroutine stands in OnAccept: outside, or behind the load with the value that it read.
pub data Pc : Type 0 where
  outside : Pc
  loaded : ℕ → Pc

-- The shared limiter, the goroutines, and how many connections were let in and not closed.
pub record World : Type 0 where
  pub limit : ConnLimit
  pub pcs : ℕ → Pc
  pub held : ℕ

abbrev pub move : (ℕ → Pc) → ℕ → Pc → ℕ → Pc
move pcs t pc u = if u == t then pc else pcs u

pub data Step (w : World) : World → Type 0 where
  load :
      (t : ℕ)
      → w.pcs t ≡ outside
      → Step w (record w { pcs = move w.pcs t (loaded w.limit.current) })
  refuse :
      (t cur : ℕ)
      → w.pcs t ≡ loaded cur
      → lt32 cur w.limit.max_conns ≡ false
      → Step w (record w { pcs = move w.pcs t outside })
  swap :
      (t cur : ℕ)
      → w.pcs t ≡ loaded cur
      → lt32 cur w.limit.max_conns ≡ true
      → w.limit.current ≡ cur
      → Step w (record w {
        limit = record w.limit { current = (cur + 1) % 2 ^ 32 };
        pcs = move w.pcs t outside;
        held = w.held + 1;
      })
  retry :
      (t cur : ℕ)
      → w.pcs t ≡ loaded cur
      → lt32 cur w.limit.max_conns ≡ true
      → w.limit.current ≢ cur
      → Step w (record w { pcs = move w.pcs t outside })
  close : 0 < w.held → Step w (record w { limit = on_close w.limit; held = w.held - 1 })

pub data Reach (w : World) : World → Type 0 where
  here : Reach w w
  next : {u v : World} → Reach w u → Step u v → Reach w v

unfoldable pub start : ℕ → World
start n = record { limit = new_conn_limit n; pcs = λ t. outside; held = 0 }

Step-Counts :
    {w v : World}
    → Step w v
    → Counts w.limit w.held
    → Counts v.limit v.held × (v.limit.max_conns ≡ w.limit.max_conns)
unfolding on_close
Step-Counts (load t p) c = (c, refl)
Step-Counts (refuse t cur p f) c = (c, refl)
Step-Counts {w} (swap t cur p f e) c = ground arith
Step-Counts (retry t cur p f e) c = (c, refl)
Step-Counts {w} (close h) c = ground arith

Reach-Counts :
    {w v : World}
    → Reach w v
    → Counts w.limit w.held
    → Counts v.limit v.held × (v.limit.max_conns ≡ w.limit.max_conns)
Reach-Counts here c = (c, refl)
Reach-Counts (next r s) c =
    let (d, e) = Reach-Counts r c in let (f, g) = Step-Counts s d in (f, g ∙ e)

-- However the goroutines interleave, the connections that are held never exceed the limit, and the
-- counter is their number.
pub start-held :
    (n : ℕ) {w : World}
    → 0 < n
    → n < 2 ^ 31
    → Reach (start n) w
    → (w.held ≤ n) × (w.limit.current ≡ w.held)
unfolding start new_conn_limit
start-held n {w} p q r = let (c, e) = Reach-Counts r (new-Counts n p q) in ground arith
