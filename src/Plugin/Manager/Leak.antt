-- ===== src/Plugin/Manager/Leak.antt =====
-- The server puts the limiter before the dynamic plugins in its list of filters.
use p2p_tun.Plugin.ConnLimit
use mathlib.Core.Option
use mathlib.Core.Path.{subst}
use native.Mathlib.Nat.{add-zero, zero-add}
use p2p_tun.Prelude.{
  All, Bool, Bytes, List, Option, [], ap, arith, false, length, lt→ltb, none, refl, some, true, ℕ,
  ◌+◌, ◌<◌, ◌^◌, ◌∷◌, ◌≡◌, ◌≤◌,
}
use p2p_tun.Plugin.Compression.{Compression, new_compression}
use p2p_tun.Plugin.ConnLimit.{ConnLimit, new_conn_limit}
use p2p_tun.Plugin.ConnLimit.Bounds.{Counts, new-Counts, on_accept-Counts}
use p2p_tun.Plugin.Manager.{
  Manager, Setup, apply_filter, configure, detach, dynamic, new_manager, on_accept, run_filters,
  set_conn_limiter, shared_limit, with_compression, with_ip_filter, with_limit, with_log,
  with_plugins,
}

-- Connections from these addresses that the dynamic plugins refuse.
pub refusals : List (Option Bytes) → Manager → Manager
refusals [] m = m
refusals (ip ∷ ips) m = refusals ips (on_accept m false ip).1

-- A run of attempts, each with what the dynamic plugins say of its address: the verdicts, and the
-- manager after them.
pub attempts : List (Bool × Option Bytes) → Manager → List Bool × Manager
attempts [] m = ([], m)
attempts ((answer, ip) ∷ later) m =
    let (passed, m') = on_accept m answer ip in
    let (verdicts, m'') = attempts later m' in (passed ∷ verdicts, m'')

-- The manager that main builds from a limit and dynamic plugins, with `held` slots taken.
record Leaky (m : Manager) (held max : ℕ) : Type 0 where
  limit : ConnLimit
  limiter : m.conn_limiter ≡ some limit
  filters : m.accept_filters ≡ shared_limit ∷ dynamic ∷ []
  counts : Counts limit held
  maximum : limit.max_conns ≡ max

refused_filters :
    (l : ConnLimit) (held : ℕ) (ip : Option Bytes)
    → Counts l held
    → held < l.max_conns
    → run_filters false ip (some l) (shared_limit ∷ dynamic ∷ [])
      ≡ (false, some (ConnLimit.on_accept l).1, shared_limit ∷ dynamic ∷ [])
unfolding run_filters apply_filter
refused_filters l held ip c h = ground (arith, on_accept-Counts l held c)

refused-Leaky :
    (m : Manager) (held limit : ℕ) (ip : Option Bytes)
    → Leaky m held limit
    → held < limit
    → Leaky (on_accept m false ip).1 (held + 1) limit
unfolding on_accept
refused-Leaky m held limit ip k h =
    let l = k.limit in
    let c = k.counts in
    let room : held < l.max_conns = omega arith in
    let step = refused_filters l held ip c room in
    let after = on_accept-Counts l held c in
    record {
      limit = (ConnLimit.on_accept l).1;
      limiter = rw (k.filters, k.limiter, step) refl;
      filters = rw (k.filters, k.limiter, step) refl;
      counts = ground (arith, after);
      maximum = omega arith;
    }

refusals-Leaky :
    (ips : List (Option Bytes)) (held limit : ℕ) (m : Manager)
    → Leaky m held limit
    → held + length ips ≤ limit
    → Leaky (refusals ips m) (held + length ips) limit
unfolding refusals
refusals-Leaky [] held limit m k h = rw add-zero k
refusals-Leaky (ip ∷ ips) held limit m k h =
    subst (λ x. Leaky (refusals ips (on_accept m false ip).1) x limit) (omega arith)
      (refusals-Leaky ips (held + 1) limit (on_accept m false ip).1
        (refused-Leaky m held limit ip k (omega arith)) (omega arith))

full_filters :
    (l : ConnLimit) (held : ℕ) (answer : Bool) (ip : Option Bytes)
    → Counts l held
    → held ≡ l.max_conns
    → run_filters answer ip (some l) (shared_limit ∷ dynamic ∷ [])
      ≡ (false, some (ConnLimit.on_accept l).1, shared_limit ∷ dynamic ∷ [])
unfolding run_filters apply_filter
full_filters l held answer ip c h = ground (arith, on_accept-Counts l held c)

full_refuses :
    (m : Manager) (limit : ℕ) (answer : Bool) (ip : Option Bytes)
    → Leaky m limit limit
    → ((on_accept m answer ip).0 ≡ false) × Leaky (on_accept m answer ip).1 limit limit
unfolding on_accept
full_refuses m limit answer ip k =
    let l = k.limit in
    let step = full_filters l limit answer ip k.counts (omega arith) in
    let after = on_accept-Counts l limit k.counts in
    (
      rw (k.filters, k.limiter, step) refl,
      record {
        limit = (ConnLimit.on_accept l).1;
        limiter = rw (k.filters, k.limiter, step) refl;
        filters = rw (k.filters, k.limiter, step) refl;
        counts = ground (arith, after);
        maximum = omega arith;
      },
    )

full_attempts :
    (later : List (Bool × Option Bytes)) (m : Manager) (limit : ℕ)
    → Leaky m limit limit
    → All (λ passed. passed ≡ false) (attempts later m).0 × Leaky (attempts later m).1 limit limit
unfolding attempts
full_attempts [] m limit k = (tt, k)
full_attempts ((answer, ip) ∷ later) m limit k =
    let (shut, k') = full_refuses m limit answer ip k in
    let (all, last) = full_attempts later (on_accept m answer ip).1 limit k' in ((shut, all), last)

Leaky-current :
    (m : Manager) (held limit : ℕ)
    → Leaky m held limit
    → Option.map (λ l. l.current) m.conn_limiter ≡ some held
Leaky-current m held limit k = rw k.limiter (ap some k.counts.counted)

plain_filters :
    (log compress : Bool) (c : Compression)
    → (with_compression compress c (with_log log (with_ip_filter none new_manager))).accept_filters
      ≡ []
unfolding with_compression with_log with_ip_filter
plain_filters true true c = refl
plain_filters true false c = refl
plain_filters false true c = refl
plain_filters false false c = refl

plain_limiter :
    (log compress : Bool) (c : Compression)
    → (with_compression compress c (with_log log (with_ip_filter none new_manager))).conn_limiter
      ≡ none
unfolding with_compression with_log with_ip_filter
plain_limiter true true c = refl
plain_limiter true false c = refl
plain_limiter false true c = refl
plain_limiter false false c = refl

limited-Leaky :
    (m : Manager) (limit : ℕ)
    → m.accept_filters ≡ []
    → m.conn_limiter ≡ none
    → 0 < limit
    → limit < 2 ^ 31
    → Leaky (with_plugins true (with_limit limit m)) 0 limit
unfolding with_plugins with_limit set_conn_limiter detach new_conn_limit
limited-Leaky m limit f l p q = record {
  limit = new_conn_limit limit;
  limiter = rw (lt→ltb 0 limit p) refl;
  filters = rw (lt→ltb 0 limit p, f) refl;
  counts = new-Counts limit p q;
  maximum = ground arith;
}

configure-Leaky :
    (s : Setup)
    → s.ip_filter ≡ none
    → s.plugin_dir ≡ true
    → 0 < s.max_conns
    → s.max_conns < 2 ^ 31
    → Leaky (configure s) 0 s.max_conns
unfolding configure
configure-Leaky s f d p q =
    let c = new_compression (some 128) in
    rw (f, d)
      (limited-Leaky
        (with_compression s.compress c (with_log s.log_file (with_ip_filter none new_manager)))
        s.max_conns (plain_filters s.log_file s.compress c) (plain_limiter s.log_file s.compress c)
        p q)

-- A server with a limit of connections and dynamic plugins, and no IP filter: when the plugins refuse
-- as many connections as the limit, from whatever addresses, the limiter stands at its limit although
-- there is no connection at all; and of any number of attempts that follow, every one is refused
-- whatever the plugins say of it, and the limiter still stands there after them.
pub refusals_exhaust :
    (s : Setup) (ips : List (Option Bytes)) (later : List (Bool × Option Bytes))
    → s.ip_filter ≡ none
    → s.plugin_dir ≡ true
    → 0 < s.max_conns
    → s.max_conns < 2 ^ 31
    → length ips ≡ s.max_conns
    → let full = refusals ips (configure s) in
      let (verdicts, after) = attempts later full in
      (Option.map (λ l. l.current) full.conn_limiter ≡ some s.max_conns)
      × All (λ passed. passed ≡ false) verdicts
      × (Option.map (λ l. l.current) after.conn_limiter ≡ some s.max_conns)
refusals_exhaust s ips later f d p q n =
    let k =
      rw (zero-add, n) at
        (refusals-Leaky ips 0 s.max_conns (configure s) (configure-Leaky s f d p q)
          (omega arith)) in
    let full = refusals ips (configure s) in
    let (all, last) = full_attempts later full s.max_conns k in
    (
      Leaky-current full s.max_conns s.max_conns k,
      all,
      Leaky-current (attempts later full).1 s.max_conns s.max_conns last,
    )
