-- ===== src/Plugin/Tests.antt =====
-- The theorems on the plugins at concrete plugins.
use p2p_tun.Plugin.TrafficLog
use mathlib.Core.Option
use p2p_tun.Prelude.{
  All, Bool, Bytes, List, Option, [], arith, false, if◌then◌else◌, none, refl, some, true, ◌%◌,
  ◌&&◌, ◌++◌, ◌+◌, ◌-◌, ◌==◌, ◌^◌, ◌∷◌, ◌≡◌, ◌≤◌,
}
use p2p_tun.Plugin.Compression.{Lz4}
use p2p_tun.Plugin.ConnLimit.{ConnLimit, new_conn_limit}
use p2p_tun.Plugin.ConnLimit.Bounds.{Counts}
use p2p_tun.Plugin.ConnLimit.Race.{
  Reach, World, here, load, loaded, move, next, outside, start, start-held, swap,
}
use p2p_tun.Plugin.IpFilter.{IpFilter, IpNet}
use p2p_tun.Plugin.Manager.{Setup, configure}
use p2p_tun.Plugin.Manager.Leak.{attempts, refusals, refusals_exhaust}
use p2p_tun.Plugin.RateLimit.{RateLimit, refill, reserve, settle}
use p2p_tun.Plugin.RateLimit.Interleaved.{Part, asks, run_parts, wakes}
use p2p_tun.Plugin.TrafficLog.{TrafficLog, closed, new_traffic_log, opened}
use p2p_tun.Plugin.TrafficLog.Totals.{Data, on_open-on_close, run_data, session_info}
use p2p_tun.Text.{Text, text}

abbrev one_of_two : ConnLimit
one_of_two = record { max_conns = 2; current = 1 }

one_of_two-Counts : Counts one_of_two 1
one_of_two-Counts = record {
  positive = omega arith;
  in_range = omega arith;
  counted = refl;
  within = omega arith;
}

-- Two goroutines load the counter 0, and the first of them takes the only slot.
abbrev loaded_once : World
loaded_once = record (start 1) { pcs = move (start 1).pcs 0 (loaded 0) }

abbrev taken : World
taken = record loaded_once {
  limit = record loaded_once.limit { current = (0 + 1) % 2 ^ 32 };
  pcs = move loaded_once.pcs 0 outside;
  held = loaded_once.held + 1;
}

start_run : Reach (start 1) taken
unfolding start new_conn_limit
start_run = next (next here (load 0 refl)) (swap 0 0 refl refl refl)

start-held_example : (taken.held ≤ 1) × (taken.limit.current ≡ taken.held)
start-held_example = start-held 1 (omega arith) (omega arith) start_run

abbrev ten_net : IpNet
ten_net = record { number = 10 ∷ 0 ∷ 0 ∷ 0 ∷ []; mask = 255 ∷ 0 ∷ 0 ∷ 0 ∷ [] }

abbrev ten_only : IpFilter
ten_only = record { allow_nets = ten_net ∷ []; deny_nets = [] }

-- A parser that reads every text as 10.0.0.0/8.
abbrev parse_ten : Text → Option IpNet
parse_ten cidr = some ten_net

abbrev bucket : RateLimit
bucket = record {
  bytes_per_sec = 1000;
  tokens = 1000000000000;
  max_tokens = 1000000000000;
  last_refill = 0;
}

-- Two calls that sleep at the same time, and a small one in between.
abbrev both_sleep : List Part
both_sleep =
    asks 0 1900 ∷ asks 1 1000 ∷ asks 100000000 50 ∷ wakes 800000000 1900 ∷ wakes 100000000 1000 ∷ []

-- They sleep for 0.9 and for 1 second, together.
both_sleep_times : (run_parts bucket 0 both_sleep).2 ≡ 1899999999
unfolding run_parts reserve settle refill
both_sleep_times = refl

-- A library that packs two leading zeros into one, and nothing else.
pack_zeros : Bytes → Option Bytes
pack_zeros (x ∷ y ∷ b) = if x == 0 && y == 0 then some (0 ∷ b) else none
pack_zeros _ = none

unpack_zeros : Bytes → Option Bytes
unpack_zeros [] = none
unpack_zeros (x ∷ b) = if x == 0 then some (0 ∷ 0 ∷ b) else none

unpack-pack_zeros : (b c : Bytes) → pack_zeros b ≡ some c → unpack_zeros c ≡ some b
unfolding pack_zeros unpack_zeros
unpack-pack_zeros [] c e = ground (arith, e)
unpack-pack_zeros (x ∷ []) c e = ground (arith, e)
unpack-pack_zeros (x ∷ y ∷ b) [] e = ground (arith, e)
unpack-pack_zeros (x ∷ y ∷ b) (z ∷ c) e = ground (arith, e)

abbrev zeros_lz4 : Lz4
zeros_lz4 = record { pack = pack_zeros; unpack = unpack_zeros; unpack-pack = unpack-pack_zeros }

abbrev limited_setup : Setup
limited_setup = record {
  ip_filter = none;
  log_file = false;
  compress = true;
  max_conns = 2;
  plugin_dir = true;
}

abbrev two_more : List (Bool × Option Bytes)
two_more = (true, none) ∷ (true, some (10 ∷ 0 ∷ 0 ∷ 9 ∷ [])) ∷ []

refusals_exhaust_example :
    let full = refusals (none ∷ none ∷ []) (configure limited_setup) in
    let (verdicts, after) = attempts two_more full in
    (Option.map (λ l. l.current) full.conn_limiter ≡ some 2)
    × All (λ passed. passed ≡ false) verdicts
    × (Option.map (λ l. l.current) after.conn_limiter ≡ some 2)
refusals_exhaust_example =
    refusals_exhaust limited_setup (none ∷ none ∷ []) two_more refl refl (omega arith) (omega arith)
      refl

abbrev piece : Data
piece = record { channel = 3; dir = text "rx"; size = 5 }

on_open-on_close_example :
    (TrafficLog.on_close
      (run_data (TrafficLog.on_open new_traffic_log (text "tcp") 9 3 80 100) (piece ∷ piece ∷ []))
      3
      107).file
    ≡ (new_traffic_log.file ++ opened (text "tcp") 9 80 3 ∷ [])
      ++ closed 3 (session_info (text "tcp") 9 80 100 (piece ∷ piece ∷ []) 3) (107 - 100) ∷ []
on_open-on_close_example =
    on_open-on_close new_traffic_log (text "tcp") 9 3 80 100 107 (piece ∷ piece ∷ [])
