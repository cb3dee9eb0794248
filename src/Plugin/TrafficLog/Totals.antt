-- ===== src/Plugin/TrafficLog/Totals.antt =====
-- The sizes that the log reports for a connection.
use native.Mathlib.Nat.{zero-add}
use p2p_tun.Prelude.{
  Bool, List, Option-cases, [], arith, if◌then◌else◌, inl, inr, not, refl, some, ℕ, ◌%◌, ◌&&◌, ◌++◌,
  ◌+◌, ◌-◌, ◌<◌, ◌==◌, ◌^◌, ◌∙◌, ◌∷◌, ◌≡◌,
}
use p2p_tun.Plugin.TrafficLog.{
  ConnInfo, TrafficLog, closed, count, on_close, on_data, on_open, opened,
}
use p2p_tun.Prelude.Assoc.{lookup, lookup-insert}
use p2p_tun.Text.{Text, text, text_eq}

-- A call of OnData: the channel, the direction and the size.
pub record Data : Type 0 where
  pub channel : ℕ
  pub dir : Text
  pub size : ℕ

pub run_data : TrafficLog → List Data → TrafficLog
run_data t [] = t
run_data t (d ∷ ds) = run_data (on_data t d.channel d.dir d.size) ds

abbrev pub is_rx : Data → Bool
is_rx d = text_eq d.dir (text "rx")

-- The bytes of one channel in one direction.
abbrev pub total : (Data → Bool) → ℕ → List Data → ℕ
total counts ch [] = 0
total counts ch (d ∷ ds) = (if d.channel == ch && counts d then d.size else 0) + total counts ch ds

abbrev pub is_tx : Data → Bool
is_tx d = not (is_rx d)

abbrev pub after_data : ℕ → ConnInfo → List Data → ConnInfo
after_data ch info ds = record info {
  bytes_rx = (info.bytes_rx + total is_rx ch ds) % 2 ^ 64;
  bytes_tx = (info.bytes_tx + total is_tx ch ds) % 2 ^ 64;
}

on_data-lookup :
    (t : TrafficLog) (d : Data) (ch : ℕ) (info : ConnInfo)
    → lookup ch t.conns ≡ some info
    → lookup ch (on_data t d.channel d.dir d.size).conns
      ≡ some (if d.channel == ch then count d.dir d.size info else info)
unfolding on_data
on_data-lookup t d ch info h = elim (Option-cases (lookup d.channel t.conns)) [
  | inl e ↦ ground arith
  | inr (i, e) ↦ ground (arith, lookup-insert d.channel ch (count d.dir d.size i) t.conns)
]

run_data-lookup :
    (ds : List Data) (t : TrafficLog) (ch : ℕ) (info : ConnInfo)
    → info.bytes_rx < 2 ^ 64
    → info.bytes_tx < 2 ^ 64
    → lookup ch t.conns ≡ some info
    → lookup ch (run_data t ds).conns ≡ some (after_data ch info ds)
unfolding run_data
run_data-lookup [] t ch info r x h = ground arith
run_data-lookup (d ∷ ds) t ch info r x h =
    let info' : ConnInfo = if d.channel == ch then count d.dir d.size info else info in
    ground (
      arith,
      on_data-lookup t d ch info h,
      run_data-lookup ds (on_data t d.channel d.dir d.size) ch info',
    )

run_data-file : (ds : List Data) (t : TrafficLog) → (run_data t ds).file ≡ t.file
unfolding run_data on_data
run_data-file [] t = refl
run_data-file (d ∷ ds) t = ground (arith, run_data-file ds (on_data t d.channel d.dir d.size))

abbrev pub session_info : Text → ℕ → ℕ → ℕ → List Data → ℕ → ConnInfo
session_info proto remote local_port now ds ch = record {
  proto = proto;
  remote_addr = remote;
  local_port = local_port;
  open_time = now;
  bytes_rx = total is_rx ch ds % 2 ^ 64;
  bytes_tx = total is_tx ch ds % 2 ^ 64;
}

on_close-file :
    (t : TrafficLog) (ch later : ℕ) (info : ConnInfo)
    → lookup ch t.conns ≡ some info
    → (on_close t ch later).file ≡ t.file ++ closed ch info (later - info.open_time) ∷ []
unfolding on_close
on_close-file t ch later info h = rw (on_close, h) refl

-- From the opening of a channel to its closing, whatever other data is counted in between, the log
-- gets one line for each end, and the second reports the sums of the channel's own sizes in each
-- direction, modulo 2 ^ 64.
pub on_open-on_close :
    (t : TrafficLog) (proto : Text) (remote ch local_port now later : ℕ) (ds : List Data)
    → (on_close (run_data (on_open t proto remote ch local_port now) ds) ch later).file
      ≡ (t.file ++ opened proto remote local_port ch ∷ [])
        ++ closed ch (session_info proto remote local_port now ds ch) (later - now) ∷ []
unfolding on_open
on_open-on_close t proto remote ch local_port now later ds =
    let start = on_open t proto remote ch local_port now in
    let fresh = session_info proto remote local_port now [] ch in
    let there =
      run_data-lookup ds start ch fresh (omega arith) (omega arith)
        (ground (arith, lookup-insert ch ch fresh t.conns)) in
    on_close-file (run_data start ds) ch later _ there
    ∙ rw (run_data-file ds start, zero-add, zero-add) refl
