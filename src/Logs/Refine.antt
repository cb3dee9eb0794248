-- ===== src/Logs/Refine.antt =====
-- The buffers of logutil/logutil.go against the whole history of the calls.
use mathlib.Core.List.{append-nil, append_assoc}
use p2p_tun.Prelude.{
  Bool, Bool-cases, List, [], ap, arith, if◌then◌else◌, inl, inr, length, length-drop, refl, sym, ℕ,
  ◌%◌, ◌++◌, ◌+◌, ◌-◌, ◌<◌, ◌^◌, ◌∙◌, ◌∷◌, ◌≡◌, ◌≤◌,
}
use p2p_tun.Logs.{
  Call, LogEntry, Logs, TrafficPoint, active_chan, add_active_chan, add_bytes_in, add_bytes_out,
  add_log, add_word, bytes_in, bytes_out, call, calls, debug, entry, error, info, log_debug,
  log_error, log_info, log_warn, max_logs, max_traffic_points, point_of, record_at, record_traffic,
  set_verbose, set_verbose_to, sub_word, warn,
}
use p2p_tun.Logs.Window.{cut_to-latest, latest, latest-append}
use p2p_tun.Plugin.TrafficLog.Totals.{total}
use p2p_tun.Text.{Text, text}

-- The entry that a call adds to the log.
abbrev logged : Bool → Call → List LogEntry
logged v (log_debug m t) = if v then entry m (text "DEBUG") t ∷ [] else []
logged v (log_info m t) = entry m (text "INFO") t ∷ []
logged v (log_warn m t) = entry m (text "WARN") t ∷ []
logged v (log_error m t) = entry m (text "ERROR") t ∷ []
logged v _ = []

abbrev verbose_after : Bool → Call → Bool
verbose_after v (set_verbose_to w) = w
verbose_after v _ = v

-- Everything that is ever logged: debug lines only while the program is verbose.
abbrev pub all_logs : Bool → List Call → List LogEntry
all_logs v [] = []
all_logs v (c ∷ cs) = logged v c ++ all_logs (verbose_after v c) cs

-- Every point that is ever recorded, from the bytes since the last one.
abbrev pub all_points : ℕ → ℕ → List Call → List TrafficPoint
all_points i o [] = []
all_points i o (bytes_in n ∷ cs) = all_points (i + n) o cs
all_points i o (bytes_out n ∷ cs) = all_points i (o + n) cs
all_points i o (record_at now ∷ cs) =
    record { time = now; bytes_in_rate = i % 2 ^ 64; bytes_out_rate = o % 2 ^ 64 }
    ∷ all_points 0 0 cs
all_points i o (c ∷ cs) = all_points i o cs

add_log-latest :
    (m l t : Text) (s : Logs)
    → (add_log m l t s).log_buffer ≡ latest max_logs (s.log_buffer ++ entry m l t ∷ [])
unfolding add_log
add_log-latest m l t s = cut_to-latest max_logs (s.log_buffer ++ entry m l t ∷ [])

length-latest {ℓ} : {A : Type ℓ} (n : ℕ) (xs : List A) → length (latest n xs) ≤ n
length-latest n xs = omega (arith, length-drop (length xs - n) xs)

latest-short {ℓ} : {A : Type ℓ} (n : ℕ) (xs : List A) → length xs ≤ n → latest n (xs ++ []) ≡ xs
latest-short n xs h = let z : length xs - n ≡ 0 = omega arith in rw (append-nil, z) refl

call-verbose : (c : Call) (s : Logs) → (call c s).verbose ≡ verbose_after s.verbose c
unfolding call add_bytes_in add_bytes_out add_active_chan record_traffic set_verbose debug info warn
    error add_log
call-verbose (bytes_in n) s = refl
call-verbose (bytes_out n) s = refl
call-verbose (active_chan n) s = refl
call-verbose (record_at now) s = refl
call-verbose (set_verbose_to v) s = refl
call-verbose (log_debug m t) s = ground arith
call-verbose (log_info m t) s = refl
call-verbose (log_warn m t) s = refl
call-verbose (log_error m t) s = refl

call-log_buffer :
    (c : Call) (s : Logs)
    → length s.log_buffer ≤ max_logs
    → (call c s).log_buffer ≡ latest max_logs (s.log_buffer ++ logged s.verbose c)
unfolding call add_bytes_in add_bytes_out add_active_chan record_traffic set_verbose debug info warn
    error
call-log_buffer (bytes_in n) s h = sym (latest-short max_logs s.log_buffer h)
call-log_buffer (bytes_out n) s h = sym (latest-short max_logs s.log_buffer h)
call-log_buffer (active_chan n) s h = sym (latest-short max_logs s.log_buffer h)
call-log_buffer (record_at now) s h = sym (latest-short max_logs s.log_buffer h)
call-log_buffer (set_verbose_to v) s h = sym (latest-short max_logs s.log_buffer h)
call-log_buffer (log_debug m t) s h = elim (Bool-cases s.verbose) [
  | inl e ↦ rw e (add_log-latest m (text "DEBUG") t s)
  | inr e ↦ rw e (sym (latest-short max_logs s.log_buffer h))
]
call-log_buffer (log_info m t) s h = add_log-latest m (text "INFO") t s
call-log_buffer (log_warn m t) s h = add_log-latest m (text "WARN") t s
call-log_buffer (log_error m t) s h = add_log-latest m (text "ERROR") t s

-- After any calls the log buffer holds the last 200 of all the entries there ever were, in order:
-- those that it held before (at most 200), then one for each call of Info, Warn and Error and for
-- each call of Debug that was made while the program was verbose.
pub calls-log_buffer :
    (cs : List Call) (s : Logs)
    → length s.log_buffer ≤ max_logs
    → (calls cs s).log_buffer ≡ latest max_logs (s.log_buffer ++ all_logs s.verbose cs)
unfolding calls
calls-log_buffer [] s h = sym (latest-short max_logs s.log_buffer h)
calls-log_buffer (c ∷ cs) s h =
    let now = s.log_buffer ++ logged s.verbose c in
    let later = all_logs (verbose_after s.verbose c) cs in
    let e : (call c s).log_buffer ≡ latest max_logs now = call-log_buffer c s h in
    calls-log_buffer cs (call c s) (rw e (length-latest max_logs now))
    ∙ rw (e, call-verbose c s) (latest-append max_logs now later)
    ∙ ap (latest max_logs) (append_assoc s.log_buffer (logged s.verbose c) later)

-- What was counted since the last point was recorded.
abbrev Since : ℕ → ℕ → ℕ → Type 0
Since last n total = (last < 2 ^ 64) × (total ≡ (last + n) % 2 ^ 64)

Since-add : (last n total k : ℕ) → Since last n total → Since last (n + k) (add_word total k)
Since-add last n total k h = (h.0, omega (arith, h.1))

Since-rate : (last n total : ℕ) → Since last n total → sub_word total last ≡ n % 2 ^ 64
Since-rate last n total h = omega (arith, h.0, h.1)

Since-start : (last n total : ℕ) → Since last n total → Since total 0 total
Since-start last n total h = (omega (arith, h.1), omega (arith, h.1))

record_traffic-latest :
    (now i o : ℕ) (s : Logs)
    → Since s.last_bytes_in i s.total_bytes_in
    → Since s.last_bytes_out o s.total_bytes_out
    → (record_traffic now s).traffic_history
      ≡ latest max_traffic_points (
          s.traffic_history
          ++ record { time = now; bytes_in_rate = i % 2 ^ 64; bytes_out_rate = o % 2 ^ 64 } ∷ [])
unfolding record_traffic
record_traffic-latest now i o s hi ho =
    rw
      (
        ← Since-rate s.last_bytes_in i s.total_bytes_in hi,
        ← Since-rate s.last_bytes_out o s.total_bytes_out ho,
      )
      (cut_to-latest max_traffic_points (s.traffic_history ++ point_of now s ∷ []))

record_traffic-Since_in :
    (now i : ℕ) (s : Logs)
    → Since s.last_bytes_in i s.total_bytes_in
    → Since (record_traffic now s).last_bytes_in 0 (record_traffic now s).total_bytes_in
unfolding record_traffic
record_traffic-Since_in now i s h = Since-start s.last_bytes_in i s.total_bytes_in h

record_traffic-Since_out :
    (now o : ℕ) (s : Logs)
    → Since s.last_bytes_out o s.total_bytes_out
    → Since (record_traffic now s).last_bytes_out 0 (record_traffic now s).total_bytes_out
unfolding record_traffic
record_traffic-Since_out now o s h = Since-start s.last_bytes_out o s.total_bytes_out h

debug-traffic : (m t : Text) (s : Logs) → (debug m t s).traffic_history ≡ s.traffic_history
unfolding debug add_log
debug-traffic m t s = ground arith

debug-totals :
    (m t : Text) (s : Logs)
    → ((debug m t s).total_bytes_in ≡ s.total_bytes_in)
      × ((debug m t s).total_bytes_out ≡ s.total_bytes_out)
      × ((debug m t s).last_bytes_in ≡ s.last_bytes_in)
      × ((debug m t s).last_bytes_out ≡ s.last_bytes_out)
unfolding debug add_log
debug-totals m t s = (ground arith, ground arith, ground arith, ground arith)

-- After any calls the traffic history holds the last 60 of all the points there ever were, in
-- order: those that it held before (at most 60), then one for each call of RecordTraffic with the
-- bytes that were added since the call before it (for the first one: since the point that the state
-- remembers), as 64-bit words. It makes no difference that the totals are words that wrap.
pub calls-traffic_history :
    (cs : List Call) (i o : ℕ) (s : Logs)
    → (s.last_bytes_in < 2 ^ 64) × (s.total_bytes_in ≡ (s.last_bytes_in + i) % 2 ^ 64)
    → (s.last_bytes_out < 2 ^ 64) × (s.total_bytes_out ≡ (s.last_bytes_out + o) % 2 ^ 64)
    → length s.traffic_history ≤ max_traffic_points
    → (calls cs s).traffic_history
      ≡ latest max_traffic_points (s.traffic_history ++ all_points i o cs)
unfolding calls call add_bytes_in add_bytes_out add_active_chan set_verbose info warn error add_log
calls-traffic_history [] i o s hi ho h = sym (latest-short max_traffic_points s.traffic_history h)
calls-traffic_history (bytes_in n ∷ cs) i o s hi ho h =
    calls-traffic_history cs (i + n) o (add_bytes_in n s)
      (Since-add s.last_bytes_in i s.total_bytes_in n hi) ho h
calls-traffic_history (bytes_out n ∷ cs) i o s hi ho h =
    calls-traffic_history cs i (o + n) (add_bytes_out n s) hi
      (Since-add s.last_bytes_out o s.total_bytes_out n ho) h
calls-traffic_history (active_chan n ∷ cs) i o s hi ho h =
    calls-traffic_history cs i o (add_active_chan n s) hi ho h
calls-traffic_history (record_at now ∷ cs) i o s hi ho h =
    let point : TrafficPoint = record {
      time = now;
      bytes_in_rate = i % 2 ^ 64;
      bytes_out_rate = o % 2 ^ 64;
    } in
    let e = record_traffic-latest now i o s hi ho in
    calls-traffic_history cs 0 0 (record_traffic now s) (record_traffic-Since_in now i s hi)
      (record_traffic-Since_out now o s ho)
      (rw e (length-latest max_traffic_points (s.traffic_history ++ point ∷ [])))
    ∙ rw e (latest-append max_traffic_points (s.traffic_history ++ point ∷ []) (all_points 0 0 cs))
    ∙ ap (latest max_traffic_points)
        (append_assoc s.traffic_history (point ∷ []) (all_points 0 0 cs))
calls-traffic_history (set_verbose_to v ∷ cs) i o s hi ho h =
    calls-traffic_history cs i o (set_verbose v s) hi ho h
calls-traffic_history (log_debug m t ∷ cs) i o s hi ho h =
    let d = debug-totals m t s in
    calls-traffic_history cs i o (debug m t s) (rw (d.2, d.0) hi) (rw (d.3, d.1) ho)
      (rw (debug-traffic m t s) h)
    ∙ rw (debug-traffic m t s) refl
calls-traffic_history (log_info m t ∷ cs) i o s hi ho h =
    calls-traffic_history cs i o (info m t s) hi ho h
calls-traffic_history (log_warn m t ∷ cs) i o s hi ho h =
    calls-traffic_history cs i o (warn m t s) hi ho h
calls-traffic_history (log_error m t ∷ cs) i o s hi ho h =
    calls-traffic_history cs i o (error m t s) hi ho h
