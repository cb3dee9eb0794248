-- ===== src/Logs/Tests.antt =====
-- The theorems on the buffers at concrete calls.
use p2p_tun.Prelude.{List, [], arith, false, refl, true, ◌++◌, ◌-◌, ◌^◌, ◌∷◌, ◌≡◌}
use p2p_tun.Logs.{
  Call, Logs, bytes_in, bytes_out, call, calls, entry, log_debug, log_error, max_logs,
  max_traffic_points, record_at, set_verbose_to,
}
use p2p_tun.Logs.Refine.{all_logs, all_points, calls-log_buffer, calls-traffic_history}
use p2p_tun.Logs.Window.{latest}
use p2p_tun.Text.{text}

abbrev no_logs : Logs
no_logs = record {
  verbose = false;
  log_buffer = [];
  total_bytes_in = 2 ^ 64 - 1;
  total_bytes_out = 0;
  active_chans = 0;
  traffic_history = [];
  last_bytes_in = 2 ^ 64 - 1;
  last_bytes_out = 0;
}

abbrev some_calls : List Call
some_calls =
    log_debug (text "main") (text "a")
    ∷ bytes_in 7
    ∷ set_verbose_to true
    ∷ log_debug (text "main") (text "b")
    ∷ record_at 100
    ∷ log_error (text "relay") (text "c")
    ∷ bytes_out 5
    ∷ record_at 101
    ∷ []

calls-log_buffer_example :
    (calls some_calls no_logs).log_buffer ≡ latest max_logs ([] ++ all_logs false some_calls)
calls-log_buffer_example = calls-log_buffer some_calls no_logs (omega arith)

two_entries :
    (calls some_calls no_logs).log_buffer
    ≡ entry (text "main") (text "DEBUG") (text "b")
      ∷ entry (text "relay") (text "ERROR") (text "c")
      ∷ []
unfolding calls call
two_entries = refl

calls-traffic_history_example :
    (calls some_calls no_logs).traffic_history
    ≡ latest max_traffic_points ([] ++ all_points 0 0 some_calls)
calls-traffic_history_example =
    calls-traffic_history some_calls 0 0 no_logs (omega arith, omega arith)
      (omega arith, omega arith) (omega arith)

-- The total of the bytes in wraps, the rate does not.
two_points :
    (calls some_calls no_logs).traffic_history
    ≡ record { time = 100; bytes_in_rate = 7; bytes_out_rate = 0 }
      ∷ record { time = 101; bytes_in_rate = 0; bytes_out_rate = 5 }
      ∷ []
unfolding calls call
two_points = refl
