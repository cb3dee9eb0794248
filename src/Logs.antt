-- ===== src/Logs.antt =====
-- The buffers and counters of logutil/logutil.go. A log line is a text that is already formatted;
-- the counters are 64-bit words.
pub mod Window
pub mod Refine
mod Tests
use p2p_tun.Prelude.{
  Bool, List, [], drop, if◌then◌else◌, length, ltb, ℕ, ◌%◌, ◌++◌, ◌+◌, ◌-◌, ◌^◌, ◌∷◌,
}
use p2p_tun.Text.{Text, text}

pub record LogEntry : Type 0 where
  pub module_name : Text
  pub level : Text
  pub message : Text

pub record TrafficPoint : Type 0 where
  pub time : ℕ
  pub bytes_in_rate : ℕ
  pub bytes_out_rate : ℕ

-- The variables of the package.
pub record Logs : Type 0 where
  pub verbose : Bool
  pub log_buffer : List LogEntry
  pub total_bytes_in : ℕ
  pub total_bytes_out : ℕ
  pub active_chans : ℕ
  pub traffic_history : List TrafficPoint
  pub last_bytes_in : ℕ
  pub last_bytes_out : ℕ

abbrev pub max_logs : ℕ
max_logs = 200

abbrev pub max_traffic_points : ℕ
max_traffic_points = 60

-- A buffer after an append: `buf[len(buf)-limit:]` where it has become longer than the limit.
unfoldable pub cut_to {ℓ} : {A : Type ℓ} → ℕ → List A → List A
cut_to limit buf = if ltb limit (length buf) then drop (length buf - limit) buf else buf

abbrev pub add_word : ℕ → ℕ → ℕ
add_word a b = (a + b) % 2 ^ 64

abbrev pub sub_word : ℕ → ℕ → ℕ
sub_word a b = (a + 2 ^ 64 - b) % 2 ^ 64

-- AddBytesIn, AddBytesOut, AddActiveChan
unfoldable pub add_bytes_in : ℕ → Logs → Logs
add_bytes_in n s = record s { total_bytes_in = add_word s.total_bytes_in n }

unfoldable pub add_bytes_out : ℕ → Logs → Logs
add_bytes_out n s = record s { total_bytes_out = add_word s.total_bytes_out n }

unfoldable pub add_active_chan : ℕ → Logs → Logs
add_active_chan delta s = record s { active_chans = add_word s.active_chans delta }

abbrev pub point_of : ℕ → Logs → TrafficPoint
point_of now s = record {
  time = now;
  bytes_in_rate = sub_word s.total_bytes_in s.last_bytes_in;
  bytes_out_rate = sub_word s.total_bytes_out s.last_bytes_out;
}

-- RecordTraffic
unfoldable pub record_traffic : ℕ → Logs → Logs
unfolding cut_to
record_traffic now s = record s {
  last_bytes_in = s.total_bytes_in;
  last_bytes_out = s.total_bytes_out;
  traffic_history = cut_to max_traffic_points (s.traffic_history ++ point_of now s ∷ []);
}

-- SetVerbose
unfoldable pub set_verbose : Bool → Logs → Logs
set_verbose v s = record s { verbose = v }

abbrev pub entry : Text → Text → Text → LogEntry
entry module_name level message = record {
  module_name = module_name;
  level = level;
  message = message;
}

-- addLog
unfoldable pub add_log : Text → Text → Text → Logs → Logs
unfolding cut_to
add_log module_name level message s = record s {
  log_buffer = cut_to max_logs (s.log_buffer ++ entry module_name level message ∷ []);
}

-- Debug, Info, Warn and Error
unfoldable pub debug : Text → Text → Logs → Logs
unfolding add_log
debug module_name message s = if s.verbose then add_log module_name (text "DEBUG") message s else s

unfoldable pub info : Text → Text → Logs → Logs
unfolding add_log
info module_name message s = add_log module_name (text "INFO") message s

unfoldable pub warn : Text → Text → Logs → Logs
unfolding add_log
warn module_name message s = add_log module_name (text "WARN") message s

unfoldable pub error : Text → Text → Logs → Logs
unfolding add_log
error module_name message s = add_log module_name (text "ERROR") message s

-- The calls of the package that change its variables.
pub data Call : Type 0 where
  bytes_in bytes_out active_chan record_at : ℕ → Call
  set_verbose_to : Bool → Call
  log_debug log_info log_warn log_error : Text → Text → Call

unfoldable pub call : Call → Logs → Logs
unfolding add_bytes_in add_bytes_out add_active_chan record_traffic set_verbose debug info warn
    error
call (bytes_in n) s = add_bytes_in n s
call (bytes_out n) s = add_bytes_out n s
call (active_chan n) s = add_active_chan n s
call (record_at now) s = record_traffic now s
call (set_verbose_to v) s = set_verbose v s
call (log_debug m t) s = debug m t s
call (log_info m t) s = info m t s
call (log_warn m t) s = warn m t s
call (log_error m t) s = error m t s

unfoldable pub calls : List Call → Logs → Logs
calls [] s = s
calls (c ∷ cs) s = calls cs (call c s)
