-- ===== src/Plugin/TrafficLog.antt =====
-- plugin/trafficlog.go: the table of open connections behind the log. Times are arguments, and a
-- line of the file is the event that it reports.
pub mod Totals
use p2p_tun.Prelude.{List, [], if◌then◌else◌, none, some, ℕ, ◌%◌, ◌++◌, ◌+◌, ◌-◌, ◌^◌, ◌∷◌}
use p2p_tun.Prelude.Assoc.{Assoc, erase, insert, lookup}
use p2p_tun.Text.{Text, text, text_eq}

pub record ConnInfo : Type 0 where
  pub proto : Text
  pub remote_addr : ℕ
  pub local_port : ℕ
  pub open_time : ℕ
  pub bytes_rx : ℕ
  pub bytes_tx : ℕ

-- A line of the log; the sizes are the numbers before formatBytes.
pub data Line : Type 0 where
  opened : Text → ℕ → ℕ → ℕ → Line
  closed : ℕ → ConnInfo → ℕ → Line

pub record TrafficLog : Type 0 where
  pub file : List Line
  pub conns : Assoc ConnInfo

abbrev pub new_traffic_log : TrafficLog
new_traffic_log = record { file = []; conns = [] }

-- OnOpen: an entry for the channel, and a line.
unfoldable pub on_open : TrafficLog → Text → ℕ → ℕ → ℕ → ℕ → TrafficLog
on_open t proto remote_addr channel_id local_port now = record t {
  file = t.file ++ opened proto remote_addr local_port channel_id ∷ [];
  conns =
      insert channel_id
        (record {
          proto = proto;
          remote_addr = remote_addr;
          local_port = local_port;
          open_time = now;
          bytes_rx = 0;
          bytes_tx = 0;
        })
        t.conns;
}

-- OnClose: a line and no entry any more, if there was one.
unfoldable pub on_close : TrafficLog → ℕ → ℕ → TrafficLog
on_close t channel_id now = elim (lookup channel_id t.conns) [
  | none ↦ t
  | some info ↦ record t {
    file = t.file ++ closed channel_id info (now - info.open_time) ∷ [];
    conns = erase channel_id t.conns;
  }
]

-- `if dir == "rx"`: anything else counts as sent. An int64 wraps, as a bit pattern.
abbrev pub count : Text → ℕ → ConnInfo → ConnInfo
count dir n info =
    if text_eq dir (text "rx")
    then record info { bytes_rx = (info.bytes_rx + n) % 2 ^ 64 }
    else record info { bytes_tx = (info.bytes_tx + n) % 2 ^ 64 }

unfoldable pub on_data : TrafficLog → ℕ → Text → ℕ → TrafficLog
on_data t channel_id dir n = elim (lookup channel_id t.conns) [
  | none ↦ t
  | some info ↦ record t { conns = insert channel_id (count dir n info) t.conns }
]
