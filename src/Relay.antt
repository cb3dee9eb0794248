-- ===== src/Relay.antt =====
-- The client of the relay, relay/relay.go. Messages and effects are those of the server; local
-- connections are numbers, and the answers of the environment are arguments. The counters of
-- logutil/logutil.go are 64-bit words.
pub mod Inbound
pub mod Outbound
pub mod Tunnel
pub mod Channels
pub mod Listing
pub mod Session
mod Tests
use p2p_tun.Plugin.Compression
use p2p_tun.Prelude.{
  Bool, List, Option, [], if◌then◌else◌, none, some, ℕ, ◌%◌, ◌++◌, ◌+◌, ◌-◌, ◌^◌, ◌||◌, ◌∷◌,
}
use p2p_tun.Plugin.Compression.{Compression}
use p2p_tun.Prelude.Assoc.{Assoc}
use p2p_tun.Server.{ControlMsg, Effect, ServiceMapping, blank_msg, control, supports_compression}
use p2p_tun.Text.{Text, text, text_eq}

pub record ConnInfo : Type 0 where
  pub channel_id : ℕ
  pub remote_addr : ℕ
  pub local_port : ℕ
  pub proto : Text
  pub connected_at : ℕ
  pub bytes_in : ℕ
  pub bytes_out : ℕ

-- Client, with the counters of logutil that it changes.
pub record Relay : Type 0 where
  pub auth_key : Text
  pub services : List ServiceMapping
  pub compressor : Option Compression
  pub ip_allow : Text
  pub ip_deny : Text
  pub max_conns : ℕ
  pub rate_limit : ℕ
  pub channels : Assoc ℕ
  pub udp_channels : Assoc ℕ
  pub conn_infos : Assoc ConnInfo
  pub total_conns : ℕ
  pub server_supports_compression : Bool
  pub active_chan : ℕ
  pub bytes_in : ℕ
  pub bytes_out : ℕ
  pub effects : List Effect

abbrev pub send : Effect → Relay → Relay
send e c = record c { effects = c.effects ++ e ∷ [] }

abbrev pub send_if : Bool → Effect → Relay → Relay
send_if sent e c = record c { effects = if sent then c.effects ++ e ∷ [] else c.effects }

-- AddActiveChan(1) and AddActiveChan(-1)
abbrev pub one_more : ℕ → ℕ
one_more n = (n + 1) % 2 ^ 64

abbrev pub one_less : ℕ → ℕ
one_less n = (n + (2 ^ 64 - 1)) % 2 ^ 64

abbrev pub client_features : Relay → List Text
client_features c = elim c.compressor [ none ↦ [] | some p ↦ text "compression" ∷ [] ]

-- The message that Connect sends.
unfoldable pub register_msg : Relay → ControlMsg
register_msg c = record (blank_msg (text "register")) {
  services = c.services;
  auth_key = c.auth_key;
  features = client_features c;
  ip_allow = c.ip_allow;
  ip_deny = c.ip_deny;
  max_conns = c.max_conns;
  rate_limit = c.rate_limit;
}

-- Connect after the dial: new tables.
abbrev pub fresh_tables : Relay → Relay
fresh_tables c = record c { channels = []; udp_channels = []; conn_infos = [] }

-- Connect after an ok: what the server supports stays known from earlier connections, and a client
-- whose server does not compress never compresses again.
unfoldable pub negotiate : ControlMsg → Relay → Relay
negotiate resp c =
    let supports = c.server_supports_compression || supports_compression resp.features in
    record c {
      server_supports_compression = supports;
      compressor = if supports then c.compressor else none;
    }

-- Connect, from the response to the registration; `none` is its error.
unfoldable pub connect : Option ControlMsg → Relay → Option Relay
unfolding negotiate register_msg
connect none c = none
connect (some resp) c =
    if text_eq resp.msg_type (text "ok")
    then some (negotiate resp (send (control (register_msg c)) (fresh_tables c)))
    else none
