-- ===== src/App/Views.antt =====
-- The handlers of main.go that only read: handleStatus with ToJSON, and handleConnections. The times of
-- connections are in nanoseconds, that of the status in seconds.
use p2p_tun.Prelude.{
  Bool, List, Option, [], ap, if◌then◌else◌, leb, map, none, refl, some, ℕ, ◌%◌, ◌*◌, ◌++◌, ◌-◌,
  ◌/◌, ◌^◌, ◌||◌, ◌∙◌, ◌∷◌, ◌≡◌,
}
use p2p_tun.App.Ports.Printing.{itoa}
use p2p_tun.App.Status.{App, uptime_seconds}
use p2p_tun.Logs.{Logs}
use p2p_tun.Plugin.Compression.{Lz4}
use p2p_tun.Prelude.Assoc.{has}
use p2p_tun.Relay.{ConnInfo, Relay, connect}
use p2p_tun.Relay.Listing.{Life, get_connections}
use p2p_tun.Relay.Listing.Shown.{get_connections_open}
use p2p_tun.Relay.Session.{Session}
use p2p_tun.Server.{ControlMsg, ServiceMapping}
use p2p_tun.Text.{Text}

abbrev pub nanos : ℕ
nanos = 10 ^ 9

-- The object of /api/status; the uptime is in seconds.
pub record StatusView : Type 0 where
  pub running : Bool
  pub mode : Text
  pub public_addr : Text
  pub local_ports : Text
  pub nat_type : Text
  pub uptime_seconds : ℕ
  pub bytes_in : ℕ
  pub bytes_out : ℕ
  pub active_channels : ℕ
  pub last_error : Text
  pub services : List ServiceMapping
  pub total_conns : ℕ

abbrev conns_of : Option Session → ℕ
conns_of none = 0
conns_of (some c) = c.relay.total_conns

-- handleStatus: the counters of logutil take the place of those of the status.
unfoldable pub handle_status : ℕ → Logs → App → StatusView
unfolding uptime_seconds
handle_status now logs s = record {
  running = s.status.running;
  mode = s.status.mode;
  public_addr = s.status.public_addr;
  local_ports = s.status.local_ports;
  nat_type = s.status.nat_type;
  uptime_seconds = uptime_seconds now s.status;
  bytes_in = logs.total_bytes_in;
  bytes_out = logs.total_bytes_out;
  active_channels = logs.active_chans;
  last_error = s.status.last_error;
  services = s.status.services;
  total_conns = conns_of s.relay_client;
}

-- A row of /api/connections; the time of the connection is not formatted.
pub record ConnOutput : Type 0 where
  pub channel_id : ℕ
  pub remote_addr : ℕ
  pub local_port : ℕ
  pub proto : Text
  pub connected_at : ℕ
  pub duration : Text
  pub bytes_in : ℕ
  pub bytes_out : ℕ

-- The text of a duration: the later tests of the code overwrite what the earlier ones chose.
unfoldable pub duration_text : ℕ → Text
unfolding itoa
duration_text dur =
    let seconds = dur / nanos in
    let minutes = dur / (60 * nanos) in
    let hours = dur / (3600 * nanos) in
    if leb (3600 * nanos) dur
    then itoa hours ++ b'h' ∷ (itoa (minutes % 60) ++ b'm' ∷ [])
    else if leb (60 * nanos) dur
    then itoa minutes ++ b'm' ∷ (itoa (seconds % 60) ++ b's' ∷ [])
    else itoa seconds ++ b's' ∷ []

unfoldable pub conn_output : ℕ → ConnInfo → ConnOutput
unfolding duration_text
conn_output now c = record {
  channel_id = c.channel_id;
  remote_addr = c.remote_addr;
  local_port = c.local_port;
  proto = c.proto;
  connected_at = c.connected_at;
  duration = duration_text (now - c.connected_at);
  bytes_in = c.bytes_in;
  bytes_out = c.bytes_out;
}

-- handleConnections
unfoldable pub handle_connections : ℕ → App → List ConnOutput
unfolding get_connections
handle_connections now s = elim s.relay_client [
  | none ↦ []
  | some c ↦ map (conn_output now) (get_connections c.relay)
]

map-ids :
    (now : ℕ) (infos : List ConnInfo)
    → map (λ (o : ConnOutput). o.channel_id) (map (conn_output now) infos)
      ≡ map (λ (i : ConnInfo). i.channel_id) infos
unfolding conn_output
map-ids now [] = refl
map-ids now (i ∷ infos) = ap (λ ids. i.channel_id ∷ ids) (map-ids now infos)

-- Over the life of a connection the interface shows the channels of the table of connections, each
-- once, and those are the channels that are open.
handle_connections_open :
    (lz4 : Lz4) (is_udp : ℕ → Bool) (resp : Option ControlMsg) (c d : Relay) (now : ℕ) (s : App)
    (client : Session)
    → connect resp c ≡ some d
    → s.relay_client ≡ some client
    → Life lz4 is_udp d client.relay
    → (map (λ (o : ConnOutput). o.channel_id) (handle_connections now s)
        ≡ map (λ p. p.0) client.relay.conn_infos)
      × ((k : ℕ)
          → has k client.relay.conn_infos
            ≡ (has k client.relay.channels || has k client.relay.udp_channels))
unfolding handle_connections
handle_connections_open lz4 is_udp resp c d now s client f kept life =
    let (ids, keys, opens) = get_connections_open lz4 is_udp resp c d client.relay f life in
    (rw kept (map-ids now (get_connections client.relay) ∙ ids), opens)
