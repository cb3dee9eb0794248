-- ===== src/App/Tunnel.antt =====
-- runTunnel of main.go: UPnP, then STUN, then the relay.
pub mod Balance
pub mod Tiers
pub mod Gateways
use mathlib.Core.List.{reverse}
use p2p_tun.Prelude.{
  Bool, Bytes, List, Option, Result, [], err, false, if◌then◌else◌, leb, map, none, not, ok, some,
  true, ℕ, ◌&&◌, ◌++◌, ◌+◌, ◌-◌, ◌∷◌,
}
use p2p_tun.App.Ports.{ext_port, parse_ports, protocols, services}
use p2p_tun.App.Ports.Printing.{itoa}
use p2p_tun.App.Status.{
  App, PortMapping, act, adds_mapping, closes_stun, deletes_mapping, forwards, keeps_alive, serving,
  set_nat_type, set_running, set_stopped, waiting,
}
use p2p_tun.Net.{Source}
use p2p_tun.Plugin.Compression.{new_compression}
use p2p_tun.Relay.Session.{Attempt, ConnectError, Session, connect_session, nil_ch}
use p2p_tun.Server.{ControlMsg}
use p2p_tun.Text.{Text, text, text_eq}
use p2p_tun.Upnp.{external_ip}

-- A gateway that answers: its external address, and what it says to AddPortMapping.
pub record Gateway : Type 0 where
  pub external_ip : Option Text
  pub accepts : PortMapping → Bool

-- What DetectNATType returns.
pub record Detected : Type 0 where
  pub nat_type : Text
  pub public_addr : Text
  pub public_port : ℕ

-- What the network answers to one run of the tunnel.
pub record World : Type 0 where
  pub gateway : Option Gateway
  pub detected : Option Detected
  pub attempt : Attempt
  pub unmarshal : Bytes → Option ControlMsg
  pub describe : ConnectError → Text
  pub now : ℕ

pub record Params : Type 0 where
  pub local_ports : Text
  pub prefer_ports : Text
  pub upnp : Bool
  pub stun_server : Text
  pub relay_server : Text
  pub proto : Text
  pub compress : Bool
  pub ip_allow : Text
  pub ip_deny : Text
  pub max_conns : ℕ
  pub rate_limit : ℕ

abbrev pub mapping : ℕ → ℕ → Text → PortMapping
mapping ext_port local_port proto = record {
  ext_port = ext_port;
  local_port = local_port;
  proto = proto;
}

-- One protocol of the loops over protocols and local ports.
unfoldable pub plan_for : Text → ℕ → List ℕ → List ℕ → List PortMapping
unfolding ext_port
plan_for proto i [] prefer_ports = []
plan_for proto i (lp ∷ ports) prefer_ports =
    mapping (ext_port prefer_ports i lp) lp proto ∷ plan_for proto (i + 1) ports prefer_ports

abbrev pub plan_all : List Text → List ℕ → List ℕ → List PortMapping
plan_all [] ports prefer_ports = []
plan_all (proto ∷ protos) ports prefer_ports =
    plan_for proto 0 ports prefer_ports ++ plan_all protos ports prefer_ports

-- What the UPnP tier maps, and then forwards, in the order of its loops.
unfoldable pub plan : Params → List PortMapping
unfolding plan_for protocols parse_ports
plan p = plan_all (protocols p.proto) (parse_ports p.local_ports) (parse_ports p.prefer_ports)

-- The mappings that are made before the first refusal, and whether there is none.
unfoldable pub add_mappings : Gateway → List PortMapping → List PortMapping × Bool
add_mappings gw [] = ([], true)
add_mappings gw (m ∷ ms) =
    let (made, all_ok) = add_mappings gw ms in
    if gw.accepts m then (m ∷ made, all_ok) else ([], false)

abbrev pub upper : Text → Text
upper [] = []
upper (c ∷ s) = (if leb b'a' c && leb c b'z' then c - 32 else c) ∷ upper s

-- `"%s:%d/%s->%d"`
abbrev pub mapped_port : Text → PortMapping → Text
mapped_port ip m =
    ip ++ b':' ∷ (itoa m.ext_port ++ b'/' ∷ (upper m.proto ++ text "->" ++ itoa m.local_port))

abbrev pub joined : Text → List PortMapping → Text
joined ip [] = []
joined ip (m ∷ []) = mapped_port ip m
joined ip (m ∷ n ∷ ms) = mapped_port ip m ++ text ", " ++ joined ip (n ∷ ms)

abbrev pub no_mappings : List PortMapping → Bool
no_mappings [] = true
no_mappings (m ∷ ms) = false

abbrev pub no_relay : Text
no_relay = text "需要提供公网中继服务器地址，使用 -relay ip:port 参数"

-- `&relay.Client{…}`
abbrev pub new_client : Params → App → Session
new_client p s = record {
  relay = record {
    auth_key = s.auth_key;
    services = services (parse_ports p.local_ports) (parse_ports p.prefer_ports) p.proto;
    compressor = if p.compress then some (new_compression (some 128)) else none;
    ip_allow = p.ip_allow;
    ip_deny = p.ip_deny;
    max_conns = p.max_conns;
    rate_limit = p.rate_limit;
    channels = [];
    udp_channels = [];
    conn_infos = [];
    total_conns = 0;
    server_supports_compression = false;
    active_chan = 0;
    bytes_in = 0;
    bytes_out = 0;
    effects = [];
  };
  conn_open = false;
  close_ch = nil_ch;
  reading = false;
}

-- A return of runTunnel runs the deferred calls of DeletePortMapping, the last one first.
abbrev pub leave_tunnel : List PortMapping → App → App
leave_tunnel made s = act (map deletes_mapping (reverse made)) s

-- What follows Connect.
abbrev pub connected : World → Params → List PortMapping → App → Result ConnectError Source → App
connected w p made s (err e) = leave_tunnel made (set_stopped (w.describe e) s)
connected w p made s (ok rest) =
    let s' = set_running (text "relay") p.relay_server w.now s in
    record s' { threads = s'.threads ++ waiting made ∷ [] }

-- The third tier, with the mappings whose deletion is deferred.
unfoldable pub relay_tier : World → Params → List PortMapping → App → App
relay_tier w p made s =
    if text_eq p.relay_server []
    then leave_tunnel made (set_stopped no_relay s)
    else let client = new_client p s in
      let (client', outcome) = connect_session w.unmarshal w.attempt client in
      connected w p made
        (record s {
          status = record s.status { services = client.relay.services };
          relay_client = some client';
        })
        outcome

-- The mappings of a full cone: the i-th port stands i above the public one.
unfoldable pub cone_for : Text → ℕ → ℕ → List ℕ → List PortMapping
cone_for proto public_port i [] = []
cone_for proto public_port i (lp ∷ ports) =
    mapping (public_port + i) lp proto ∷ cone_for proto public_port (i + 1) ports

abbrev pub cone_all : List Text → ℕ → List ℕ → List PortMapping
cone_all [] public_port ports = []
cone_all (proto ∷ protos) public_port ports =
    cone_for proto public_port 0 ports ++ cone_all protos public_port ports

-- `select {}`: the tunnel forwards for ever.
abbrev pub serve : List PortMapping → App → App
serve ms s = record s { acts = s.acts ++ map forwards ms; threads = s.threads ++ serving ms ∷ [] }

-- The second tier.
unfoldable pub stun_tier : World → Params → List PortMapping → App → App
stun_tier w p made s = if text_eq p.stun_server [] then relay_tier w p made s else elim w.detected [
  | none ↦ relay_tier w p made (set_nat_type (text "unknown") s)
  | some d ↦
      let s' = set_nat_type d.nat_type s in
      if text_eq d.nat_type (text "full-cone")
      then serve (cone_all (protocols p.proto) d.public_port (parse_ports p.local_ports))
          (act (keeps_alive ∷ []) (set_running (text "full-cone") d.public_addr w.now s'))
      else relay_tier w p made (act (closes_stun ∷ []) s')
]

-- The first tier once the gateway has told its address.
unfoldable pub map_ports : World → Params → Gateway → Text → App → App
map_ports w p gw ip s =
    let (made, all_ok) = add_mappings gw (plan p) in
    let s' = act (map adds_mapping made) s in
    if all_ok && not (no_mappings made)
    then serve (plan p) (set_running (text "upnp") (joined ip made) w.now s')
    else stun_tier w p made s'

-- What GetExternalIP and DiscoverGateway return decides whether ports are mapped.
unfoldable pub with_address : Option Text → Gateway → World → Params → App → App
with_address none gw w p s = stun_tier w p [] s
with_address (some ip) gw w p s = map_ports w p gw ip s

unfoldable pub with_gateway : Option Gateway → World → Params → App → App
with_gateway none w p s = stun_tier w p [] s
with_gateway (some gw) w p s = with_address gw.external_ip gw w p s

-- runTunnel
unfoldable pub run_tunnel : World → Params → App → App
run_tunnel w p s = if p.upnp then with_gateway w.gateway w p s else stun_tier w p [] s
