-- ===== src/Server/Register.antt =====
-- handleRelayClient of signal-server/main.go: the registration of a client, and what is undone when
-- its connection ends. What encoding/json, net.ParseCIDR and net.Listen return are arguments.
pub mod Auth
pub mod Listeners
use p2p_tun.Plugin.Manager
use mathlib.Core.Option
use p2p_tun.Prelude.{
  Bool, Bytes, List, Option, Result, [], err, false, guard, if◌then◌else◌, ltb, none, ok, some,
  true, ℕ, ◌&&◌, ◌++◌, ◌==◌, ◌>>=◌, ◌>>◌, ◌||◌, ◌∷◌,
}
use p2p_tun.Frame.{Frame, frame_control}
use p2p_tun.Net.{NetError, Source}
use p2p_tun.Plugin.ConnLimit.{new_conn_limit}
use p2p_tun.Plugin.IpFilter.{IpFilter, IpNet, new_ip_filter}
use p2p_tun.Plugin.Manager.{Manager, can_decompress, has_compressor, ip_filter}
use p2p_tun.Plugin.RateLimit.{RateLimit, new_rate_limit}
use p2p_tun.Prelude.Assoc.{Assoc, erase, insert}
use p2p_tun.Server.{
  Client, ControlMsg, Effect, ServiceMapping, State, blank_msg, close_conn, control, emit,
  next_channel,
}
use p2p_tun.Server.Accept.{start_service}
use p2p_tun.Text.{Text, is_empty, text, text_eq}

pub record Config : Type 0 where
  pub stun_port : ℕ
  pub relay_port : ℕ
  pub public_addr : Text
  pub auth_key : Text

-- The globals of the server.
pub record Server : Type 0 where
  pub mgr : Manager
  pub rate_limiter : Option RateLimit
  pub next_cid : ℕ
  pub listeners : Assoc ℕ
  pub clients : Assoc Client

abbrev pub blank_client : Client
blank_client = record {
  services = [];
  channel_conns = [];
  udp_conns = [];
  udp_sessions = [];
  features = [];
  ip_filter = none;
  conn_limiter = none;
  rate_limiter = none;
  stopped = false;
  udp_locked = false;
}

-- Why the server ends the connection before the registration.
pub data Refusal : Type 0 where
  read_failed : NetError → Refusal
  not_control invalid_message : Refusal
  not_register : Text → Refusal
  auth_failed : Refusal

-- `serverCfg.AuthKey != "" && msg.AuthKey != serverCfg.AuthKey`, negated.
abbrev pub key_matches : Config → ControlMsg → Bool
key_matches cfg msg = is_empty cfg.auth_key || text_eq msg.auth_key cfg.auth_key

abbrev pub or_invalid : Option ControlMsg → Result Refusal ControlMsg
or_invalid none = err invalid_message
or_invalid (some msg) = ok msg

-- The checks of the first frame, in order.
unfoldable pub registration :
    Config
    → (Bytes → Option ControlMsg)
    → Result NetError (Frame × Source)
    → Result Refusal ControlMsg
registration cfg unmarshal (err e) = err (read_failed e)
registration cfg unmarshal (ok (f, rest)) = do
  guard (f.frame_type == frame_control) not_control
  msg ← or_invalid (unmarshal f.payload)
  guard (text_eq msg.msg_type (text "register")) (not_register msg.msg_type)
  guard (key_matches cfg msg) auth_failed
  ok msg

-- What the client asks for itself. Rules that do not parse are dropped with a warning.
unfoldable pub own_filter : (Text → Option IpNet) → ControlMsg → Option IpFilter
own_filter parse_cidr msg =
    if is_empty msg.ip_allow && is_empty msg.ip_deny
    then none
    else elim (new_ip_filter parse_cidr msg.ip_allow msg.ip_deny) [ err e ↦ none | ok f ↦ some f ]

unfoldable pub settings : (Text → Option IpNet) → ControlMsg → ℕ → Client
unfolding own_filter
settings parse_cidr msg now = record blank_client {
  services = msg.services;
  features = msg.features;
  ip_filter = own_filter parse_cidr msg;
  conn_limiter = if ltb 0 msg.max_conns then some (new_conn_limit msg.max_conns) else none;
  rate_limiter = if ltb 0 msg.rate_limit then new_rate_limit msg.rate_limit now else none;
}

abbrev pub started :
    ServiceMapping → Bool × Option ℕ → List ServiceMapping × List ℕ → List ServiceMapping × List ℕ
started svc (false, ln) (failed, lns) = (svc ∷ failed, lns)
started svc (true, none) (failed, lns) = (failed, lns)
started svc (true, some ln) (failed, lns) = (failed, ln ∷ lns)

abbrev pub first_answer : List (Option ℕ) → Option ℕ
first_answer [] = none
first_answer (l ∷ ls) = l

abbrev pub later_answers : List (Option ℕ) → List (Option ℕ)
later_answers [] = []
later_answers (l ∷ ls) = ls

-- The loop over the services: those that fail, and the listeners of the others.
unfoldable pub start_services :
    List ServiceMapping → List (Option ℕ) → State → (List ServiceMapping × List ℕ) × State
start_services [] listened s = (([], []), s)
start_services (svc ∷ svcs) listened s =
    let (result, s') = start_service svc (first_answer listened) s in
    let (results, s'') = start_services svcs (later_answers listened) s' in
    (started svc result results, s'')

unfoldable pub server_features : Manager → List Text
server_features m =
    if Manager.has_compressor m || Manager.can_decompress m then text "compression" ∷ [] else []

-- `for port, ll := range listeners { if ll == l { delete(listeners, port) } }`
unfoldable pub remove_listener : ℕ → Assoc ℕ → Assoc ℕ
remove_listener l [] = []
remove_listener l ((port, ll) ∷ m) =
    if ll == l then remove_listener l m else (port, ll) ∷ remove_listener l m

unfoldable pub remove_listeners : List ℕ → Assoc ℕ → Assoc ℕ
remove_listeners [] m = m
remove_listeners (l ∷ ls) m = remove_listeners ls (remove_listener l m)

-- How the registration ends: the connection is closed, or relayReadLoop starts for the client with
-- this number, which has opened these listeners.
pub data Outcome : Type 0 where
  refused : List Effect → Server → Outcome
  running : ℕ → List ℕ → State → Server → Outcome

-- The error message and the end of the connection. Only a wrong key is answered.
abbrev pub refusal_effects : ℕ → Refusal → List Effect
refusal_effects conn auth_failed =
    control (record (blank_msg (text "error")) { public_addr = text "auth failed" })
    ∷ close_conn conn
    ∷ []
refusal_effects conn (read_failed e) = close_conn conn ∷ []
refusal_effects conn not_control = close_conn conn ∷ []
refusal_effects conn invalid_message = close_conn conn ∷ []
refusal_effects conn (not_register t) = close_conn conn ∷ []

-- A new number, and an entry in the map of clients.
abbrev pub enter : Server → Server
enter v =
    let cid = next_channel v.next_cid in
    record v { next_cid = cid; clients = insert cid blank_client v.clients }

abbrev pub leave : ℕ → Server → Server
leave cid v = record v { clients = erase cid v.clients }

-- The ok message and the list of what failed; if it cannot be sent, all of it is undone.
unfoldable pub answer_ok :
    ℕ → ℕ → Text → Bool → (List ServiceMapping × List ℕ) × State → Server → Outcome
answer_ok conn cid public_addr sent ((failed, lns), s) v =
    if sent
    then running cid lns
        (emit
          (control (record (blank_msg (text "ok")) {
            public_addr = public_addr;
            failed_services = failed;
            features = server_features s.mgr;
          }))
          s)
        v
    else refused (close_conn conn ∷ [])
        (leave cid (record v { listeners = remove_listeners lns s.listeners }))

-- getPublicIP
abbrev pub get_public_ip : Config → Text → Text
get_public_ip cfg local_ip = if is_empty cfg.public_addr then local_ip else cfg.public_addr

module _ (cfg : Config) (unmarshal : Bytes → Option ControlMsg)
    (parse_cidr : Text → Option IpNet) where
  -- handleRelayClient up to relayReadLoop.
  unfoldable pub handle_relay_client :
      ℕ → Text → Result NetError (Frame × Source) → List (Option ℕ) → Bool → ℕ → Server → Outcome
  unfolding registration settings start_services answer_ok
  handle_relay_client conn local_ip first listened sent now v =
      let v' = enter v in
      let cid = next_channel v.next_cid in
      elim (registration cfg unmarshal first) [
        | err e ↦ refused (refusal_effects conn e) (leave cid v')
        | ok msg ↦
            let client = settings parse_cidr msg now in
            answer_ok conn cid (get_public_ip cfg local_ip) sent
              (start_services msg.services listened (record {
                mgr = v.mgr;
                rate_limiter = v.rate_limiter;
                next_cid = cid;
                listeners = v.listeners;
                client = client;
                effects = [];
              }))
              v'
      ]

abbrev pub close_all : Assoc ℕ → List Effect
close_all [] = []
close_all ((k, conn) ∷ m) = close_conn conn ∷ close_all m

-- After relayReadLoop: stop, close the listeners and every connection, and forget the client.
unfoldable pub end_client : ℕ → ℕ → List ℕ → State → Server → State × Server
end_client conn cid lns s v = (
  record s {
    listeners = remove_listeners lns s.listeners;
    client = record s.client { stopped = true; udp_conns = []; udp_sessions = [] };
    effects =
        s.effects
        ++ (close_all s.client.channel_conns
            ++ (close_all s.client.udp_conns ++ close_conn conn ∷ []));
  },
  leave cid (record v { listeners = remove_listeners lns s.listeners }),
)
