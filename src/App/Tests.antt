-- ===== src/App/Tests.antt =====
-- The theorems on the tunnel and the web interface at concrete states.
use p2p_tun.Upnp
use p2p_tun.Prelude.{
  All, List, [], bytes_eq, false, none, refl, some, true, ◌++◌, ◌+◌, ◌==◌, ◌∷◌, ◌≡◌, ◌⊎◌,
}
use p2p_tun.App.Gui.{
  Gui, Request, Response, admits, handle_stop, panics, route, run_pending, serve_all, serve_http,
  shown, stopped, token_of,
}
use p2p_tun.App.Gui.Access.{answers, reveals, strangers_do_nothing}
use p2p_tun.App.Gui.Mappings.{Event, asks, mappings_balance, new_gui, on_events, runs_tunnel}
use p2p_tun.App.Gui.Stopping.{deferred, handle_stop_serving, serving_only, stop_after_failed_dial}
use p2p_tun.App.Ledger.{added, deleted, held, serves}
use p2p_tun.App.Status.{App, serving, waiting}
use p2p_tun.App.Tunnel.{Gateway, Params, World, mapping, run_tunnel}
use p2p_tun.App.Tunnel.Gateways.{tunnel_gateway}
use p2p_tun.App.Tunnel.Tiers.{IsSettled, run_tunnel-IsSettled}
use p2p_tun.Net.{eof}
use p2p_tun.Text.{Text, text, text_eq}
use p2p_tun.Upnp.{Soap}

abbrev blank_app : App
blank_app = record {
  status = record {
    running = false;
    mode = [];
    public_addr = [];
    local_ports = [];
    nat_type = [];
    started_at = none;
    last_error = [];
    services = [];
  };
  relay_client = none;
  auth_key = [];
  acts = [];
  threads = [];
}

abbrev some_params : Params
some_params = record {
  local_ports = text "8080,22";
  prefer_ports = text "80";
  upnp = true;
  stun_server = [];
  relay_server = text "vps:9000";
  proto = text "tcp";
  compress = false;
  ip_allow = [];
  ip_deny = [];
  max_conns = 0;
  rate_limit = 0;
}

abbrev willing : Gateway
willing = record { external_ip = some (text "1.2.3.4"); accepts = λ m. true }

abbrev lonely : World
lonely = record {
  gateway = some willing;
  detected = none;
  attempt = record { dialed = false; sent = false; answer = record { bytes = []; fin = eof } };
  unmarshal = λ b. none;
  describe = λ e. text "dial failed";
  now = 1000;
}

run_tunnel-IsSettled_example : IsSettled blank_app.threads (run_tunnel lonely some_params blank_app)
run_tunnel-IsSettled_example = run_tunnel-IsSettled lonely some_params blank_app

abbrev some_gui : Gui
some_gui = record { gui_token = text "secret"; app = blank_app; pending = [] }

abbrev request : Text → Text → Request
request path authorization = record {
  method = text "POST";
  path = path;
  authorization = authorization;
  cookie = none;
  login_token = [];
  params = some some_params;
}

abbrev strangers : List Request
strangers =
    request (text "/api/stop") (text "Bearer guess")
    ∷ request (text "/") []
    ∷ request (text "/api/login") []
    ∷ []

strangers_do_nothing_example :
    (serve_all strangers some_gui ≡ some_gui)
    × All (λ a. reveals a ≡ false) (answers strangers some_gui)
unfolding token_of text_eq bytes_eq
strangers_do_nothing_example = strangers_do_nothing strangers some_gui (refl, (refl, (refl, tt)))

-- The token opens the interface also where the word Bearer is missing.
bare_token : (serve_http (request (text "/api/logs") (text "secret")) some_gui).0 ≡ shown
unfolding serve_http admits token_of route text_eq bytes_eq
bare_token = refl

abbrev busy_gui : Gui
busy_gui = record some_gui {
  app = record blank_app {
    threads =
        serving (mapping 80 8080 (text "tcp") ∷ [])
        ∷ waiting (mapping 22 22 (text "udp") ∷ [])
        ∷ [];
  };
}

abbrev stop_it : Request
stop_it = request (text "/api/stop") (text "Bearer secret")

handle_stop_serving_example :
    ((handle_stop stop_it busy_gui).0 ≡ stopped)
    × ((handle_stop stop_it busy_gui).1.app.status.running ≡ false)
    × ((handle_stop stop_it busy_gui).1.app.threads ≡ serving_only busy_gui.app.threads)
    × ((handle_stop stop_it busy_gui).1.app.acts
        ≡ busy_gui.app.acts ++ deferred busy_gui.app.threads)
unfolding text_eq bytes_eq
handle_stop_serving_example = handle_stop_serving stop_it busy_gui refl refl

abbrev by_relay : Params
by_relay = record some_params { upnp = false }

abbrev started_gui : Gui
started_gui = record some_gui { pending = by_relay ∷ [] }

abbrev once_stopped : Response × Gui
once_stopped = handle_stop stop_it (run_pending lonely started_gui)

stop_after_failed_dial_example :
    (once_stopped.0 ≡ panics)
    × ((handle_stop stop_it once_stopped.1).0 ≡ panics)
    × ((handle_stop stop_it once_stopped.1).1.app.status.last_error ≡ text "dial failed")
    × ((handle_stop stop_it once_stopped.1).1.app.status.running ≡ false)
unfolding text_eq bytes_eq
stop_after_failed_dial_example =
    stop_after_failed_dial lonely by_relay [] stop_it started_gui refl refl refl refl refl refl

abbrev start_it : Request
start_it = request (text "/api/start") (text "Bearer secret")

abbrev dead_soap : Soap
dead_soap url action body = none

abbrev probed : Upnp.Gateway
probed = record { control_url = []; service_url = text "10.0.3.1" }

abbrev by_nat_pmp : World
by_nat_pmp = record lonely {
  gateway = some (tunnel_gateway dead_soap (λ s. some s) (some (text "10.0.3.77")) probed);
}

-- A gateway that takes one mapping only, a relay server that cannot be dialled, and a stop.
abbrev grudging : World
grudging = record lonely { gateway = some (record willing { accepts = λ m. m.ext_port == 80 }) }

abbrev one_life : List Event
one_life =
    asks (request (text "/api/start") (text "Bearer secret"))
    ∷ runs_tunnel grudging
    ∷ asks stop_it
    ∷ []

mappings_balance_example :
    let s = (on_events one_life (new_gui (text "secret") [])).app in
    (serves s.threads ≡ true)
    ⊎ (added (λ m. m.local_port == 8080) s.acts
        ≡ deleted (λ m. m.local_port == 8080) s.acts + held (λ m. m.local_port == 8080) s.threads)
mappings_balance_example = mappings_balance (λ m. m.local_port == 8080) one_life (text "secret") []
