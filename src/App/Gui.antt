-- ===== src/App/Gui.antt =====
-- The web interface of main.go: authMiddleware and the handlers behind it. A request comes with what
-- encoding/json makes of its body, and a handler that panics is stopped by net/http, which keeps the
-- program running.
pub mod Access
pub mod Mappings
pub mod Starting
pub mod Stopping
use p2p_tun.Prelude.{Bool, List, Option, [], drop, if◌then◌else◌, none, some, ℕ, ◌++◌, ◌||◌, ◌∷◌}
use p2p_tun.App.Status.{App, Thread, serving, set_stopped, waiting}
use p2p_tun.App.Tunnel.{Params, World, leave_tunnel, run_tunnel}
use p2p_tun.Relay.Session.{Session, close}
use p2p_tun.Server.Register.{running}
use p2p_tun.Text.{Text, has_prefix, text, text_eq}

-- The body of /api/start; `local_ports` and so on are empty where the JSON has none.
pub record Request : Type 0 where
  pub method : Text
  pub path : Text
  pub authorization : Text
  pub cookie : Option Text
  pub login_token : Text
  pub params : Option Params

-- `status` is a refusal by http.Error with its code.
pub data Response : Type 0 where
  status : ℕ → Response
  token_reply : Text → Response
  page shown started stopped panics : Response

-- The program, the token of the interface, and the tunnels that were started and have not run yet.
pub record Gui : Type 0 where
  pub gui_token : Text
  pub app : App
  pub pending : List Params

-- The token that authMiddleware compares: the header after "Bearer ", else the cookie, else the
-- header as it is.
unfoldable pub token_of : Request → Text
unfolding has_prefix
token_of r =
    if has_prefix r.authorization (text "Bearer ")
    then drop 7 r.authorization
    else elim r.cookie [ none ↦ r.authorization | some v ↦ v ]

-- The paths that authMiddleware lets through to any caller.
abbrev pub is_open : Text → Bool
is_open path = text_eq path (text "/api/login") || text_eq path (text "/")

unfoldable pub admits : Text → Request → Bool
unfolding token_of
admits gui_token r = is_open r.path || text_eq (token_of r) gui_token

-- handleLogin
unfoldable pub handle_login : Request → Gui → Response × Gui
handle_login r g =
    if text_eq r.method (text "POST")
    then if text_eq r.login_token g.gui_token then (token_reply g.gui_token, g) else (status 403, g)
    else (status 405, g)

abbrev or_text : Text → Text → Text
or_text [] default = default
or_text (c ∷ s) default = c ∷ s

-- The defaults of handleStart.
abbrev pub with_defaults : Params → Params
with_defaults p = record p {
  local_ports = or_text p.local_ports (text "8080");
  prefer_ports = or_text p.prefer_ports (text "0");
  proto = or_text p.proto (text "tcp");
}

abbrev pub set_local_ports : Text → App → App
set_local_ports ports s = record s { status = record s.status { local_ports = ports } }

-- handleStart once the body is decoded: the test of Running, and the goroutine.
unfoldable pub start_tunnel : Params → Gui → Response × Gui
start_tunnel p g = if g.app.status.running then (status 400, g) else (
  started,
  record g { app = set_local_ports p.local_ports g.app; pending = g.pending ++ p ∷ [] },
)

-- handleStart
unfoldable pub handle_start : Request → Gui → Response × Gui
handle_start r g =
    if text_eq r.method (text "POST")
    then elim r.params [ none ↦ (status 400, g) | some p ↦ start_tunnel (with_defaults p) g ]
    else (status 405, g)

-- The goroutine of the first tunnel that waits for its turn.
abbrev pub run_first : World → List Params → Gui → Gui
run_first w [] g = g
run_first w (p ∷ ps) g = record g { app = run_tunnel w p g.app; pending = ps }

unfoldable pub run_pending : World → Gui → Gui
run_pending w g = run_first w g.pending g

-- `close(stopCh)`: the waiting tunnels return, and those that serve do not listen to it.
unfoldable pub wake : List Thread → App → App
wake [] s = s
wake (serving ms ∷ ts) s = let s' = wake ts s in record s' { threads = serving ms ∷ s'.threads }
wake (waiting made ∷ ts) s = wake ts (leave_tunnel made s)

abbrev pub stop_threads : App → App
stop_threads s = wake s.threads (record s { threads = [] })

-- handleStop after Close: a panic leaves the client where it was.
unfoldable pub after_close : Option Session → Gui → Response × Gui
after_close none g = (panics, g)
after_close (some c) g = (
  stopped,
  record g { app = set_stopped (text "stopped by user") (record g.app { relay_client = none }) },
)

-- handleStop once the tunnels are woken.
unfoldable pub stop_client : Option Session → Gui → Response × Gui
stop_client none g = (stopped, record g { app = set_stopped (text "stopped by user") g.app })
stop_client (some c) g = after_close (close c) g

-- handleStop
unfoldable pub handle_stop : Request → Gui → Response × Gui
handle_stop r g =
    if text_eq r.method (text "POST")
    then stop_client g.app.relay_client (record g { app = stop_threads g.app })
    else (status 405, g)

abbrev pub is_shown : Text → Bool
is_shown path =
    text_eq path (text "/api/status")
    || text_eq path (text "/api/logs")
    || text_eq path (text "/api/traffic")
    || text_eq path (text "/api/connections")

-- The handler of a path; the pattern "/" takes every other path.
unfoldable pub route : Request → Gui → Response × Gui
route r g =
    if text_eq r.path (text "/api/start")
    then handle_start r g
    else if text_eq r.path (text "/api/stop")
    then handle_stop r g
    else if is_shown r.path
    then (shown, g)
    else (page, g)

-- The handlers as startGUI registers them: all but the login are behind authMiddleware.
unfoldable pub serve_http : Request → Gui → Response × Gui
serve_http r g =
    if text_eq r.path (text "/api/login")
    then handle_login r g
    else if admits g.gui_token r
    then route r g
    else (status 401, g)

unfoldable pub serve_all : List Request → Gui → Gui
serve_all [] g = g
serve_all (r ∷ rs) g = serve_all rs (serve_http r g).1
