-- ===== src/App/Gui/Mappings.antt =====
-- The port mappings that the program of main.go makes on the router, over its whole life.
use mathlib.Core.List.{append-nil, reverse}
use p2p_tun.Prelude.{
  Bool, List, Option, [], arith, false, if◌then◌else◌, inl, inr, map, none, refl, some, true, ◌++◌,
  ◌+◌, ◌∙◌, ◌∷◌, ◌≡◌, ◌⊎◌,
}
use p2p_tun.App.Gui.{
  Gui, Request, Response, admits, after_close, close, handle_login, handle_start, handle_stop,
  is_shown, page, route, run_first, run_pending, serve_http, shown, start_tunnel, status,
  stop_client, stop_threads, token_reply, with_defaults,
}
use p2p_tun.App.Gui.Stopping.{deferred, serving_only, wake-acts, wake-threads}
use p2p_tun.App.Ledger.{
  Balanced, added, added-append, added-deletes, count-reverse, deleted, deleted-append,
  deleted-deletes, held, serves,
}
use p2p_tun.App.Status.{
  Act, App, PortMapping, Thread, deletes_mapping, serving, set_stopped, waiting,
}
use p2p_tun.App.Tunnel.{Params, World}
use p2p_tun.App.Tunnel.Balance.{IsBalanced, run_tunnel-IsBalanced}
use p2p_tun.Relay.Session.{Session}
use p2p_tun.Text.{Text, text, text_eq}

-- What happens to the program: a request to the interface, or the turn of a tunnel that was started.
pub data Event : Type 0 where
  asks : Request → Event
  runs_tunnel : World → Event

abbrev pub on_event : Event → Gui → Gui
on_event (asks r) g = (serve_http r g).1
on_event (runs_tunnel w) g = run_pending w g

abbrev pub on_events : List Event → Gui → Gui
on_events [] g = g
on_events (e ∷ es) g = on_events es (on_event e g)

-- The program before the first request.
abbrev pub new_gui : Text → Text → Gui
new_gui gui_token auth_key = record {
  gui_token = gui_token;
  app = record {
    status = record {
      running = false;
      mode = [];
      public_addr = [];
      local_ports = [];
      nat_type = [];
      started_at = none;
      last_error = [];
      services = [];
    };
    relay_client = none;
    auth_key = auth_key;
    acts = [];
    threads = [];
  };
  pending = [];
}

module _ (f : PortMapping → Bool) where
  deleted-deferred : (ts : List Thread) → deleted f (deferred ts) ≡ held f ts
  deleted-deferred [] = refl
  deleted-deferred (serving ms ∷ ts) = deleted-deferred ts
  deleted-deferred (waiting made ∷ ts) =
      let gone = map deletes_mapping (reverse made) in
      omega (
        arith,
        deleted-append f gone (deferred ts),
        deleted-deletes f (reverse made),
        count-reverse f made,
        deleted-deferred ts,
      )

  added-deferred : (ts : List Thread) → added f (deferred ts) ≡ 0
  added-deferred [] = refl
  added-deferred (serving ms ∷ ts) = added-deferred ts
  added-deferred (waiting made ∷ ts) =
      let gone = map deletes_mapping (reverse made) in
      omega (
        arith,
        added-append f gone (deferred ts),
        added-deletes f (reverse made),
        added-deferred ts,
      )

  held-serving_only : (ts : List Thread) → held f (serving_only ts) ≡ 0
  held-serving_only [] = refl
  held-serving_only (serving ms ∷ ts) = held-serving_only ts
  held-serving_only (waiting made ∷ ts) = held-serving_only ts

  serves-serving_only : (ts : List Thread) → serves (serving_only ts) ≡ serves ts
  serves-serving_only [] = refl
  serves-serving_only (serving ms ∷ ts) = refl
  serves-serving_only (waiting made ∷ ts) = serves-serving_only ts

  woken-Balanced :
      (acts : List Act) (ts : List Thread)
      → Balanced f 0 acts ts
      → Balanced f 0 (acts ++ deferred ts) (serving_only ts)
  woken-Balanced acts ts (inl e) = inl (serves-serving_only ts ∙ e)
  woken-Balanced acts ts (inr e) = inr (
      omega (
        arith,
        e,
        added-append f acts (deferred ts),
        deleted-append f acts (deferred ts),
        deleted-deferred ts,
        added-deferred ts,
        held-serving_only ts,
      ))

  stop_threads-IsBalanced : (s : App) → IsBalanced f 0 s → IsBalanced f 0 (stop_threads s)
  stop_threads-IsBalanced s h =
      let idle = record s { threads = [] } in
      let threads : (stop_threads s).threads ≡ serving_only s.threads =
        wake-threads s.threads idle ∙ append-nil (serving_only s.threads) in
      let acts : (stop_threads s).acts ≡ s.acts ++ deferred s.threads = wake-acts s.threads idle in
      rw (threads, acts) (woken-Balanced s.acts s.threads h)

  after_close-IsBalanced :
      (o : Option Session) (g : Gui) → IsBalanced f 0 g.app → IsBalanced f 0 (after_close o g).1.app
  unfolding after_close set_stopped
  after_close-IsBalanced none g h = h
  after_close-IsBalanced (some c) g h = h

  stop_client-IsBalanced :
      (o : Option Session) (g : Gui) → IsBalanced f 0 g.app → IsBalanced f 0 (stop_client o g).1.app
  unfolding stop_client set_stopped
  stop_client-IsBalanced none g h = h
  stop_client-IsBalanced (some c) g h = after_close-IsBalanced (close c) g h

  pick-IsBalanced :
      (b : Bool) (x y : Response × Gui)
      → IsBalanced f 0 x.1.app
      → IsBalanced f 0 y.1.app
      → IsBalanced f 0 (if b then x else y).1.app
  pick-IsBalanced true x y h i = h
  pick-IsBalanced false x y h i = i

  start_tunnel-IsBalanced :
      (p : Params) (g : Gui) → IsBalanced f 0 g.app → IsBalanced f 0 (start_tunnel p g).1.app
  unfolding start_tunnel
  start_tunnel-IsBalanced p g h = pick-IsBalanced g.app.status.running (status 400, g) _ h h

  handle_start-IsBalanced :
      (r : Request) (g : Gui) → IsBalanced f 0 g.app → IsBalanced f 0 (handle_start r g).1.app
  unfolding handle_start
  handle_start-IsBalanced r g h =
      pick-IsBalanced (text_eq r.method (text "POST")) _ (status 405, g) (with_body r.params) h
    where
      with_body :
          (o : Option Params)
          → IsBalanced f 0
              (elim o as (λ x. Response × Gui) [
                | none ↦ (status 400, g)
                | some p ↦ start_tunnel (with_defaults p) g
              ]).1.app
      with_body none = h
      with_body (some p) = start_tunnel-IsBalanced (with_defaults p) g h

  handle_stop-IsBalanced :
      (r : Request) (g : Gui) → IsBalanced f 0 g.app → IsBalanced f 0 (handle_stop r g).1.app
  unfolding handle_stop
  handle_stop-IsBalanced r g h =
      pick-IsBalanced (text_eq r.method (text "POST")) _ (status 405, g)
        (stop_client-IsBalanced g.app.relay_client (record g { app = stop_threads g.app })
          (stop_threads-IsBalanced g.app h))
        h

  route-IsBalanced :
      (r : Request) (g : Gui) → IsBalanced f 0 g.app → IsBalanced f 0 (route r g).1.app
  unfolding route
  route-IsBalanced r g h =
      pick-IsBalanced (text_eq r.path (text "/api/start")) (handle_start r g) _
        (handle_start-IsBalanced r g h)
        (pick-IsBalanced (text_eq r.path (text "/api/stop")) (handle_stop r g) _
          (handle_stop-IsBalanced r g h)
          (pick-IsBalanced (is_shown r.path) (shown, g) (page, g) h h))

  handle_login-IsBalanced :
      (r : Request) (g : Gui) → IsBalanced f 0 g.app → IsBalanced f 0 (handle_login r g).1.app
  unfolding handle_login
  handle_login-IsBalanced r g h =
      pick-IsBalanced (text_eq r.method (text "POST")) _ (status 405, g)
        (pick-IsBalanced (text_eq r.login_token g.gui_token) (token_reply g.gui_token, g)
          (status 403, g) h h)
        h

  serve_http-IsBalanced :
      (r : Request) (g : Gui) → IsBalanced f 0 g.app → IsBalanced f 0 (serve_http r g).1.app
  unfolding serve_http
  serve_http-IsBalanced r g h =
      pick-IsBalanced (text_eq r.path (text "/api/login")) (handle_login r g) _
        (handle_login-IsBalanced r g h)
        (pick-IsBalanced (admits g.gui_token r) (route r g) (status 401, g) (route-IsBalanced r g h)
          h)

  run_first-IsBalanced :
      (w : World) (ps : List Params) (g : Gui)
      → IsBalanced f 0 g.app
      → IsBalanced f 0 (run_first w ps g).app
  run_first-IsBalanced w [] g h = h
  run_first-IsBalanced w (p ∷ ps) g h = run_tunnel-IsBalanced f w p g.app h

  on_events-IsBalanced :
      (es : List Event) (g : Gui) → IsBalanced f 0 g.app → IsBalanced f 0 (on_events es g).app
  unfolding run_pending
  on_events-IsBalanced [] g h = h
  on_events-IsBalanced (asks r ∷ es) g h =
      on_events-IsBalanced es (serve_http r g).1 (serve_http-IsBalanced r g h)
  on_events-IsBalanced (runs_tunnel w ∷ es) g h =
      on_events-IsBalanced es (run_pending w g) (run_first-IsBalanced w g.pending g h)

-- The program that its web interface drives, and that nothing ends from outside, whatever the users
-- ask and the network answers, and in whatever order the tunnels run: unless some tunnel forwards for
-- ever, each mapping that was made on the router was deleted as often as it was made, less the tunnels
-- that still wait for a stop, which will delete it. This says nothing of the program run without the
-- web interface, which a signal ends.
pub mappings_balance :
    (f : PortMapping → Bool) (es : List Event) (gui_token auth_key : Text)
    → let s = (on_events es (new_gui gui_token auth_key)).app in
      (serves s.threads ≡ true) ⊎ (added f s.acts ≡ deleted f s.acts + held f s.threads)
mappings_balance f es gui_token auth_key =
    let s = (on_events es (new_gui gui_token auth_key)).app in
    elim (on_events-IsBalanced f es (new_gui gui_token auth_key) (inr (omega arith))) [
      | inl e ↦ inl e
      | inr e ↦ inr (omega (arith, e))
    ]
