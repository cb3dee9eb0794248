-- ===== src/App/Gui/Stopping.antt =====
-- What /api/start and /api/stop of main.go do to tunnels that run, fail or have not begun.
use mathlib.Core.List.{append-nil, append_assoc, reverse}
use mathlib.Core.Path.{subst}
use p2p_tun.Prelude.{
  Bool, List, Option, Result, [], ap, arith, err, false, if_false, if_true, map, none, refl, some,
  sym, true, ◌++◌, ◌∙◌, ◌∷◌, ◌≡◌,
}
use p2p_tun.App.Gui.{
  Gui, Request, Response, after_close, handle_stop, panics, run_first, run_pending, stop_client,
  stop_threads, stopped, wake,
}
use p2p_tun.App.Status.{Act, App, AppStatus, Thread, deletes_mapping, serving, set_stopped, waiting}
use p2p_tun.App.Tunnel.{
  Params, World, connected, leave_tunnel, new_client, relay_tier, run_tunnel, stun_tier,
  with_gateway,
}
use p2p_tun.Net.{Source}
use p2p_tun.Relay.Session.{
  CloseCh, ConnectError, Session, close, closed_ch, dial_failed, nil_ch, open_ch,
}
use p2p_tun.Relay.Session.Connecting.{connect_session-undialed}
use p2p_tun.Text.{text, text_eq}

abbrev pub serving_only : List Thread → List Thread
serving_only [] = []
serving_only (serving ms ∷ ts) = serving ms ∷ serving_only ts
serving_only (waiting made ∷ ts) = serving_only ts

pub wake-threads : (ts : List Thread) (s : App) → (wake ts s).threads ≡ serving_only ts ++ s.threads
unfolding wake
wake-threads [] s = refl
wake-threads (serving ms ∷ ts) s = ap (◌∷◌ (serving ms)) (wake-threads ts s)
wake-threads (waiting made ∷ ts) s = wake-threads ts (leave_tunnel made s)

wake-status : (ts : List Thread) (s : App) → (wake ts s).status ≡ s.status
unfolding wake
wake-status [] s = refl
wake-status (serving ms ∷ ts) s = wake-status ts s
wake-status (waiting made ∷ ts) s = wake-status ts (leave_tunnel made s)

wake-relay_client : (ts : List Thread) (s : App) → (wake ts s).relay_client ≡ s.relay_client
unfolding wake
wake-relay_client [] s = refl
wake-relay_client (serving ms ∷ ts) s = wake-relay_client ts s
wake-relay_client (waiting made ∷ ts) s = wake-relay_client ts (leave_tunnel made s)

-- The deletions that the waiting tunnels have deferred.
abbrev pub deferred : List Thread → List Act
deferred [] = []
deferred (serving ms ∷ ts) = deferred ts
deferred (waiting made ∷ ts) = map deletes_mapping (reverse made) ++ deferred ts

pub wake-acts : (ts : List Thread) (s : App) → (wake ts s).acts ≡ s.acts ++ deferred ts
unfolding wake
wake-acts [] s = rw append-nil refl
wake-acts (serving ms ∷ ts) s = wake-acts ts s
wake-acts (waiting made ∷ ts) s =
    wake-acts ts (leave_tunnel made s)
    ∙ append_assoc s.acts (map deletes_mapping (reverse made)) (deferred ts)

-- A client that was never dialled, or none.
abbrev pub can_close : Option Session → Bool
can_close none = true
can_close (some c) = elim c.close_ch [ nil_ch ↦ false | _ ↦ true ]

-- The end of a stop: what it leaves of the program.
pub record IsStopped (s : App) (answer : Response) (s' : App) : Type 0 where
  pub answered : answer ≡ stopped
  pub running : s'.status.running ≡ false
  pub threads : s'.threads ≡ s.threads
  pub acts : s'.acts ≡ s.acts

close-ok : (c : Session) → can_close (some c) ≡ true → (c' : Session) × (close c ≡ some c')
unfolding close
close-ok c h = go c.close_ch h (record c { close_ch = closed_ch; conn_open = false })
  where
    go :
        (ch : CloseCh)
        → elim ch as (λ x. Bool) [ nil_ch ↦ false | _ ↦ true ] ≡ true
        → (c' : Session)
        → (d : Session) × (elim ch as (λ x. Option Session) [ nil_ch ↦ none | _ ↦ some c' ]
            ≡ some d)
    go nil_ch h c' = absurd (cc h)
    go open_ch h c' = (c', refl)
    go closed_ch h c' = (c', refl)

stop_client-IsStopped :
    (o : Option Session) (g : Gui)
    → can_close o ≡ true
    → IsStopped g.app (stop_client o g).0 (stop_client o g).1.app
unfolding stop_client after_close set_stopped
stop_client-IsStopped none g h = record {
  answered = refl;
  running = refl;
  threads = refl;
  acts = refl;
}
stop_client-IsStopped (some c) g h =
    let (c', e) = close-ok c h in
    let done : IsStopped g.app (after_close (some c') g).0 (after_close (some c') g).1.app =
      record { answered = refl; running = refl; threads = refl; acts = refl } in
    subst (λ (o : Option Session). IsStopped g.app (after_close o g).0 (after_close o g).1.app)
      (sym e) done

handle_stop-eq :
    (r : Request) (g : Gui)
    → text_eq r.method (text "POST") ≡ true
    → handle_stop r g ≡ stop_client g.app.relay_client (record g { app = stop_threads g.app })
unfolding handle_stop
handle_stop-eq r g h = rw h refl

-- A stop by POST, unless the client of the relay was never dialled, answers that the tunnels are
-- stopped and makes the status say so. In truth only those tunnels end that wait for the stop
-- channel, and they delete their port mappings; every tunnel that forwards by UPnP or from a full
-- cone goes on, with its mappings.
pub handle_stop_serving :
    (r : Request) (g : Gui)
    → text_eq r.method (text "POST") ≡ true
    → can_close g.app.relay_client ≡ true
    → let (answer, g') = handle_stop r g in
      (answer ≡ stopped)
      × (g'.app.status.running ≡ false)
      × (g'.app.threads ≡ serving_only g.app.threads)
      × (g'.app.acts ≡ g.app.acts ++ deferred g.app.threads)
handle_stop_serving r g post h =
    let woken = record g { app = stop_threads g.app } in
    let k = stop_client-IsStopped g.app.relay_client woken h in
    let all = wake-threads g.app.threads (record g.app { threads = [] }) in
    rw (handle_stop-eq r g post) (
      k.answered,
      k.running,
      k.threads ∙ all ∙ append-nil (serving_only g.app.threads),
      k.acts ∙ wake-acts g.app.threads (record g.app { threads = [] }),
    )

close-nil : (c : Session) → c.close_ch ≡ nil_ch → close c ≡ none
unfolding close
close-nil c h = ground (arith, h)

-- Close of a client without a channel.
handle_stop-panics :
    (r : Request) (g : Gui) (c : Session)
    → text_eq r.method (text "POST") ≡ true
    → g.app.relay_client ≡ some c
    → c.close_ch ≡ nil_ch
    → handle_stop r g ≡ (panics, record g { app = stop_threads g.app })
unfolding stop_client after_close
handle_stop-panics r g c post h n =
    let woken : Gui = record g { app = stop_threads g.app } in
    handle_stop-eq r g post
    ∙ ap (λ (o : Option Session). stop_client o woken) h
    ∙ ap (λ (o : Option Session). after_close o woken) (close-nil c n)

abbrev new_status : Params → App → AppStatus
new_status p s = record s.status { services = (new_client p s).relay.services }

abbrev undialed_app : World → Params → App → App
undialed_app w p s =
    connected w p [] (record s { status = new_status p s; relay_client = some (new_client p s) })
      (err dial_failed)

-- A run of the tunnel where only the relay is tried, and its server cannot be dialled.
run_tunnel-undialed :
    (w : World) (p : Params) (s : App)
    → p.upnp ≡ false
    → text_eq p.stun_server [] ≡ true
    → text_eq p.relay_server [] ≡ false
    → w.attempt.dialed ≡ false
    → run_tunnel w p s ≡ undialed_app w p s
unfolding run_tunnel stun_tier relay_tier
run_tunnel-undialed w p s no_upnp no_stun relay undialed =
    if_false p.upnp (with_gateway w.gateway w p s) (stun_tier w p [] s) no_upnp
    ∙ if_true (text_eq p.stun_server []) (relay_tier w p [] s) _ no_stun
    ∙ if_false (text_eq p.relay_server []) _ _ relay
    ∙ ap
        (λ (r : Session × Result ConnectError Source).
          connected w p [] (record s { status = new_status p s; relay_client = some r.0 }) r.1)
        (connect_session-undialed w.unmarshal w.attempt (new_client p s) undialed)

run_pending-first :
    (w : World) (p : Params) (ps : List Params) (g : Gui)
    → g.pending ≡ p ∷ ps
    → run_pending w g ≡ record g { app = run_tunnel w p g.app; pending = ps }
unfolding run_pending
run_pending-first w p ps g h = ap (λ (l : List Params). run_first w l g) h

-- A tunnel that was started without UPnP and STUN, and whose relay server cannot be dialled, leaves
-- the interface in a state where /api/stop panics, and panics again when it is tried again: the
-- client stays, and the status keeps the error of the dial.
pub stop_after_failed_dial :
    (w : World) (p : Params) (ps : List Params) (r : Request) (g : Gui)
    → g.pending ≡ p ∷ ps
    → p.upnp ≡ false
    → text_eq p.stun_server [] ≡ true
    → text_eq p.relay_server [] ≡ false
    → w.attempt.dialed ≡ false
    → text_eq r.method (text "POST") ≡ true
    → let once = handle_stop r (run_pending w g) in
      let twice = handle_stop r once.1 in
      (once.0 ≡ panics)
      × (twice.0 ≡ panics)
      × (twice.1.app.status.last_error ≡ w.describe dial_failed)
      × (twice.1.app.status.running ≡ false)
unfolding set_stopped
stop_after_failed_dial w p ps r g first no_upnp no_stun relay undialed post =
    let failed : App = undialed_app w p g.app in
    let g1 : Gui = record g { app = failed; pending = ps } in
    let g2 : Gui = record g1 { app = stop_threads failed } in
    let ran : run_pending w g ≡ g1 =
      run_pending-first w p ps g first
      ∙ ap (λ (a : App). record g { app = a; pending = ps })
          (run_tunnel-undialed w p g.app no_upnp no_stun relay undialed) in
    let client : g2.app.relay_client ≡ some (new_client p g.app) =
      wake-relay_client failed.threads (record failed { threads = [] }) in
    let status1 = wake-status failed.threads (record failed { threads = [] }) in
    let status2 = wake-status g2.app.threads (record g2.app { threads = [] }) ∙ status1 in
    rw
      (
        ran,
        handle_stop-panics r g1 (new_client p g.app) post refl refl,
        handle_stop-panics r g2 (new_client p g.app) post client refl,
      )
      (
        refl,
        refl,
        ap (λ (t : AppStatus). t.last_error) status2,
        ap (λ (t : AppStatus). t.running) status2,
      )
