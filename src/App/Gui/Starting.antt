-- ===== src/App/Gui/Starting.antt =====
-- What /api/start of main.go does while an earlier start is under way.
use mathlib.Core.List.{append_assoc}
use p2p_tun.Prelude.{
  Option, [], ap, false, if_false, if_true, none, refl, some, true, ◌++◌, ◌∙◌, ◌∷◌, ◌≡◌,
}
use p2p_tun.App.Gui.{
  Gui, Request, Response, handle_start, set_local_ports, start_tunnel, started, status,
  with_defaults,
}
use p2p_tun.App.Tunnel.{Params}
use p2p_tun.Plugin.RateLimit.{second}
use p2p_tun.Text.{text, text_eq}

handle_start-idle :
    (r : Request) (g : Gui) (p : Params)
    → text_eq r.method (text "POST") ≡ true
    → r.params ≡ some p
    → g.app.status.running ≡ false
    → handle_start r g ≡ (
      started,
      record g {
        app = set_local_ports (with_defaults p).local_ports g.app;
        pending = g.pending ++ with_defaults p ∷ [];
      },
    )
unfolding handle_start start_tunnel
handle_start-idle r g p post body idle =
    if_true (text_eq r.method (text "POST")) _ (status 405, g) post
    ∙ ap
        (λ (o : Option Params). elim o as (λ x. Response × Gui) [
          | none ↦ (status 400, g)
          | some p ↦ start_tunnel (with_defaults p) g
        ])
        body
    ∙ if_false g.app.status.running (status 400, g) _ idle

-- Two starts by POST, the second one before the tunnel of the first has run, are both
-- accepted: two tunnels are under way at once, although the program refuses a start while one runs.
pub starts_race :
    (r q : Request) (g : Gui) (p p' : Params)
    → text_eq r.method (text "POST") ≡ true
    → text_eq q.method (text "POST") ≡ true
    → r.params ≡ some p
    → q.params ≡ some p'
    → g.app.status.running ≡ false
    → let (first, g') = handle_start r g in
      let (second, g'') = handle_start q g' in
      (first ≡ started)
      × (second ≡ started)
      × (g''.pending ≡ g.pending ++ with_defaults p ∷ with_defaults p' ∷ [])
starts_race r q g p p' post post' body body' idle =
    let g' : Gui = record g {
      app = set_local_ports (with_defaults p).local_ports g.app;
      pending = g.pending ++ with_defaults p ∷ [];
    } in
    rw (handle_start-idle r g p post body idle, handle_start-idle q g' p' post' body' idle)
      (refl, refl, append_assoc g.pending (with_defaults p ∷ []) (with_defaults p' ∷ []))
