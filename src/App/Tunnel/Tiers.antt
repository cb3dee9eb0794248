-- ===== src/App/Tunnel/Tiers.antt =====
-- How runTunnel of main.go goes from one tier to the next, and what it leaves standing.
use p2p_tun.Prelude.{
  All, Bool, Bool-cases, List, Option, Option-cases, Result, [], ap, err, false, if◌then◌else◌, inl,
  inr, map, none, not, ok, refl, some, true, ◌&&◌, ◌++◌, ◌∙◌, ◌∷◌, ◌≡◌,
}
use p2p_tun.App.Ports.{parse_ports, protocols}
use p2p_tun.App.Status.{
  App, PortMapping, Thread, act, adds_mapping, closes_stun, forwards, serving, set_nat_type,
  set_running, set_stopped, waiting,
}
use p2p_tun.App.Tunnel.{
  Gateway, Params, World, add_mappings, cone_all, connected, map_ports, new_client, no_mappings,
  plan, relay_tier, run_tunnel, stun_tier, with_address, with_gateway,
}
use p2p_tun.Net.{Source}
use p2p_tun.Relay.Session.{ConnectError, connect_session}
use p2p_tun.Stun.{found}
use p2p_tun.Text.{Text, text, text_eq}

add_mappings-All :
    (gw : Gateway) (ms : List PortMapping)
    → All (λ m. gw.accepts m ≡ true) ms
    → add_mappings gw ms ≡ (ms, true)
unfolding add_mappings
add_mappings-All gw [] w = refl
add_mappings-All gw (m ∷ ms) w = rw (add_mappings-All gw ms w.1, w.0) refl

add_mappings_refused :
    (gw : Gateway) (before after : List PortMapping) (m : PortMapping)
    → All (λ m. gw.accepts m ≡ true) before
    → gw.accepts m ≡ false
    → add_mappings gw (before ++ m ∷ after) ≡ (before, false)
unfolding add_mappings
add_mappings_refused gw [] after m w h = rw h refl
add_mappings_refused gw (b ∷ before) after m w h =
    rw (add_mappings_refused gw before after m w.1 h, w.0) refl

run_tunnel-map_ports :
    (w : World) (p : Params) (gw : Gateway) (ip : Text) (s : App)
    → p.upnp ≡ true
    → w.gateway ≡ some gw
    → gw.external_ip ≡ some ip
    → run_tunnel w p s ≡ map_ports w p gw ip s
unfolding run_tunnel with_gateway with_address
run_tunnel-map_ports w p gw ip s on found known =
    ap (λ (b : Bool). if b then with_gateway w.gateway w p s else stun_tier w p [] s) on
    ∙ ap (λ (g : Option Gateway). with_gateway g w p s) found
    ∙ ap (λ (a : Option Text). with_address a gw w p s) known

-- If a gateway takes every mapping of the plan, and there is one, then runTunnel maps the plan, and
-- afterwards forwards from each mapped public port to its local port, for ever; the status says that
-- it runs by UPnP, and neither STUN nor the relay is tried.
pub upnp_serves :
    (w : World) (p : Params) (gw : Gateway) (ip : Text) (s : App)
    → p.upnp ≡ true
    → w.gateway ≡ some gw
    → gw.external_ip ≡ some ip
    → All (λ m. gw.accepts m ≡ true) (plan p)
    → no_mappings (plan p) ≡ false
    → let s' = run_tunnel w p s in
      (s'.acts ≡ (s.acts ++ map adds_mapping (plan p)) ++ map forwards (plan p))
      × (s'.threads ≡ s.threads ++ serving (plan p) ∷ [])
      × (s'.status.running ≡ true)
      × (s'.status.mode ≡ text "upnp")
      × (s'.relay_client ≡ s.relay_client)
unfolding map_ports set_running
upnp_serves w p gw ip s on found known takes some_port =
    rw (run_tunnel-map_ports w p gw ip s on found known)
      (rw (add_mappings-All gw (plan p) takes, some_port) (refl, refl, refl, refl, refl))

-- Either the status says that the program runs and one more thread serves or waits, or it says that
-- the program does not run and no thread was left.
pub data IsSettled (threads : List Thread) (s : App) : Type 0 where
  runs :
      s.status.running ≡ true → (t : Thread) → s.threads ≡ threads ++ t ∷ [] → IsSettled threads s
  stands : s.status.running ≡ false → s.threads ≡ threads → IsSettled threads s

connected-IsSettled :
    (w : World) (p : Params) (made : List PortMapping) (s : App) (r : Result ConnectError Source)
    → IsSettled s.threads (connected w p made s r)
unfolding set_stopped set_running
connected-IsSettled w p made s (err e) = stands refl refl
connected-IsSettled w p made s (ok rest) = runs refl (waiting made) refl

relay_tier-IsSettled :
    (w : World) (p : Params) (made : List PortMapping) (s : App)
    → IsSettled s.threads (relay_tier w p made s)
unfolding relay_tier set_stopped
relay_tier-IsSettled w p made s = elim (Bool-cases (text_eq p.relay_server [])) [
  | inl e ↦ rw (relay_tier, e) (stands refl refl)
  | inr e ↦
      let client = connect_session w.unmarshal w.attempt (new_client p s) in
      rw (relay_tier, e)
        (connected-IsSettled w p made
          (record s {
            status = record s.status { services = (new_client p s).relay.services };
            relay_client = some client.0;
          })
          client.1)
]

stun_tier-IsSettled :
    (w : World) (p : Params) (made : List PortMapping) (s : App)
    → IsSettled s.threads (stun_tier w p made s)
unfolding stun_tier set_nat_type set_running
stun_tier-IsSettled w p made s = elim (Bool-cases (text_eq p.stun_server [])) [
  | inl e ↦ rw (stun_tier, e) (relay_tier-IsSettled w p made s)
  | inr e ↦ elim (Option-cases w.detected) [
    | inl n ↦ rw (stun_tier, e, n) (relay_tier-IsSettled w p made (set_nat_type (text "unknown") s))
    | inr (d, n) ↦ elim (Bool-cases (text_eq d.nat_type (text "full-cone"))) [
      | inl c ↦
          rw (stun_tier, e, n)
            (rw c (
              runs refl
                (serving (cone_all (protocols p.proto) d.public_port (parse_ports p.local_ports)))
                refl))
      | inr c ↦
          rw (stun_tier, e, n)
            (rw c
              (relay_tier-IsSettled w p made (act (closes_stun ∷ []) (set_nat_type d.nat_type s))))
    ]
  ]
]

map_ports-IsSettled :
    (w : World) (p : Params) (gw : Gateway) (ip : Text) (s : App)
    → IsSettled s.threads (map_ports w p gw ip s)
unfolding map_ports set_running
map_ports-IsSettled w p gw ip s =
    let (made, all_ok) = add_mappings gw (plan p) in
    elim (Bool-cases (all_ok && not (no_mappings made))) [
      | inl e ↦ rw (map_ports, e) (runs refl (serving (plan p)) refl)
      | inr e ↦ rw (map_ports, e) (stun_tier-IsSettled w p made (act (map adds_mapping made) s))
    ]

with_address-IsSettled :
    (a : Option Text) (gw : Gateway) (w : World) (p : Params) (s : App)
    → IsSettled s.threads (with_address a gw w p s)
unfolding with_address
with_address-IsSettled none gw w p s = stun_tier-IsSettled w p [] s
with_address-IsSettled (some ip) gw w p s = map_ports-IsSettled w p gw ip s

with_gateway-IsSettled :
    (g : Option Gateway) (w : World) (p : Params) (s : App)
    → IsSettled s.threads (with_gateway g w p s)
unfolding with_gateway
with_gateway-IsSettled none w p s = stun_tier-IsSettled w p [] s
with_gateway-IsSettled (some gw) w p s = with_address-IsSettled gw.external_ip gw w p s

if-IsSettled :
    (b : Bool) (threads : List Thread) (s t : App)
    → IsSettled threads s
    → IsSettled threads t
    → IsSettled threads (if b then s else t)
if-IsSettled true threads s t h k = h
if-IsSettled false threads s t h k = k

-- Whatever the network answers, when runTunnel has come to its end or waits, the status is true: it
-- says that the program runs if and only if the run left a thread behind that forwards or waits for
-- the stop channel, and then it left one.
pub run_tunnel-IsSettled :
    (w : World) (p : Params) (s : App) → IsSettled s.threads (run_tunnel w p s)
unfolding run_tunnel
run_tunnel-IsSettled w p s =
    if-IsSettled p.upnp s.threads (with_gateway w.gateway w p s) (stun_tier w p [] s)
      (with_gateway-IsSettled w.gateway w p s) (stun_tier-IsSettled w p [] s)
