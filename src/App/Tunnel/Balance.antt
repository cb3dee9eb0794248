-- ===== src/App/Tunnel/Balance.antt =====
-- What runTunnel of main.go does to the mappings on the router.
use p2p_tun.Prelude.{
  Bool, Bool-cases, List, Option, Option-cases, Result, [], err, false, if◌then◌else◌, inl, inr,
  map, none, not, ok, some, true, ℕ, ◌&&◌, ◌++◌, ◌∷◌,
}
use p2p_tun.App.Ledger.{
  Balanced, close-Balanced, count, leave-Balanced, make-Balanced, serve-Balanced, wait-Balanced,
}
use p2p_tun.App.Ports.{parse_ports, protocols}
use p2p_tun.App.Status.{
  App, PortMapping, act, adds_mapping, closes_stun, forwards, keeps_alive, set_nat_type,
  set_running, set_stopped,
}
use p2p_tun.App.Tunnel.{
  Gateway, Params, World, add_mappings, cone_all, connected, map_ports, new_client, no_mappings,
  plan, relay_tier, run_tunnel, stun_tier, with_address, with_gateway,
}
use p2p_tun.Net.{Source}
use p2p_tun.Relay.Session.{ConnectError, connect_session}
use p2p_tun.Text.{Text, text, text_eq}

-- The acts and the threads of a program are balanced.
abbrev pub IsBalanced : (PortMapping → Bool) → ℕ → App → Type 0
IsBalanced f k s = Balanced f k s.acts s.threads

if-IsBalanced :
    (f : PortMapping → Bool) (k : ℕ) (b : Bool) (s t : App)
    → IsBalanced f k s
    → IsBalanced f k t
    → IsBalanced f k (if b then s else t)
if-IsBalanced f k true s t h i = h
if-IsBalanced f k false s t h i = i

module _ (f : PortMapping → Bool) (w : World) (p : Params) where
  connected-IsBalanced :
      (made : List PortMapping) (s : App) (r : Result ConnectError Source)
      → IsBalanced f (count f made) s
      → IsBalanced f 0 (connected w p made s r)
  unfolding set_stopped set_running
  connected-IsBalanced made s (err e) h = leave-Balanced f s.acts s.threads made h
  connected-IsBalanced made s (ok rest) h = wait-Balanced f s.acts s.threads made h

  relay_tier-IsBalanced :
      (made : List PortMapping) (s : App)
      → IsBalanced f (count f made) s
      → IsBalanced f 0 (relay_tier w p made s)
  unfolding relay_tier set_stopped
  relay_tier-IsBalanced made s h = elim (Bool-cases (text_eq p.relay_server [])) [
    | inl e ↦ rw (relay_tier, e) (leave-Balanced f s.acts s.threads made h)
    | inr e ↦
        let client = connect_session w.unmarshal w.attempt (new_client p s) in
        rw (relay_tier, e)
          (connected-IsBalanced made
            (record s {
              status = record s.status { services = (new_client p s).relay.services };
              relay_client = some client.0;
            })
            client.1 h)
  ]

  stun_tier-IsBalanced :
      (made : List PortMapping) (s : App)
      → IsBalanced f (count f made) s
      → IsBalanced f 0 (stun_tier w p made s)
  unfolding stun_tier set_nat_type set_running
  stun_tier-IsBalanced made s h = elim (Bool-cases (text_eq p.stun_server [])) [
    | inl e ↦ rw (stun_tier, e) (relay_tier-IsBalanced made s h)
    | inr e ↦ elim (Option-cases w.detected) [
      | inl n ↦
          rw (stun_tier, e, n) (relay_tier-IsBalanced made (set_nat_type (text "unknown") s) h)
      | inr (d, n) ↦ elim (Bool-cases (text_eq d.nat_type (text "full-cone"))) [
        | inl c ↦
            let ms = cone_all (protocols p.proto) d.public_port (parse_ports p.local_ports) in
            rw (stun_tier, e, n)
              (rw c (
                serve-Balanced f s.acts s.threads ms 0
                  ((s.acts ++ keeps_alive ∷ []) ++ map forwards ms)))
        | inr c ↦
            rw (stun_tier, e, n)
              (rw c (
                relay_tier-IsBalanced made (act (closes_stun ∷ []) (set_nat_type d.nat_type s))
                  (close-Balanced f s.acts s.threads (count f made) h)))
      ]
    ]
  ]

  map_ports-IsBalanced :
      (gw : Gateway) (ip : Text) (s : App)
      → IsBalanced f 0 s
      → IsBalanced f 0 (map_ports w p gw ip s)
  unfolding map_ports set_running
  map_ports-IsBalanced gw ip s h =
      let (made, all_ok) = add_mappings gw (plan p) in
      elim (Bool-cases (all_ok && not (no_mappings made))) [
        | inl e ↦
            rw (map_ports, e)
              (serve-Balanced f s.acts s.threads (plan p) 0
                ((s.acts ++ map adds_mapping made) ++ map forwards (plan p)))
        | inr e ↦
            rw (map_ports, e)
              (stun_tier-IsBalanced made (act (map adds_mapping made) s)
                (make-Balanced f s.acts s.threads made h))
      ]

  with_address-IsBalanced :
      (a : Option Text) (gw : Gateway) (s : App)
      → IsBalanced f 0 s
      → IsBalanced f 0 (with_address a gw w p s)
  unfolding with_address
  with_address-IsBalanced none gw s h = stun_tier-IsBalanced [] s h
  with_address-IsBalanced (some ip) gw s h = map_ports-IsBalanced gw ip s h

  with_gateway-IsBalanced :
      (g : Option Gateway) (s : App) → IsBalanced f 0 s → IsBalanced f 0 (with_gateway g w p s)
  unfolding with_gateway
  with_gateway-IsBalanced none s h = stun_tier-IsBalanced [] s h
  with_gateway-IsBalanced (some gw) s h = with_address-IsBalanced gw.external_ip gw s h

  pub run_tunnel-IsBalanced : (s : App) → IsBalanced f 0 s → IsBalanced f 0 (run_tunnel w p s)
  unfolding run_tunnel
  run_tunnel-IsBalanced s h =
      if-IsBalanced f 0 p.upnp (with_gateway w.gateway w p s) (stun_tier w p [] s)
        (with_gateway-IsBalanced w.gateway s h) (stun_tier-IsBalanced [] s h)
