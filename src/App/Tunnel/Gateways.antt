-- ===== src/App/Tunnel/Gateways.antt =====
-- The gateways of upnp/upnp.go as runTunnel of main.go uses them.
use p2p_tun.Upnp
use p2p_tun.App.Tunnel
use p2p_tun.Prelude.{Bytes, Option, [], ap, arith, if_true, none, some, true, ◌∙◌, ◌≡◌}
use p2p_tun.App.Ports.Printing.{itoa}
use p2p_tun.App.Status.{App}
use p2p_tun.App.Tunnel.{
  Gateway, Params, World, run_tunnel, stun_tier, upper, with_address, with_gateway,
}
use p2p_tun.Text.{Text, text}
use p2p_tun.Upnp.{
  IpResult, Soap, add_port_mapping, discover_gateway, discover_nat_pmp, external_ip, failed, found,
  get_external_ip, get_external_ip_body, panics, reply_ip,
}

abbrev pub address_of : IpResult → Option Text
address_of (found ip) = some ip
address_of failed = none
address_of panics = none

-- The calls of runTunnel on a gateway, through the control URL; a GetExternalIP that panics is taken
-- as one that fails.
abbrev pub tunnel_gateway :
    Soap → (Text → Option Text) → Option Text → Upnp.Gateway → Tunnel.Gateway
tunnel_gateway soap parse_ip local_ip gw = record {
  external_ip = address_of (get_external_ip soap parse_ip gw);
  accepts = λ m.
      add_port_mapping soap local_ip gw (itoa m.ext_port) (itoa m.local_port) (upper m.proto)
        (text "p2p-tun");
}

nat_pmp-control_url :
    (show : Bytes → Text) (ip answer : Option Bytes) (gw : Upnp.Gateway)
    → discover_nat_pmp show ip answer ≡ some gw
    → gw.control_url ≡ []
unfolding discover_nat_pmp
nat_pmp-control_url show none answer gw h = cc
nat_pmp-control_url show (some ip) none gw h = cc
nat_pmp-control_url show (some ip) (some buf) gw h = ground (arith, h)

no_external_ip :
    (soap : Soap) (parse_ip : Text → Option Text) (gw : Upnp.Gateway)
    → gw.control_url ≡ []
    → ((action body : Text) → soap [] action body ≡ none)
    → get_external_ip soap parse_ip gw ≡ failed
unfolding get_external_ip
no_external_ip soap parse_ip gw h dead =
    ap
      (λ (url : Text).
        reply_ip parse_ip (soap url (text "GetExternalIPAddress") get_external_ip_body))
      h
    ∙ ap (reply_ip parse_ip) (dead (text "GetExternalIPAddress") get_external_ip_body)

-- A gateway that is found by NAT-PMP, whatever it answers to the probe, is of no use, since net/http
-- sends nothing to an empty URL: runTunnel maps no port on it and goes on to STUN and the relay as
-- if there were no gateway.
pub nat_pmp_maps_nothing :
    (soap : Soap) (parse_ip : Text → Option Text) (local_ip : Option Text) (show : Bytes → Text)
    (ip answer : Option Bytes) (gw : Upnp.Gateway) (w : World) (p : Params) (s : App)
    → ((action body : Text) → soap [] action body ≡ none)
    → discover_gateway none (discover_nat_pmp show ip answer) ≡ some gw
    → p.upnp ≡ true
    → w.gateway ≡ some (tunnel_gateway soap parse_ip local_ip gw)
    → run_tunnel w p s ≡ stun_tier w p [] s
unfolding discover_gateway run_tunnel with_gateway with_address
nat_pmp_maps_nothing soap parse_ip local_ip show ip answer gw w p s dead probed on used =
    if_true p.upnp (with_gateway w.gateway w p s) (stun_tier w p [] s) on
    ∙ ap (λ (g : Option Tunnel.Gateway). with_gateway g w p s) used
    ∙ ap
        (λ (r : IpResult).
          with_address (address_of r) (tunnel_gateway soap parse_ip local_ip gw) w p s)
        (no_external_ip soap parse_ip gw (nat_pmp-control_url show ip answer gw probed) dead)
