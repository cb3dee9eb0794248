-- ===== src/Upnp.antt =====
-- The UPnP client of upnp/upnp.go. Texts are in ASCII; the sockets, net/http, encoding/xml and
-- net.ParseIP are arguments.
pub mod Tags
mod Tests
use p2p_tun.Prelude.{
  Bool, Bytes, List, Option, [], drop, false, get_or, if◌then◌else◌, leb, length, ltb, none, not,
  some, take, true, ℕ, ◌&&◌, ◌++◌, ◌+◌, ◌-◌, ◌==◌, ◌||◌, ◌∷◌,
}
use p2p_tun.Plugin.ConnLimit.Race.{here}
use p2p_tun.Text.{Text, has_prefix, is_empty, split, text, trim_space}

-- strings.Index and strings.Contains.
abbrev pub one_later : Option ℕ → Option ℕ
one_later none = none
one_later (some i) = some (i + 1)

unfoldable pub index : Text → Text → Option ℕ
unfolding has_prefix
index [] p = if has_prefix [] p then some 0 else none
index (c ∷ s) p = if has_prefix (c ∷ s) p then some 0 else one_later (index s p)

abbrev pub has_text : Text → Text → Bool
has_text s p = elim (index s p) [ none ↦ false | some i ↦ true ]

abbrev pub lower : Text → Text
lower [] = []
lower (c ∷ s) = (if leb b'A' c && leb c b'Z' then c + 32 else c) ∷ lower s

-- strings.Split at the end of a line, "\r\n".
unfoldable pub lines_at : Text → Text × List Text
lines_at [] = ([], [])
lines_at (c ∷ []) = (c ∷ [], [])
lines_at (c ∷ d ∷ s) =
    let split : Text × List Text = let (line, lines) = lines_at s in ([], line ∷ lines) in
    let joins : Text × List Text = let (line, lines) = lines_at (d ∷ s) in (c ∷ line, lines) in
    if c == 13 && d == 10 then split else joins

abbrev pub find_location : List Text → Text
find_location [] = []
find_location (line ∷ lines) =
    if has_prefix (lower line) (text "location:")
    then trim_space (drop 9 line)
    else find_location lines

-- The address of the description in an SSDP response; `none` where it is missing or empty.
unfoldable pub location_of : Text → Option Text
unfolding lines_at has_prefix trim_space
location_of response =
    let (line, lines) = lines_at response in
    let location = find_location (line ∷ lines) in if is_empty location then none else some location

pub record Service : Type 0 where
  pub service_type : Text
  pub control_url : Text

-- deviceDesc: the devices of the root device, with the services of their devices.
pub record DeviceDesc : Type 0 where
  pub url_base : Text
  pub devices : List (List (List Service))

abbrev pub is_wan : Service → Bool
is_wan s =
    has_text s.service_type (text "WANIPConnection")
    || has_text s.service_type (text "WANPPPConnection")

abbrev pub url_of : Text → Service → Text
url_of base s =
    if has_prefix s.control_url (text "http") then s.control_url else base ++ s.control_url

-- The first of the loops that returns.
abbrev pub or_later : Option Text → Option Text → Option Text
or_later none later = later
or_later (some url) later = some url

unfoldable pub in_services : Text → List Service → Option Text
unfolding index has_prefix
in_services base [] = none
in_services base (s ∷ ss) = if is_wan s then some (url_of base s) else in_services base ss

unfoldable pub in_device : Text → List (List Service) → Option Text
unfolding in_services
in_device base [] = none
in_device base (d ∷ ds) = or_later (in_services base d) (in_device base ds)

unfoldable pub in_devices : Text → List (List (List Service)) → Option Text
unfolding in_device
in_devices base [] = none
in_devices base (d ∷ ds) = or_later (in_device base d) (in_devices base ds)

-- getWANIPConnectionURL, on the description that is parsed.
unfoldable pub wan_url : Text → Option DeviceDesc → Option Text
unfolding in_devices
wan_url location none = none
wan_url location (some desc) =
    in_devices (if is_empty desc.url_base then location else desc.url_base) desc.devices

-- Gateway
pub record Gateway : Type 0 where
  pub control_url : Text
  pub service_url : Text

-- discoverUPnPIGD on the response, if there is one.
unfoldable pub discover_igd : (Text → Option DeviceDesc) → Option Text → Option Gateway
unfolding location_of wan_url
discover_igd describe none = none
discover_igd describe (some response) = elim (location_of response) [
  | none ↦ none
  | some location ↦ elim (wan_url location (describe location)) [
    | none ↦ none
    | some url ↦ some (record { control_url = url; service_url = location })
  ]
]

-- An address of an interface: its four bytes, where it is IPv4 and not of the loopback.
pub record Interface : Type 0 where
  pub up : Bool
  pub loopback : Bool
  pub addrs : List (Option Bytes)

abbrev pub first_addr : List (Option Bytes) → Option Bytes
first_addr [] = none
first_addr (none ∷ addrs) = first_addr addrs
first_addr (some a ∷ addrs) = some (take 3 a ++ 1 ∷ [])

-- getDefaultGateway: a guess from the first address.
unfoldable pub default_gateway : List Interface → Option Bytes
default_gateway [] = none
default_gateway (i ∷ is) =
    let here : Option Bytes = elim (first_addr i.addrs) [
      | none ↦ default_gateway is
      | some a ↦ some a
    ] in
    if not i.up || i.loopback then default_gateway is else here

-- discoverNATPMP, from what the gateway answers: the gateway has no control URL.
unfoldable pub discover_nat_pmp : (Bytes → Text) → Option Bytes → Option Bytes → Option Gateway
discover_nat_pmp show none answer = none
discover_nat_pmp show (some ip) none = none
discover_nat_pmp show (some ip) (some buf) =
    if ltb (length buf) 8 || not (get_or buf 0 0 == 0) || not (get_or buf 1 0 == 128)
    then none
    else some (record { control_url = []; service_url = show ip })

-- DiscoverGateway
unfoldable pub discover_gateway : Option Gateway → Option Gateway → Option Gateway
discover_gateway none nat_pmp = nat_pmp
discover_gateway (some gw) nat_pmp = some gw

abbrev pub open_tag : Text
open_tag = text "<NewExternalIPAddress>"

abbrev pub close_tag : Text
close_tag = text "</NewExternalIPAddress>"

pub data IpResult : Type 0 where
  found : Text → IpResult
  failed panics : IpResult

abbrev pub parsed : Option Text → IpResult
parsed none = failed
parsed (some ip) = found ip

-- `respStr[start+len(tag) : end]` panics where the end comes first.
abbrev pub between : (Text → Option Text) → Text → Option ℕ → Option ℕ → IpResult
between parse_ip s none last = failed
between parse_ip s (some first) none = failed
between parse_ip s (some first) (some last) =
    if ltb last (first + 22)
    then panics
    else parsed (parse_ip (trim_space (take (last - (first + 22)) (drop (first + 22) s))))

-- GetExternalIP once the response has come.
unfoldable pub external_ip : (Text → Option Text) → Text → IpResult
unfolding index trim_space
external_ip parse_ip s = between parse_ip s (index s open_tag) (index s close_tag)

-- soapCall: what the control URL answers to an action and a body, if it does.
abbrev pub Soap : Type 0
Soap = Text → Text → Text → Option Text

abbrev pub get_external_ip_body : Text
get_external_ip_body =
    text
      "<u:GetExternalIPAddress xmlns:u=\"urn:schemas-upnp-org:service:WANIPConnection:1\">\n</u:GetExternalIPAddress>"

abbrev pub reply_ip : (Text → Option Text) → Option Text → IpResult
reply_ip parse_ip none = failed
reply_ip parse_ip (some s) = external_ip parse_ip s

-- GetExternalIP
unfoldable pub get_external_ip : Soap → (Text → Option Text) → Gateway → IpResult
unfolding external_ip
get_external_ip soap parse_ip gw =
    reply_ip parse_ip (soap gw.control_url (text "GetExternalIPAddress") get_external_ip_body)

-- The body of AddPortMapping: ports, protocol, address and description in their elements.
unfoldable pub add_port_mapping_body : Text → Text → Text → Text → Text → Text
add_port_mapping_body ext_port local_port proto local_ip description =
    text
      "<u:AddPortMapping xmlns:u=\"urn:schemas-upnp-org:service:WANIPConnection:1\">\n<NewRemoteHost></NewRemoteHost>\n<NewExternalPort>"
    ++ ext_port
    ++ text "</NewExternalPort>\n<NewProtocol>"
    ++ proto
    ++ text "</NewProtocol>\n<NewInternalPort>"
    ++ local_port
    ++ text "</NewInternalPort>\n<NewInternalClient>"
    ++ local_ip
    ++ text "</NewInternalClient>\n<NewEnabled>1</NewEnabled>\n<NewPortMappingDescription>"
    ++ description
    ++ text
        "</NewPortMappingDescription>\n<NewLeaseDuration>0</NewLeaseDuration>\n</u:AddPortMapping>"

abbrev pub is_mapped : Option Text → Bool
is_mapped none = false
is_mapped (some s) = not (has_text s (text "errorCode"))

-- AddPortMapping, with the local address, if there is one; ports are in decimal.
unfoldable pub add_port_mapping : Soap → Option Text → Gateway → Text → Text → Text → Text → Bool
unfolding add_port_mapping_body
add_port_mapping soap none gw ext_port local_port proto description = false
add_port_mapping soap (some ip) gw ext_port local_port proto description = is_mapped (
    soap gw.control_url (text "AddPortMapping")
      (add_port_mapping_body ext_port local_port proto ip description))

-- DeletePortMapping: whether the call of the gateway succeeds.
unfoldable pub delete_port_mapping : Soap → Gateway → Text → Text → Bool
delete_port_mapping soap gw ext_port proto =
    let body =
      text
        "<u:DeletePortMapping xmlns:u=\"urn:schemas-upnp-org:service:WANIPConnection:1\">\n<NewRemoteHost></NewRemoteHost>\n<NewExternalPort>"
      ++ ext_port
      ++ text "</NewExternalPort>\n<NewProtocol>"
      ++ proto
      ++ text "</NewProtocol>\n</u:DeletePortMapping>" in
    elim (soap gw.control_url (text "DeletePortMapping") body) [ none ↦ false | some s ↦ true ]
