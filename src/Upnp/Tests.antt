-- ===== src/Upnp/Tests.antt =====
-- The theorems on UPnP at concrete responses.
use p2p_tun.Prelude.{Option, [], false, none, refl, some, true, ◌∷◌, ◌≡◌}
use p2p_tun.Text.{Text, has_prefix, text, trim_left, trim_right, trim_space}
use p2p_tun.Upnp.{
  DeviceDesc, Service, default_gateway, in_device, in_devices, in_services, index, lines_at,
  location_of, wan_url,
}

any_ip : Text → Option Text
any_ip s = some s

abbrev blank_before : Text
blank_before = text "\n "

abbrev some_response : Text
some_response =
    text
      "HTTP/1.1 200 OK\r\nLOCATION:  http://192.168.1.1:5000/root.xml\r\nST: upnp:rootdevice\r\n\r\n"

some_location : location_of some_response ≡ some (text "http://192.168.1.1:5000/root.xml")
unfolding location_of lines_at has_prefix trim_space trim_left trim_right
some_location = refl

abbrev wan_service : Service
wan_service = record {
  service_type = text "urn:schemas-upnp-org:service:WANIPConnection:1";
  control_url = text "/ctl/IPConn";
}

abbrev some_desc : DeviceDesc
some_desc = record { url_base = []; devices = ((wan_service ∷ []) ∷ []) ∷ [] }

-- A path of the description is put behind the whole address of the description.
joined_url :
    wan_url (text "http://192.168.1.1:5000/root.xml") (some some_desc)
    ≡ some (text "http://192.168.1.1:5000/root.xml/ctl/IPConn")
unfolding wan_url in_devices in_device in_services index has_prefix
joined_url = refl

guessed_gateway :
    default_gateway (
      record { up = true; loopback = true; addrs = some (127 ∷ 0 ∷ 0 ∷ 1 ∷ []) ∷ [] }
      ∷ record { up = true; loopback = false; addrs = none ∷ some (10 ∷ 0 ∷ 3 ∷ 77 ∷ []) ∷ [] }
      ∷ [])
    ≡ some (10 ∷ 0 ∷ 3 ∷ 1 ∷ [])
unfolding default_gateway
guessed_gateway = refl
