-- ===== src/App/Ports.antt =====
-- The ports and protocols of the command line in main.go: parsePorts, protoEnabled, and the choice
-- of the public port for each local one, with what they use of the package strconv.
pub mod Printing
pub mod Mapping
mod Tests
use p2p_tun.Prelude.{
  Bool, List, Option, [], false, get_elem?, if◌then◌else◌, leb, ltb, map, none, some, true, ℕ, ◌&&◌,
  ◌*◌, ◌++◌, ◌+◌, ◌-◌, ◌==◌, ◌^◌, ◌||◌, ◌∷◌,
}
use p2p_tun.Server.{ServiceMapping}
use p2p_tun.Text.{Text, split, text, text_eq, trim_space}

abbrev pub is_digit : ℕ → Bool
is_digit c = leb b'0' c && leb c b'9'

-- The digits of a text, most significant first; `none` if a character is none or if there is none.
unfoldable pub digits_from : ℕ → Text → Option ℕ
digits_from n [] = some n
digits_from n (c ∷ s) =
    let more = digits_from (10 * n + (c - b'0')) s in if is_digit c then more else none

unfoldable pub unsigned : Text → Option ℕ
unfolding digits_from
unsigned [] = none
unsigned (c ∷ s) = digits_from 0 (c ∷ s)

-- An int64 as its sign and its size.
pub record Signed : Type 0 where
  pub negative : Bool
  pub size : ℕ

-- A number outside of the range of int64 is an error.
abbrev pub in_range : Bool → Option ℕ → Option Signed
in_range negative none = none
in_range negative (some n) =
    if ltb n (2 ^ 63) || (negative && n == 2 ^ 63)
    then some (record { negative = negative; size = n })
    else none

-- strconv.Atoi
unfoldable pub atoi : Text → Option Signed
unfolding unsigned
atoi [] = none
atoi (c ∷ s) =
    if c == b'-'
    then in_range true (unsigned s)
    else if c == b'+'
    then in_range false (unsigned s)
    else in_range false (unsigned (c ∷ s))

-- The body of the loop of parsePorts: `err != nil || p <= 0 || p > 65535`, negated.
abbrev pub port_number : Option Signed → Option ℕ
port_number none = none
port_number (some p) = if p.negative || p.size == 0 || ltb 65535 p.size then none else some p.size

unfoldable pub port_of : Text → Option ℕ
unfolding atoi
port_of part = port_number (atoi (trim_space part))

abbrev pub keep : Option ℕ → List ℕ → List ℕ
keep none ports = ports
keep (some p) ports = p ∷ ports

unfoldable pub ports_of : List Text → List ℕ
unfolding port_of
ports_of [] = []
ports_of (part ∷ parts) = keep (port_of part) (ports_of parts)

abbrev pub default_port : ℕ
default_port = 8080

abbrev pub or_default : List ℕ → List ℕ
or_default [] = default_port ∷ []
or_default (p ∷ ps) = p ∷ ps

-- parsePorts
unfoldable pub parse_ports : Text → List ℕ
unfolding ports_of
parse_ports s = or_default (ports_of (split b',' s))

-- protoEnabled
unfoldable pub proto_enabled : Text → Text → Bool
proto_enabled proto want = if text_eq proto (text "both") then true else text_eq proto want

-- `for _, currentProto := range []string{"tcp", "udp"}` with the `continue` of the loop.
unfoldable pub protocols : Text → List Text
unfolding proto_enabled
protocols proto =
    (if proto_enabled proto (text "tcp") then text "tcp" ∷ [] else [])
    ++ (if proto_enabled proto (text "udp") then text "udp" ∷ [] else [])

abbrev or_local : ℕ → Option ℕ → ℕ
or_local lp none = lp
or_local lp (some p) = if p == 0 then lp else p

-- The public port of the i-th local port.
unfoldable pub ext_port : List ℕ → ℕ → ℕ → ℕ
ext_port prefer_ports i lp = or_local lp (get_elem? prefer_ports i)

abbrev pub service : ℕ → ℕ → Text → ServiceMapping
service lp remote_port proto = record { local_port = lp; remote_port = remote_port; proto = proto }

-- The services that runTunnel asks the relay for, from the i-th local port on.
unfoldable pub services_from : ℕ → List ℕ → List ℕ → Text → List ServiceMapping
unfolding ext_port protocols
services_from i [] prefer_ports proto = []
services_from i (lp ∷ ports) prefer_ports proto =
    map (service lp (ext_port prefer_ports i lp)) (protocols proto)
    ++ services_from (i + 1) ports prefer_ports proto

unfoldable pub services : List ℕ → List ℕ → Text → List ServiceMapping
unfolding services_from
services local_ports prefer_ports proto = services_from 0 local_ports prefer_ports proto
