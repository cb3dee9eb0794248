-- ===== src/App/Ports/Mapping.antt =====
-- Which public port each local port of main.go gets.
use mathlib.Core.List.{append-nil, append_assoc}
use p2p_tun.Prelude.{
  All, List, Option, [], arith, length, length-append, map, none, refl, some, suc, zero, ℕ, ◌++◌,
  ◌+◌, ◌<◌, ◌∷◌, ◌≡◌, ◌≤◌,
}
use p2p_tun.App.Ports.{
  Signed, atoi, ext_port, keep, or_default, parse_ports, port_number, port_of, ports_of, protocols,
  service, services, services_from,
}
use p2p_tun.App.Ports.Printing.{IsPort, parse_ports-written, written}
use p2p_tun.Server.{ServiceMapping}
use p2p_tun.Text.{Text, split, trim_space}

port_number-IsPort :
    (o : Option Signed) (ps : List ℕ) → All IsPort ps → All IsPort (keep (port_number o) ps)
port_number-IsPort none ps w = w
port_number-IsPort (some p) ps w = ground (arith, w)

ports_of-IsPort : (parts : List Text) → All IsPort (ports_of parts)
unfolding ports_of port_of
ports_of-IsPort [] = tt
ports_of-IsPort (part ∷ parts) =
    port_number-IsPort (atoi (trim_space part)) (ports_of parts) (ports_of-IsPort parts)

or_default-IsPort :
    (ps : List ℕ) → All IsPort ps → All IsPort (or_default ps) × (0 < length (or_default ps))
or_default-IsPort [] w = ((omega arith, tt), omega arith)
or_default-IsPort (p ∷ ps) w = (w, omega arith)

-- Whatever the user writes, parsePorts returns at least one port, and each is from 1 to 65535.
pub parse_ports_valid : (s : Text) → All IsPort (parse_ports s) × (0 < length (parse_ports s))
unfolding parse_ports
parse_ports_valid s = or_default-IsPort (ports_of (split b',' s)) (ports_of-IsPort (split b',' s))

-- Each local port at the public port of the same place.
abbrev pub paired : List ℕ → List ℕ → Text → List ServiceMapping
paired [] rs proto = []
paired (l ∷ ls) [] proto = map (service l l) (protocols proto) ++ paired ls [] proto
paired (l ∷ ls) (r ∷ rs) proto = map (service l r) (protocols proto) ++ paired ls rs proto

ext_port-here :
    (before : List ℕ) (r l : ℕ) (rs : List ℕ)
    → IsPort r
    → ext_port (before ++ r ∷ rs) (length before) l ≡ r
unfolding ext_port
ext_port-here [] r l rs h = ground (arith, h.0)
ext_port-here (b ∷ before) r l rs h = ext_port-here before r l rs h

ext_port-beyond : (rs : List ℕ) (i l : ℕ) → length rs ≤ i → ext_port rs i l ≡ l
unfolding ext_port
ext_port-beyond [] i l h = refl
ext_port-beyond (r ∷ rs) zero l h = absurd (omega arith)
ext_port-beyond (r ∷ rs) (suc i) l h = ext_port-beyond rs i l (omega arith)

services_from-beyond :
    (i : ℕ) (ls rs : List ℕ) (proto : Text)
    → length rs ≤ i
    → services_from i ls rs proto ≡ paired ls [] proto
unfolding services_from
services_from-beyond i [] rs proto h = refl
services_from-beyond i (l ∷ ls) rs proto h =
    rw (ext_port-beyond rs i l h, services_from-beyond (i + 1) ls rs proto (omega arith)) refl

services_from-paired :
    (ls before rs : List ℕ) (proto : Text)
    → All IsPort rs
    → services_from (length before) ls (before ++ rs) proto ≡ paired ls rs proto
unfolding services_from
services_from-paired [] before rs proto w = refl
services_from-paired (l ∷ ls) before [] proto w =
    rw append-nil (services_from-beyond (length before) (l ∷ ls) before proto (omega arith))
services_from-paired (l ∷ ls) before (r ∷ rs) proto w =
    let one : length (before ++ r ∷ []) ≡ length before + 1 =
      omega (arith, length-append before (r ∷ [])) in
    let ih = services_from-paired ls (before ++ r ∷ []) rs proto w.1 in
    let ih' : services_from (length before + 1) ls (before ++ r ∷ rs) proto ≡ paired ls rs proto =
      rw (← one, ← append_assoc before (r ∷ []) rs) ih in
    rw (ext_port-here before r l rs w.0, ih') refl

services-paired :
    (ls rs : List ℕ) (proto : Text) → All IsPort rs → services ls rs proto ≡ paired ls rs proto
unfolding services
services-paired ls rs proto w = services_from-paired ls [] rs proto w

-- From the command line to the registration: if the local and the public ports are written as lists
-- of port numbers with commas between them, then the relay is asked for each local port once for
-- each enabled protocol, TCP first, in the order in which they are written, at the public port of
-- the same place; a local port that has no public port of its place is asked for under its own
-- number, and further public ports are ignored.
pub services-written :
    (l r : ℕ) (ls rs : List ℕ) (proto : Text)
    → IsPort l
    → All IsPort ls
    → IsPort r
    → All IsPort rs
    → services (parse_ports (written l ls)) (parse_ports (written r rs)) proto
      ≡ paired (l ∷ ls) (r ∷ rs) proto
services-written l r ls rs proto hl wl hr wr =
    rw (parse_ports-written l ls hl wl, parse_ports-written r rs hr wr)
      (services-paired (l ∷ ls) (r ∷ rs) proto (hr, wr))

ports_of-none : (parts : List Text) → All (λ part. port_of part ≡ none) parts → ports_of parts ≡ []
unfolding ports_of
ports_of-none [] w = refl
ports_of-none (part ∷ parts) w = rw (w.0, ports_of-none parts w.1) refl

-- If no part of the list of public ports is a number from 1 to 65535, as with the default "0", then
-- the first local port is asked for at the public port 8080 whatever its own number is, and only the
-- local ports after it keep theirs.
pub services_zero :
    (s : Text) (l : ℕ) (ls : List ℕ) (proto : Text)
    → All (λ part. port_of part ≡ none) (split b',' s)
    → services (l ∷ ls) (parse_ports s) proto
      ≡ map (service l 8080) (protocols proto) ++ paired ls [] proto
unfolding parse_ports
services_zero s l ls proto w =
    rw (ports_of-none (split b',' s) w)
      (services-paired (l ∷ ls) (8080 ∷ []) proto ((omega arith, omega arith), tt))
