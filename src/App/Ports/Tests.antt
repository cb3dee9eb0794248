-- ===== src/App/Ports/Tests.antt =====
-- The theorems on ports at concrete command lines.
use p2p_tun.Prelude.{[], arith, refl, ◌∷◌, ◌≡◌}
use p2p_tun.App.Ports.{atoi, parse_ports, port_of, services}
use p2p_tun.App.Ports.Mapping.{paired, services-written}
use p2p_tun.App.Ports.Printing.{itoa, written}
use p2p_tun.Text.{split, text, trim_space}

kept_port : parse_ports (text " 22, x,70000,+80,-1") ≡ 22 ∷ 80 ∷ []
unfolding parse_ports trim_space split port_of atoi
kept_port = refl

written_ports : written 8080 (22 ∷ []) ≡ text "8080,22"
unfolding itoa
written_ports = refl

services-written_example :
    services
      (parse_ports (written 8080 (22 ∷ 3306 ∷ [])))
      (parse_ports (written 80 (2222 ∷ [])))
      (text "both")
    ≡ paired (8080 ∷ 22 ∷ 3306 ∷ []) (80 ∷ 2222 ∷ []) (text "both")
services-written_example =
    services-written 8080 80 (22 ∷ 3306 ∷ []) (2222 ∷ []) (text "both") (omega arith, omega arith)
      (((omega arith, omega arith), ((omega arith, omega arith), tt))) (omega arith, omega arith)
      ((omega arith, omega arith), tt)
