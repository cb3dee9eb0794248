-- ===== src/Stun/Detect/Verdicts.antt =====
-- What DetectNATType of stun/stun.go can say, with its own socket and against its own server.
use p2p_tun.Prelude.{
  Bool, Bool-cases, Bytes, Result, ap, arith, err, false, if◌then◌else◌, inl, inr, length, ok, refl,
  some, sym, take, take_all, true, ℕ, ◌==◌, ◌∙◌, ◌≡◌,
}
use p2p_tun.Stun.{Addr, build_binding_request, invalid_response, ipv4, parse_binding_response}
use p2p_tun.Stun.Detect.{
  Probe, RequestError, bad_response, binding_exchange, detect_nat_type, first_failed, full_cone,
  ip_equal, is_local_port_changed, response_size, second_verdict, symmetric,
}
use p2p_tun.Stun.Interop.{IsRequest, replied-inj, serve-length, serve-rejected}
use p2p_tun.Stun.Server.{replied, serve}

-- Whether the second request had an answer with the port of the first.
abbrev pub keeps_port : Addr → Result RequestError Addr → Bool
keeps_port mapped (err e) = false
keeps_port mapped (ok addr) = mapped.port == addr.port

second_verdict-other_ip :
    (local_addr mapped : Addr) (answer : Result RequestError Addr)
    → ip_equal mapped.ip local_addr.ip ≡ false
    → second_verdict local_addr mapped answer
      ≡ (if keeps_port mapped answer then full_cone else symmetric)
unfolding second_verdict is_local_port_changed
second_verdict-other_ip local_addr mapped (err e) h = rw h refl
second_verdict-other_ip local_addr mapped (ok addr) h =
    elim (Bool-cases (mapped.port == addr.port)) [ inl e ↦ rw e refl | inr e ↦ rw e refl ]

-- When the address that the server saw is not that of the socket, as for a socket that listens on all
-- addresses, the verdict is full-cone exactly if the second request is answered with the same port,
-- and symmetric otherwise, also when there is no answer: no-nat and port-restricted never come out.
pub detect_nat_type-other_ip :
    (p : Probe) (local_addr mapped : Addr)
    → p.resolves ≡ true
    → p.splits ≡ true
    → p.listens ≡ some local_addr
    → binding_exchange p.first ≡ ok mapped
    → ip_equal mapped.ip local_addr.ip ≡ false
    → detect_nat_type p
      ≡ ok (if keeps_port mapped (binding_exchange p.second) then full_cone else symmetric, mapped)
unfolding detect_nat_type
detect_nat_type-other_ip p local_addr mapped r s l f h =
    rw (r, l, f, h, s)
      (ap (λ v. ok (v, mapped))
        (second_verdict-other_ip local_addr mapped (binding_exchange p.second) h))

build-IsRequest : (txn_id : Bytes) → length txn_id ≡ 12 → IsRequest (build_binding_request txn_id)
unfolding build_binding_request
build-IsRequest txn_id h = record { whole = omega arith; typed = refl; cookie = refl }

-- A detection whose first request is answered by the server of the repository fails, whatever address
-- the server sees and whatever the second request does.
pub detect_nat_type-own_server :
    (p : Probe) (local_addr : Addr) (txn_id resp : Bytes) (a b c d port : ℕ)
    → p.resolves ≡ true
    → p.listens ≡ some local_addr
    → p.first
      ≡ record { txn_id = some txn_id; resolves = true; written = true; datagram = some resp }
    → length txn_id ≡ 12
    → serve (build_binding_request txn_id) (record { ip = ipv4 a b c d; port = port })
      ≡ replied resp
    → detect_nat_type p ≡ err (first_failed (bad_response invalid_response))
unfolding detect_nat_type binding_exchange
detect_nat_type-own_server p local_addr txn_id resp a b c d port r l f n e =
    let req = build_binding_request txn_id in
    let (resp', sent, wrong) = serve-rejected req txn_id a b c d port (build-IsRequest txn_id n) in
    let same : resp' ≡ resp = replied-inj (sym sent ∙ e) in
    let len = serve-length req resp a b c d port (build-IsRequest txn_id n) e in
    let whole : take response_size resp ≡ resp = take_all response_size resp (omega (arith, len)) in
    let answer : parse_binding_response (take response_size resp) txn_id
        ≡ some (err invalid_response) =
      rw (whole, ← same) wrong in
    rw (r, l, f, answer) refl
