-- ===== src/Stun/Tests.antt =====
-- The theorems on STUN at concrete messages.
use p2p_tun.Prelude.{
  Bytes, Result, [], arith, bytes_eq, drop, err, length, none, ok, refl, slice, some, true,
  uint16_at, uint32_at, ◌++◌, ◌∷◌, ◌≡◌,
}
use p2p_tun.Stun.{
  Addr, StunError, attr_result, binding_response, build_binding_request, has_attr, invalid_response,
  ipv4, next_offset, parse_attrs, parse_binding_response, parse_mapped_addr, stun_magic_cookie,
  take_attr,
}
use p2p_tun.Stun.Attributes.{parse_binding_response_total}
use p2p_tun.Stun.Detect.{
  Exchange, Probe, bad_response, binding_exchange, detect_nat_type, first_failed, symmetric,
}
use p2p_tun.Stun.Detect.Verdicts.{detect_nat_type-other_ip, detect_nat_type-own_server}
use p2p_tun.Stun.Interop.{IsRequest, rfc_decode_v4, serve_rfc}
use p2p_tun.Stun.Server.{build_stun_response, replied, serve, to4}

abbrev txn : Bytes
txn = 1 ∷ 2 ∷ 3 ∷ 4 ∷ 5 ∷ 6 ∷ 7 ∷ 8 ∷ 9 ∷ 10 ∷ 11 ∷ 12 ∷ []

abbrev request : Bytes
request = 0 ∷ 1 ∷ 0 ∷ 0 ∷ 0x21 ∷ 0x12 ∷ 0xA4 ∷ 0x42 ∷ txn

request-IsRequest : IsRequest request
request-IsRequest = record { whole = omega arith; typed = refl; cookie = refl }

-- A response with one MAPPED-ADDRESS, whose family stands where the client looks for it.
abbrev response_front : Bytes
response_front = 1 ∷ 1 ∷ 0 ∷ 12 ∷ 0x21 ∷ 0x12 ∷ 0xA4 ∷ 0x42 ∷ []

abbrev mapped_attr : Bytes
mapped_attr = 0 ∷ 1 ∷ 0 ∷ 8 ∷ 1 ∷ 0 ∷ 0x1F ∷ 0x90 ∷ 10 ∷ 0 ∷ 0 ∷ 1 ∷ []

abbrev mapped : Addr
mapped = record { ip = ipv4 10 0 0 1; port = 8080 }

parse_binding_response_total_example :
    (r : Result StunError Addr) × (parse_binding_response
        (response_front ++ (txn ++ mapped_attr))
        txn
      ≡ some r)
parse_binding_response_total_example =
    parse_binding_response_total (response_front ++ (txn ++ mapped_attr)) txn

serve_rfc_example :
    (resp : Bytes) × (serve request mapped ≡ replied resp)
    × (length resp ≡ 32)
    × (uint16_at resp 0 ≡ binding_response)
    × (uint16_at resp 2 ≡ 12)
    × (uint32_at resp 4 ≡ stun_magic_cookie)
    × (slice resp 8 20 ≡ slice request 8 20)
    × (uint16_at resp 20 ≡ 0x0020)
    × (uint16_at resp 22 ≡ 8)
    × (rfc_decode_v4 (drop 24 resp) ≡ some (record { ip = 10 ∷ 0 ∷ 0 ∷ 1 ∷ []; port = 8080 }))
serve_rfc_example = serve_rfc request 10 0 0 1 8080 request-IsRequest (ground arith) (omega arith)

-- A socket that listens on all addresses.
abbrev unspecified : Addr
unspecified = record {
  ip = 0 ∷ 0 ∷ 0 ∷ 0 ∷ 0 ∷ 0 ∷ 0 ∷ 0 ∷ 0 ∷ 0 ∷ 0 ∷ 0 ∷ 0 ∷ 0 ∷ 0 ∷ 0 ∷ [];
  port = 8080;
}

abbrev answered_by : Bytes → Exchange
answered_by datagram = record {
  txn_id = some txn;
  resolves = true;
  written = true;
  datagram = some datagram;
}

abbrev probe_with : Bytes → Probe
probe_with datagram = record {
  resolves = true;
  listens = some unspecified;
  first = answered_by datagram;
  splits = true;
  second = record { txn_id = some txn; resolves = true; written = true; datagram = none };
}

detect_nat_type-other_ip_example :
    detect_nat_type (probe_with (response_front ++ (txn ++ mapped_attr))) ≡ ok (symmetric, mapped)
unfolding binding_exchange parse_binding_response parse_attrs has_attr attr_result take_attr
    parse_mapped_addr next_offset bytes_eq
detect_nat_type-other_ip_example =
    detect_nat_type-other_ip (probe_with (response_front ++ (txn ++ mapped_attr))) unspecified
      mapped refl refl refl refl refl

abbrev own_response : Bytes
own_response =
    1
    ∷ 1
    ∷ 0
    ∷ 12
    ∷ 0x21
    ∷ 0x12
    ∷ 0xA4
    ∷ 0x42
    ∷ (txn ++ (0 ∷ 0x20 ∷ 0 ∷ 8 ∷ 0 ∷ 1 ∷ 0x3E ∷ 0x82 ∷ 0x2B ∷ 0x12 ∷ 0xA4 ∷ 0x43 ∷ []))

detect_nat_type-own_server_example :
    detect_nat_type (probe_with own_response) ≡ err (first_failed (bad_response invalid_response))
unfolding serve build_stun_response build_binding_request to4 bytes_eq
detect_nat_type-own_server_example =
    detect_nat_type-own_server (probe_with own_response) unspecified txn own_response 10 0 0 1 8080
      refl refl refl refl refl
