-- ===== src/Stun/Interop.antt =====
-- The client's parser against the server's responder, and the responder against RFC 5389.
use p2p_tun.Prelude.{
  All, Bytes, IsByte, Option, [], ap, arith, bit_xor, bytes_eq, bytes_eq_iff, drop, err, get_or,
  if◌then◌else◌, length, length-drop, length-take, none, put_u16, put_u32, refl, slice, some, sym,
  take, u32-put, u32_of, uint16_at, uint32_at, ℕ, ◌%◌, ◌&&◌, ◌++◌, ◌+◌, ◌/◌, ◌<◌, ◌==◌, ◌^◌, ◌∙◌,
  ◌∷◌, ◌≡◌, ◌≢◌, ◌≤◌,
}
use p2p_tun.Prelude.Xor.{bit_xor-lt, bit_xor_twice}
use p2p_tun.Stun.{
  Addr, attr_result, attr_xor_mapped, binding_request, binding_response, has_attr, invalid_response,
  ipv4, parse_attrs, parse_binding_response, parse_xor_mapped_addr, stun_magic_cookie, take_attr,
}
use p2p_tun.Stun.Octets.{xor_port}
use p2p_tun.Stun.Server.{
  attr_value_of, build_stun_response, panicked, replied, serve, to4, to_reply,
}

-- XOR-MAPPED-ADDRESS as RFC 5389 section 15.2 lays it out, for IPv4: a zero byte, the family, the
-- port and the address, each combined with the leading bits of the cookie.
abbrev pub rfc_decode_v4 : Bytes → Option Addr
rfc_decode_v4 value =
    if length value == 8 && get_or value 1 0 == 1
    then some (record {
      ip = put_u32 (bit_xor (uint32_at value 4) stun_magic_cookie);
      port = bit_xor (uint16_at value 2) (stun_magic_cookie / 2 ^ 16);
    })
    else none

response : Bytes → Bytes → ℕ → Bytes
response req ip4 port =
    put_u16 0x0101
    ++ (put_u16 12
        ++ (put_u32 stun_magic_cookie
            ++ (slice req 8 20 ++ (put_u16 0x0020 ++ (put_u16 8 ++ attr_value_of ip4 port)))))

length-slice : (req : Bytes) → 20 ≤ length req → length (slice req 8 20) ≡ 12
length-slice req h = omega (arith, length-take 12 (drop 8 req), length-drop 8 req)

-- A request that the loop of runSTUNServer answers.
pub record IsRequest (req : Bytes) : Type 0 where
  pub whole : 20 ≤ length req
  pub typed : uint16_at req 0 ≡ binding_request
  pub cookie : uint32_at req 4 ≡ stun_magic_cookie

serve_request :
    (req : Bytes) (addr : Addr)
    → IsRequest req
    → serve req addr ≡ to_reply (build_stun_response req addr)
unfolding serve
serve_request req addr r = ground arith

build-response :
    (req : Bytes) (a b c d port : ℕ)
    → build_stun_response req (record { ip = ipv4 a b c d; port = port })
      ≡ some (response req (a ∷ b ∷ c ∷ d ∷ []) port)
unfolding build_stun_response to4 bytes_eq response
build-response req a b c d port = refl

-- The twelve bytes of the transaction in the middle of a response, taken apart.
response_layout :
    (t value : Bytes)
    → length t ≡ 12
    → let resp =
        put_u16 0x0101
        ++ (put_u16 12
            ++ (put_u32 stun_magic_cookie ++ (t ++ (put_u16 0x0020 ++ (put_u16 8 ++ value))))) in
      (length resp ≡ 24 + length value)
      × (uint16_at resp 0 ≡ binding_response)
      × (uint16_at resp 2 ≡ 12)
      × (uint32_at resp 4 ≡ stun_magic_cookie)
      × (slice resp 8 20 ≡ t)
      × (uint16_at resp 20 ≡ attr_xor_mapped)
      × (uint16_at resp 22 ≡ 8)
      × (drop 24 resp ≡ value)
response_layout (a ∷ b ∷ c ∷ d ∷ e ∷ f ∷ g ∷ h ∷ i ∷ j ∷ k ∷ l ∷ []) value p =
    (omega arith, refl, refl, refl, refl, refl, refl, refl)
response_layout _ value p = absurd (omega arith)

answered :
    (req : Bytes) (a b c d port : ℕ)
    → IsRequest req
    → serve req (record { ip = ipv4 a b c d; port = port })
      ≡ replied (response req (a ∷ b ∷ c ∷ d ∷ []) port)
answered req a b c d port r = serve_request req _ r ∙ ap to_reply (build-response req a b c d port)

xor_word :
    (v : ℕ)
    → v < 2 ^ 32
    → bit_xor (uint32_at (put_u32 (bit_xor v stun_magic_cookie)) 0) stun_magic_cookie ≡ v
xor_word v h =
    rw (u32-put (bit_xor v stun_magic_cookie) (bit_xor-lt 32 v stun_magic_cookie h (omega arith)))
      (bit_xor_twice v stun_magic_cookie)

put-u32_of :
    (a b c d : ℕ) → All IsByte (a ∷ b ∷ c ∷ d ∷ []) → put_u32 (u32_of a b c d) ≡ a ∷ b ∷ c ∷ d ∷ []
put-u32_of a b c d w = ground arith

decode-attr_value :
    (a b c d port : ℕ)
    → All IsByte (a ∷ b ∷ c ∷ d ∷ [])
    → port < 2 ^ 16
    → rfc_decode_v4 (attr_value_of (a ∷ b ∷ c ∷ d ∷ []) port)
      ≡ some (record { ip = a ∷ b ∷ c ∷ d ∷ []; port = port })
decode-attr_value a b c d port w p =
    let small : port % 65536 ≡ port = omega arith in
    rw (small, xor_port port p, xor_word (u32_of a b c d) (omega arith), put-u32_of a b c d w) refl

-- The responder of the server does what RFC 5389 asks: it answers every binding request from an IPv4
-- address with a response of 32 bytes that has the type, the length field, the cookie and the
-- request's transaction, then the type 0x0020 of XOR-MAPPED-ADDRESS with the length 8, and a value
-- that decodes by RFC 5389 to the client's address and port.
pub serve_rfc :
    (req : Bytes) (a b c d port : ℕ)
    → IsRequest req
    → All IsByte (a ∷ b ∷ c ∷ d ∷ [])
    → port < 2 ^ 16
    → (resp : Bytes) × (serve req (record { ip = ipv4 a b c d; port = port }) ≡ replied resp)
      × (length resp ≡ 32)
      × (uint16_at resp 0 ≡ binding_response)
      × (uint16_at resp 2 ≡ 12)
      × (uint32_at resp 4 ≡ stun_magic_cookie)
      × (slice resp 8 20 ≡ slice req 8 20)
      × (uint16_at resp 20 ≡ 0x0020)
      × (uint16_at resp 22 ≡ 8)
      × (rfc_decode_v4 (drop 24 resp) ≡ some (record { ip = a ∷ b ∷ c ∷ d ∷ []; port = port }))
unfolding response
serve_rfc req a b c d port r w p =
    let value = attr_value_of (a ∷ b ∷ c ∷ d ∷ []) port in
    let (l, ty, ln, ck, tx, kind, size, val) =
      response_layout (slice req 8 20) value (length-slice req r.whole) in
    (
      response req (a ∷ b ∷ c ∷ d ∷ []) port,
      answered req a b c d port r,
      l,
      ty,
      ln,
      ck,
      tx,
      kind,
      size,
      rw val (decode-attr_value a b c d port w p),
    )

pub replied-inj : {x y : Bytes} → replied x ≡ replied y → x ≡ y
replied-inj e = cc e

-- Any response of that layout whose attribute begins with a zero byte is refused.
parse-zero_family :
    (t v txn : Bytes)
    → length t ≡ 12
    → length v ≡ 7
    → parse_binding_response
        (put_u16 0x0101
          ++ (put_u16 12
              ++ (put_u32 stun_magic_cookie ++ (t ++ (put_u16 0x0020 ++ (put_u16 8 ++ (0 ∷ v)))))))
        txn
      ≡ some (err invalid_response)
unfolding parse_binding_response parse_attrs has_attr attr_result take_attr parse_xor_mapped_addr
parse-zero_family (a ∷ b ∷ c ∷ d ∷ e ∷ f ∷ g ∷ h ∷ i ∷ j ∷ k ∷ l ∷ [])
      (m ∷ n ∷ o ∷ p ∷ q ∷ r ∷ s ∷ []) txn x y =
    refl
parse-zero_family _ _ txn x y = absurd (omega arith)

-- The client of the same repository refuses every one of these responses: it takes the byte before
-- the family for the family.
pub serve-rejected :
    (req txn : Bytes) (a b c d port : ℕ)
    → IsRequest req
    → (resp : Bytes) × (serve req (record { ip = ipv4 a b c d; port = port }) ≡ replied resp)
      × (parse_binding_response resp txn ≡ some (err invalid_response))
unfolding response
serve-rejected req txn a b c d port r = (
  response req (a ∷ b ∷ c ∷ d ∷ []) port,
  answered req a b c d port r,
  parse-zero_family (slice req 8 20) _ txn (length-slice req r.whole) refl,
)

pub serve-length :
    (req resp : Bytes) (a b c d port : ℕ)
    → IsRequest req
    → serve req (record { ip = ipv4 a b c d; port = port }) ≡ replied resp
    → length resp ≡ 32
unfolding response
serve-length req resp a b c d port r e =
    let value = attr_value_of (a ∷ b ∷ c ∷ d ∷ []) port in
    let layout = response_layout (slice req 8 20) value (length-slice req r.whole) in
    let same : response req (a ∷ b ∷ c ∷ d ∷ []) port ≡ resp =
      replied-inj (sym (answered req a b c d port r) ∙ e) in
    ap length (sym same) ∙ layout.0

-- A binding request from an address of sixteen bytes that is no IPv4 address makes the server panic.
pub serve_panics :
    (req : Bytes) (addr : Addr)
    → IsRequest req
    → length addr.ip ≡ 16
    → take 12 addr.ip ≢ take 12 (ipv4 0 0 0 0)
    → serve req addr ≡ panicked
unfolding build_stun_response to4
serve_panics req addr r l n =
    serve_request req addr r
    ∙ ground (arith, bytes_eq_iff (take 12 addr.ip) (take 12 (ipv4 0 0 0 0)))
