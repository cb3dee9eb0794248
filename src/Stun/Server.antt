-- ===== src/Stun/Server.antt =====
-- The STUN responder of signal-server/main.go: the loop body of runSTUNServer and buildSTUNResponse.
use p2p_tun.Prelude.{
  Bytes, Option, bit_xor, bytes_eq, drop, if◌then◌else◌, length, ltb, none, not, put_u16, put_u32,
  slice, some, take, uint16_at, uint32_at, ℕ, ◌%◌, ◌&&◌, ◌++◌, ◌+◌, ◌==◌, ◌∷◌,
}
use p2p_tun.Stun.{Addr, binding_request, cookie_high, ipv4, stun_magic_cookie}

-- net.IP.To4: the four bytes of an IPv4 address in either form, and `nil` for any other.
unfoldable pub to4 : Bytes → Option Bytes
to4 ip =
    if length ip == 4
    then some ip
    else if length ip == 16 && bytes_eq (take 12 ip) (take 12 (ipv4 0 0 0 0))
    then some (drop 12 ip)
    else none

abbrev pub attr_value_of : Bytes → ℕ → Bytes
attr_value_of ip4 port =
    0x00
    ∷ 0x01
    ∷ (put_u16 (bit_xor (port % 65536) cookie_high)
        ++ put_u32 (bit_xor (uint32_at ip4 0) stun_magic_cookie))

-- `binary.BigEndian.Uint32(clientAddr.IP.To4())` reads four bytes: at `nil` it panics, here `none`.
unfoldable pub build_stun_response : Bytes → Addr → Option Bytes
build_stun_response req client_addr = elim (to4 client_addr.ip) [
  | none ↦ none
  | some ip4 ↦
      let attr_value = attr_value_of ip4 client_addr.port in
      let attr = put_u16 0x0020 ++ put_u16 (length attr_value) in
      some (
        put_u16 0x0101
        ++ (put_u16 (4 + length attr_value)
            ++ (put_u32 stun_magic_cookie ++ (slice req 8 20 ++ (attr ++ attr_value)))))
]

pub data Reply : Type 0 where
  ignored panicked : Reply
  replied : Bytes → Reply

abbrev pub to_reply : Option Bytes → Reply
to_reply none = panicked
to_reply (some resp) = replied resp

-- What the loop of runSTUNServer does with a datagram.
unfoldable pub serve : Bytes → Addr → Reply
serve datagram client_addr =
    if ltb (length datagram) 20
    then ignored
    else if not (uint16_at datagram 0 == binding_request)
    then ignored
    else if not (uint32_at datagram 4 == stun_magic_cookie)
    then ignored
    else to_reply (build_stun_response datagram client_addr)
