-- ===== src/Stun.antt =====
-- STUN messages, client side (stun/stun.go): the binding request, and the parser of the response.
pub mod Server
pub mod Detect
pub mod Attributes
pub mod Transaction
pub mod Octets
pub mod Interop
mod Tests
use p2p_tun.Prelude.{
  Bool, Bytes, Option, Result, [], bit_xor, err, false, get_or, if◌then◌else◌, leb, length, ltb,
  none, not, ok, put_u16, put_u32, slice, some, suc, true, uint16_at, uint32_at, zero, ℕ, ◌%◌, ◌&&◌,
  ◌++◌, ◌+◌, ◌-◌, ◌/◌, ◌==◌, ◌>>=◌, ◌^◌, ◌∷◌,
}

abbrev pub stun_magic_cookie : ℕ
stun_magic_cookie = 0x2112A442

abbrev pub binding_request : ℕ
binding_request = 0x0001

abbrev pub binding_response : ℕ
binding_response = 0x0101

abbrev pub attr_xor_mapped : ℕ
attr_xor_mapped = 0x0020

abbrev pub attr_mapped_addr : ℕ
attr_mapped_addr = 0x0001

abbrev pub stun_header_size : ℕ
stun_header_size = 20

abbrev pub stun_attr_header : ℕ
stun_attr_header = 4

abbrev pub family_ipv4 : ℕ
family_ipv4 = 0x01

abbrev pub family_ipv6 : ℕ
family_ipv6 = 0x02

pub data StunError : Type 0 where
  no_xor_mapped_addr invalid_response : StunError
  unexpected_type : ℕ → StunError

-- A net.IP is its bytes; net.IPv4 gives the sixteen bytes of the mapped form.
pub record Addr : Type 0 where
  pub ip : Bytes
  pub port : ℕ

abbrev pub ipv4 : ℕ → ℕ → ℕ → ℕ → Bytes
ipv4 a b c d = 0 ∷ 0 ∷ 0 ∷ 0 ∷ 0 ∷ 0 ∷ 0 ∷ 0 ∷ 0 ∷ 0 ∷ 255 ∷ 255 ∷ a ∷ b ∷ c ∷ d ∷ []

-- `uint16(stunMagicCookie>>16)`, and the shifts of the cookie, written as the constants they are.
abbrev pub cookie_high : ℕ
cookie_high = stun_magic_cookie / 2 ^ 16

-- buildBindingRequest, with the twelve random bytes as an argument.
unfoldable pub build_binding_request : Bytes → Bytes
build_binding_request txn_id =
    put_u16 binding_request ++ (put_u16 0 ++ (put_u32 stun_magic_cookie ++ txn_id))

-- `xorIP^stunMagicCookie>>24` and its neighbours: in Go the shift binds tighter than `^`.
abbrev pub xor_octets : ℕ → Bytes
xor_octets xor_ip =
    ipv4 (bit_xor xor_ip (stun_magic_cookie / 2 ^ 24) % 256)
      (bit_xor xor_ip (stun_magic_cookie / 2 ^ 16) % 256)
      (bit_xor xor_ip (stun_magic_cookie / 2 ^ 8) % 256) (bit_xor xor_ip stun_magic_cookie % 256)

-- `ip[i] = attrValue[4+i] ^ xorKey[i]`, for each byte of the key.
unfoldable pub xor_bytes : Bytes → Bytes → Bytes
xor_bytes [] key = []
xor_bytes (b ∷ bs) [] = []
xor_bytes (b ∷ bs) (k ∷ key) = bit_xor b k ∷ xor_bytes bs key

abbrev pub xor_key : Bytes → Bytes
xor_key txn_id = put_u32 stun_magic_cookie ++ txn_id

unfoldable pub parse_xor_mapped_addr : Bytes → Bytes → Result StunError Addr
parse_xor_mapped_addr attr_value txn_id =
    let family = get_or attr_value 0 0 in
    let port = bit_xor (uint16_at attr_value 2) cookie_high in
    if ltb (length attr_value) 4
    then err invalid_response
    else if family == family_ipv4
    then (if ltb (length attr_value) 8
        then err invalid_response
        else ok (record { ip = xor_octets (uint32_at attr_value 4); port = port }))
    else if family == family_ipv6
    then (if ltb (length attr_value) 20
        then err invalid_response
        else ok (record { ip = xor_bytes (slice attr_value 4 20) (xor_key txn_id); port = port }))
    else err invalid_response

unfoldable pub parse_mapped_addr : Bytes → Result StunError Addr
parse_mapped_addr attr_value =
    let family = get_or attr_value 0 0 in
    let port = uint16_at attr_value 2 in
    if ltb (length attr_value) 4
    then err invalid_response
    else if family == family_ipv4
    then (if ltb (length attr_value) 8
        then err invalid_response
        else ok (record {
          ip =
              ipv4 (get_or attr_value 4 0) (get_or attr_value 5 0) (get_or attr_value 6 0)
                (get_or attr_value 7 0);
          port = port;
        }))
    else if family == family_ipv6
    then (if ltb (length attr_value) 20
        then err invalid_response
        else ok (record { ip = slice attr_value 4 20; port = port }))
    else err invalid_response

-- A MAPPED-ADDRESS counts while there is no other address, and if it can be read.
abbrev pub first_mapped : Option Addr → Result StunError Addr → Result StunError (Option Addr)
first_mapped none (ok addr) = ok (some addr)
first_mapped m _ = ok m

-- What an attribute does to `mappedAddr`: only a bad XOR-MAPPED-ADDRESS is an error.
unfoldable pub take_attr : ℕ → Bytes → Bytes → Option Addr → Result StunError (Option Addr)
take_attr attr_type attr_value txn_id mapped =
    if attr_type == attr_xor_mapped
    then (do addr ← parse_xor_mapped_addr attr_value txn_id; ok (some addr))
    else if attr_type == attr_mapped_addr
    then first_mapped mapped (parse_mapped_addr attr_value)
    else ok mapped

abbrev pub padded : ℕ → ℕ
padded attr_len = if attr_len % 4 == 0 then attr_len else attr_len + (4 - attr_len % 4)

-- `offset+stunAttrHeader <= len(data)`, and the attribute that starts there is complete.
unfoldable pub has_attr : Bytes → ℕ → Bool
has_attr msg offset =
    leb (offset + stun_attr_header) (length msg)
    && leb (offset + stun_attr_header + uint16_at msg (offset + 2)) (length msg)

-- What the attribute at `offset` does, and where the next one starts.
unfoldable pub attr_result : Bytes → Bytes → ℕ → Option Addr → Result StunError (Option Addr)
attr_result msg txn_id offset mapped =
    let value_at = offset + stun_attr_header in
    take_attr (uint16_at msg offset) (slice msg value_at (value_at + uint16_at msg (offset + 2)))
      txn_id mapped

unfoldable pub next_offset : Bytes → ℕ → ℕ
next_offset msg offset = offset + (stun_attr_header + padded (uint16_at msg (offset + 2)))

-- The loop over the attributes; `none` means that the fuel ran out.
unfoldable pub parse_attrs :
    ℕ → Bytes → Bytes → ℕ → Option Addr → Option (Result StunError (Option Addr))
parse_attrs zero msg txn_id offset mapped = none
parse_attrs (suc fuel) msg txn_id offset mapped = elim (has_attr msg offset) [
  | false ↦ some (ok mapped)
  | true ↦ elim (attr_result msg txn_id offset mapped) [
    | err e ↦ some (err e)
    | ok mapped' ↦ parse_attrs fuel msg txn_id (next_offset msg offset) mapped'
  ]
]

abbrev pub found : Result StunError (Option Addr) → Result StunError Addr
found (ok (some addr)) = ok addr
found (ok none) = err no_xor_mapped_addr
found (err e) = err e

abbrev pub no_fuel : Option (Result StunError (Option Addr)) → Option (Result StunError Addr)
no_fuel none = none
no_fuel (some r) = some (found r)

-- `uint16(len(data))-stunHeaderSize < msgLen`, in 16 bits.
abbrev pub is_short : Bytes → Bool
is_short msg = ltb ((length msg % 65536 + 65516) % 65536) (uint16_at msg 2)

-- parseBindingResponse. Each attribute takes four bytes at least, so the length is enough fuel.
unfoldable pub parse_binding_response : Bytes → Bytes → Option (Result StunError Addr)
parse_binding_response msg txn_id =
    if ltb (length msg) stun_header_size
    then some (err invalid_response)
    else if not (uint16_at msg 0 == binding_response)
    then some (err (unexpected_type (uint16_at msg 0)))
    else if is_short msg
    then some (err invalid_response)
    else if not (uint32_at msg 4 == stun_magic_cookie)
    then some (err invalid_response)
    else no_fuel (parse_attrs (length msg) msg txn_id stun_header_size none)
