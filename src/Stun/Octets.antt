-- ===== src/Stun/Octets.antt =====
-- The octets of an IPv4 address in parseXORMappedAddr: the shifts of the cookie bind tighter than
-- `^`, so the address itself is never shifted.
use p2p_tun.Prelude.{
  All, Bytes, IsByte, [], arith, bit_xor, get_or, get_or-IsByte, length, ok, put_u16, put_u32, refl,
  take_all, u16-put, u32_of, uint16_at, ℕ, ◌%◌, ◌++◌, ◌<◌, ◌^◌, ◌∙◌, ◌∷◌, ◌≡◌, ◌≤◌,
}
use p2p_tun.Prelude.Xor.{bit_xor-lt, bit_xor-mod, bit_xor_twice}
use p2p_tun.Stun.{
  Addr, cookie_high, family_ipv4, family_ipv6, ipv4, parse_xor_mapped_addr, stun_magic_cookie,
  xor_bytes, xor_key,
}

-- The low byte of an exclusive or with a word is a matter of the low bytes.
low_octet : (a b c d k : ℕ) → d < 256 → bit_xor (u32_of a b c d) k % 256 ≡ bit_xor d (k % 256)
low_octet a b c d k h =
    let e : u32_of a b c d % 256 ≡ d = omega arith in rw (bit_xor-mod 8 (u32_of a b c d) k, e) refl

-- For every attribute with the family of IPv4 in its first byte and at least eight bytes, the four
-- octets that parseXORMappedAddr returns are its eighth byte with the four bytes of the cookie. The
-- bytes five to seven of the attribute, three quarters of the address, are ignored.
pub parse_xor_mapped_addr_octets :
    (attr txn : Bytes)
    → All IsByte attr
    → get_or attr 0 0 ≡ family_ipv4
    → 8 ≤ length attr
    → let x = get_or attr 7 0 in
      parse_xor_mapped_addr attr txn
      ≡ ok (record {
        ip = ipv4 (bit_xor x 0x21) (bit_xor x 0x12) (bit_xor x 0xA4) (bit_xor x 0x42);
        port = bit_xor (uint16_at attr 2) cookie_high;
      })
unfolding parse_xor_mapped_addr
parse_xor_mapped_addr_octets attr txn w f l = ground (
  arith,
  get_or-IsByte attr 7 w,
  low_octet (get_or attr 4 0) (get_or attr 5 0) (get_or attr 6 0) (get_or attr 7 0) 0x21,
  low_octet (get_or attr 4 0) (get_or attr 5 0) (get_or attr 6 0) (get_or attr 7 0) 0x2112,
  low_octet (get_or attr 4 0) (get_or attr 5 0) (get_or attr 6 0) (get_or attr 7 0) 0x2112A4,
  low_octet (get_or attr 4 0) (get_or attr 5 0) (get_or attr 6 0) (get_or attr 7 0) 0x2112A442,
)

-- The attribute in the layout that parseXORMappedAddr reads: the family in the first byte.
abbrev pub xor_attr_v4 : ℕ → ℕ → Bytes
xor_attr_v4 ip port =
    family_ipv4 ∷ 0 ∷ (put_u16 (bit_xor port cookie_high) ++ put_u32 (bit_xor ip stun_magic_cookie))

pub xor_port :
    (port : ℕ)
    → port < 2 ^ 16
    → bit_xor (uint16_at (put_u16 (bit_xor port cookie_high)) 0) cookie_high ≡ port
xor_port port h =
    rw (u16-put (bit_xor port cookie_high) (bit_xor-lt 16 port cookie_high h (omega arith)))
      (bit_xor_twice port cookie_high)

xor_attr_v4-IsByte : (ip port : ℕ) → All IsByte (xor_attr_v4 ip port)
xor_attr_v4-IsByte ip port = omega arith

abbrev v4_from : ℕ → ℕ → Addr
v4_from x port = record {
  ip = ipv4 (bit_xor x 0x21) (bit_xor x 0x12) (bit_xor x 0xA4) (bit_xor x 0x42);
  port = port;
}

parse_xor_attr_v4 :
    (ip port : ℕ) (txn : Bytes)
    → port < 2 ^ 16
    → parse_xor_mapped_addr (xor_attr_v4 ip port) txn ≡ ok (v4_from (bit_xor (ip % 256) 0x42) port)
parse_xor_attr_v4 ip port txn p =
    parse_xor_mapped_addr_octets (xor_attr_v4 ip port) txn (xor_attr_v4-IsByte ip port) refl
      (omega arith)
    ∙ rw (xor_port port p, bit_xor-mod 8 ip stun_magic_cookie) refl

-- Even in that layout only the port comes back. Two addresses with one last octet are read alike,
-- whatever their other octets are.
pub parse_xor_mapped_addr_confuses :
    (ip ip' port : ℕ) (txn : Bytes)
    → port < 2 ^ 16
    → ip % 256 ≡ ip' % 256
    → (parse_xor_mapped_addr (xor_attr_v4 ip port) txn
        ≡ parse_xor_mapped_addr (xor_attr_v4 ip' port) txn)
      × ((a : Addr) × (parse_xor_mapped_addr (xor_attr_v4 ip port) txn ≡ ok a) × (a.port ≡ port))
parse_xor_mapped_addr_confuses ip ip' port txn p e = (
  rw (parse_xor_attr_v4 ip port txn p, parse_xor_attr_v4 ip' port txn p, e) refl,
  (v4_from (bit_xor (ip % 256) 0x42) port, parse_xor_attr_v4 ip port txn p, refl),
)

xor_bytes_twice : (b key : Bytes) → length b ≤ length key → xor_bytes (xor_bytes b key) key ≡ b
unfolding xor_bytes
xor_bytes_twice [] key h = refl
xor_bytes_twice (b ∷ bs) [] h = absurd (omega arith)
xor_bytes_twice (b ∷ bs) (k ∷ key) h = rw (bit_xor_twice, xor_bytes_twice bs key (omega arith)) refl

length-xor_bytes : (b key : Bytes) → length b ≤ length key → length (xor_bytes b key) ≡ length b
unfolding xor_bytes
length-xor_bytes [] key h = refl
length-xor_bytes (b ∷ bs) [] h = absurd (omega arith)
length-xor_bytes (b ∷ bs) (k ∷ key) h = omega (arith, length-xor_bytes bs key (omega arith))

abbrev pub xor_attr_v6 : Bytes → ℕ → Bytes → Bytes
xor_attr_v6 ip port txn =
    family_ipv6 ∷ 0 ∷ (put_u16 (bit_xor port cookie_high) ++ xor_bytes ip (xor_key txn))

parse_xor_attr_v6 :
    (x : Bytes) (xp : ℕ) (txn : Bytes)
    → length x ≡ 16
    → parse_xor_mapped_addr (family_ipv6 ∷ 0 ∷ (put_u16 xp ++ x)) txn
      ≡ ok (record {
        ip = xor_bytes x (xor_key txn);
        port = bit_xor (uint16_at (put_u16 xp) 0) cookie_high;
      })
unfolding parse_xor_mapped_addr
parse_xor_attr_v6 x xp txn h = ground (arith, take_all 16 x)

-- Of an IPv6 address, in the layout with the family first, both the address and the port come back.
pub parse_xor_mapped_addr_v6 :
    (ip : Bytes) (port : ℕ) (txn : Bytes)
    → length ip ≡ 16
    → length txn ≡ 12
    → port < 2 ^ 16
    → parse_xor_mapped_addr (xor_attr_v6 ip port txn) txn ≡ ok (record { ip = ip; port = port })
parse_xor_mapped_addr_v6 ip port txn l t p =
    parse_xor_attr_v6 (xor_bytes ip (xor_key txn)) (bit_xor port cookie_high) txn
      (length-xor_bytes ip (xor_key txn) (omega arith) ∙ l)
    ∙ rw (xor_port port p, xor_bytes_twice ip (xor_key txn) (omega arith)) refl
