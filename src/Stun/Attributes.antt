-- ===== src/Stun/Attributes.antt =====
-- The loop of parseBindingResponse over the attributes ends.
use native.Mathlib.Decide.{dec_lt}
use p2p_tun.Prelude.{
  Bool-cases, Bytes, Option, Option-cases, Result, Result-cases, arith, err, inl, inr, length, none,
  ok, refl, some, suc, true, uint16_at, uint32_at, zero, ℕ, ◌*◌, ◌+◌, ◌<◌, ◌≡◌, ◌≢◌, ◌≤◌,
}
use p2p_tun.Stun.{
  Addr, StunError, attr_result, binding_response, found, has_attr, next_offset, parse_attrs,
  parse_binding_response, stun_magic_cookie,
}

attr_fits :
    (msg : Bytes) (offset : ℕ)
    → has_attr msg offset ≡ true
    → (offset + 4 ≤ next_offset msg offset) × (next_offset msg offset ≤ length msg + 3)
unfolding has_attr next_offset
attr_fits msg offset h = ground arith

parse_attrs-some :
    (fuel : ℕ) (msg txn : Bytes) (offset : ℕ) (mapped : Option Addr)
    → offset ≤ length msg + 3
    → length msg + 4 ≤ offset + 4 * fuel
    → (r : Result StunError (Option Addr)) × (parse_attrs fuel msg txn offset mapped ≡ some r)
unfolding parse_attrs
parse_attrs-some zero msg txn offset mapped p q = absurd (omega arith)
parse_attrs-some (suc fuel) msg txn offset mapped p q = elim (Bool-cases (has_attr msg offset)) [
  | inr stop ↦ (ok mapped, rw (stop, parse_attrs) refl)
  | inl go ↦
      let (far, near) = attr_fits msg offset go in
      elim (Result-cases (attr_result msg txn offset mapped)) [
        | inr (e, bad) ↦ (err e, rw (go, bad, parse_attrs) refl)
        | inl (mapped', good) ↦
            rw (go, good, parse_attrs)
              (parse_attrs-some fuel msg txn (next_offset msg offset) mapped' near (omega arith))
      ]
]

parse_binding_response-ne-none : (msg txn : Bytes) → parse_binding_response msg txn ≢ none
unfolding parse_binding_response
parse_binding_response-ne-none msg txn = elim (dec_lt (length msg) 20) [
  | yes short ↦ ground arith
  | no long ↦
      let (r, e) = parse_attrs-some (length msg) msg txn 20 none (omega arith) (omega arith) in
      ground arith
]

-- parseBindingResponse returns on every datagram: the fuel, its length, never runs out.
pub parse_binding_response_total :
    (msg txn : Bytes) → (r : Result StunError Addr) × (parse_binding_response msg txn ≡ some r)
parse_binding_response_total msg txn = elim (Option-cases (parse_binding_response msg txn)) [
  | inl e ↦ absurd (parse_binding_response-ne-none msg txn e)
  | inr found ↦ found
]

-- A response that yields an address has a whole header, the type 0x0101, the magic cookie, and a
-- length field that is no larger than what follows the header; the last part for datagrams of less
-- than 65536 bytes, which UDP does not exceed.
pub parse_binding_response_checks :
    (msg txn : Bytes) (addr : Addr)
    → length msg < 65536
    → parse_binding_response msg txn ≡ some (ok addr)
    → (20 + uint16_at msg 2 ≤ length msg)
      × (uint16_at msg 0 ≡ binding_response)
      × (uint32_at msg 4 ≡ stun_magic_cookie)
unfolding parse_binding_response
parse_binding_response_checks msg txn addr l h = ground arith
