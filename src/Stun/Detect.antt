-- ===== src/Stun/Detect.antt =====
-- BindingRequest and DetectNATType of stun/stun.go. The sockets are outside: what they and the look-up
-- of names return is an argument.
pub mod Verdicts
use p2p_tun.Prelude.{
  Bool, Bytes, Option, Result, bytes_eq, err, guard, if◌then◌else◌, none, not, ok, some, take, ℕ,
  ◌&&◌, ◌==◌, ◌>>=◌, ◌>>◌, ◌||◌,
}
use p2p_tun.Stun.{Addr, StunError, parse_binding_response}

pub data NatType : Type 0 where
  no_nat symmetric port_restricted full_cone : NatType

-- What one call of BindingRequest meets: the random bytes, the look-up of the server, the write with
-- its deadline, and the datagram that arrives within the deadline.
pub record Exchange : Type 0 where
  pub txn_id : Option Bytes
  pub resolves : Bool
  pub written : Bool
  pub datagram : Option Bytes

-- `unread` stands for no error of the code: the parser always has an answer.
pub data RequestError : Type 0 where
  no_random unresolved not_written not_read unread : RequestError
  bad_response : StunError → RequestError

pub data DetectError : Type 0 where
  resolve_failed listen_failed split_failed : DetectError
  first_failed : RequestError → DetectError

abbrev pub or_error {ℓ κ} : {E : Type κ} {A : Type ℓ} → Option A → E → Result E A
or_error none e = err e
or_error (some a) e = ok a

abbrev pub parsed : Option (Result StunError Addr) → Result RequestError Addr
parsed none = err unread
parsed (some (ok addr)) = ok addr
parsed (some (err e)) = err (bad_response e)

-- The size of the buffer that a response is read into.
abbrev pub response_size : ℕ
response_size = 1500

-- BindingRequest
unfoldable pub binding_exchange : Exchange → Result RequestError Addr
binding_exchange x = do
  txn_id ← or_error x.txn_id no_random
  guard x.resolves unresolved
  guard x.written not_written
  datagram ← or_error x.datagram not_read
  parsed (parse_binding_response (take response_size datagram) txn_id)

-- net.IP.Equal, for addresses of sixteen bytes.
abbrev pub ip_equal : Bytes → Bytes → Bool
ip_equal a b = bytes_eq a b

unfoldable pub is_local_port_changed : Addr → Addr → Bool
is_local_port_changed mapped local_addr =
    not (ip_equal mapped.ip local_addr.ip) || not (mapped.port == local_addr.port)

-- The answers that the code asks for, in this order.
pub record Probe : Type 0 where
  pub resolves : Bool
  pub listens : Option Addr
  pub first : Exchange
  pub splits : Bool
  pub second : Exchange

-- The verdict from the second request on.
unfoldable pub second_verdict : Addr → Addr → Result RequestError Addr → NatType
second_verdict local_addr addr1 (err e) =
    if is_local_port_changed addr1 local_addr then symmetric else port_restricted
second_verdict local_addr addr1 (ok addr2) =
    if not (addr1.port == addr2.port) then symmetric else full_cone

abbrev pub or_first_failed : Result RequestError Addr → Result DetectError Addr
or_first_failed (err e) = err (first_failed e)
or_first_failed (ok addr) = ok addr

-- From the split of the server's address on.
abbrev pub second_request : Probe → Addr → Addr → Result DetectError (NatType × Addr)
second_request p local_addr addr1 = do
  guard p.splits split_failed
  ok (second_verdict local_addr addr1 (binding_exchange p.second), addr1)

-- The type and the first address; the socket that goes with them is left out.
unfoldable pub detect_nat_type : Probe → Result DetectError (NatType × Addr)
detect_nat_type p = do
  guard p.resolves resolve_failed
  local_addr ← or_error p.listens listen_failed
  addr1 ← or_first_failed (binding_exchange p.first)
  if ip_equal addr1.ip local_addr.ip && addr1.port == local_addr.port
      then ok (no_nat, addr1)
      else second_request p local_addr addr1
