-- ===== src/Plugin/IpFilter.antt =====
-- plugin/ipfilter.go. The parsers of net.ParseCIDR and of the addresses are arguments.
pub mod Decision
use Prim.Native.Nat.{bit_and}
use p2p_tun.Prelude.{
  Bool, Bytes, List, Option, Result, [], drop, err, false, if◌then◌else◌, length, none, not, ok,
  some, true, ◌&&◌, ◌++◌, ◌==◌, ◌>>=◌, ◌||◌, ◌∷◌,
}
use p2p_tun.Stun.Server.{to4}
use p2p_tun.Text.{Text, contains, is_empty, split, text, trim_space}

-- net.IPNet: the network number and the mask, of four or of sixteen bytes.
pub record IpNet : Type 0 where
  pub number : Bytes
  pub mask : Bytes

pub record IpFilter : Type 0 where
  pub allow_nets : List IpNet
  pub deny_nets : List IpNet

pub data FilterError : Type 0 where
  invalid_allow invalid_deny : Text → FilterError

-- `cidr + "/32"` unless there is a slash.
abbrev pub with_mask : Text → Text
with_mask cidr = if contains cidr b'/' then cidr else cidr ++ text "/32"

module _ (parse_cidr : Text → Option IpNet) where
  -- The loop over the pieces of one list. A piece that is empty after the trimming is skipped.
  unfoldable pub parse_nets : (Text → FilterError) → List Text → Result FilterError (List IpNet)
  parse_nets bad [] = ok []
  parse_nets bad (piece ∷ pieces) =
      let rest = parse_nets bad pieces in
      let cidr = with_mask (trim_space piece) in
      if is_empty (trim_space piece) then rest else elim (parse_cidr cidr) [
        | none ↦ err (bad cidr)
        | some ipnet ↦ (do nets ← rest; ok (ipnet ∷ nets))
      ]

  -- `if allow != ""`: an empty text has no pieces.
  unfoldable pub parse_list : (Text → FilterError) → Text → Result FilterError (List IpNet)
  parse_list bad list = if is_empty list then ok [] else parse_nets bad (split b',' list)

  -- NewIPFilter
  unfoldable pub new_ip_filter : Text → Text → Result FilterError IpFilter
  new_ip_filter allow deny = do
    allow_nets ← parse_list invalid_allow allow
    deny_nets ← parse_list invalid_deny deny
    ok (record { allow_nets = allow_nets; deny_nets = deny_nets })

-- `ip & mask == number & mask`, byte for byte.
unfoldable pub masked_eq : Bytes → Bytes → Bytes → Bool
masked_eq (a ∷ ip) (b ∷ number) (m ∷ mask) = bit_and a m == bit_and b m && masked_eq ip number mask
masked_eq [] number mask = true
masked_eq _ _ _ = true

abbrev pub short_form : Bytes → Bytes
short_form ip = elim (to4 ip) [ none ↦ ip | some ip4 ↦ ip4 ]

-- net.networkNumberAndMask: the number in its short form and a mask of the same length, or nothing.
unfoldable pub number_and_mask : IpNet → Bytes × Bytes
number_and_mask n =
    let number = short_form n.number in
    if length n.mask == 4 && length number == 4
    then (number, n.mask)
    else if length n.mask == 16 && length number == 4
    then (number, drop 12 n.mask)
    else if length n.mask == 16 && length number == 16
    then (number, n.mask)
    else ([], [])

-- net.IPNet.Contains: an address of the other family is not contained.
unfoldable pub contains_ip : IpNet → Bytes → Bool
contains_ip n ip =
    let (number, mask) = number_and_mask n in
    length (short_form ip) == length number && masked_eq (short_form ip) number mask

-- The loops `for _, n := range nets { if n.Contains(ip) … }`.
unfoldable pub any_contains : List IpNet → Bytes → Bool
any_contains [] ip = false
any_contains (n ∷ nets) ip = contains_ip n ip || any_contains nets ip

abbrev pub no_nets : List IpNet → Bool
no_nets [] = true
no_nets (n ∷ nets) = false

-- OnAccept, from the address that net.SplitHostPort and net.ParseIP found; `none` is `nil`.
unfoldable pub on_accept : IpFilter → Option Bytes → Bool
on_accept f none = true
on_accept f (some ip) =
    if not (no_nets f.allow_nets) && not (any_contains f.allow_nets ip)
    then false
    else if any_contains f.deny_nets ip
    then false
    else true
