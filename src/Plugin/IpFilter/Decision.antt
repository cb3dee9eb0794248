-- ===== src/Plugin/IpFilter/Decision.antt =====
-- Which addresses an IP filter lets in.
use mathlib.Core.Logic.Or
use mathlib.Core.Bool.{Bool-set}
use mathlib.Core.List.{Mem, mem-cons, mem-cons_of_mem, mem-cons_self, not-mem-nil}
use mathlib.Core.Logic.{∥∥₁_elim, ∥∥₁_map}
use p2p_tun.Prelude.{
  Bool-cases, Bytes, List, Option, [], arith, false, inl, inr, none, ok, refl, some, true, ◌++◌,
  ◌>>=◌, ◌↔◌, ◌∷◌, ◌≡◌, ◌≢◌, ◌⊎◌,
}
use p2p_tun.Plugin.IpFilter.{
  FilterError, IpFilter, IpNet, any_contains, contains_ip, invalid_allow, new_ip_filter, no_nets,
  on_accept, parse_list, parse_nets,
}
use p2p_tun.Text.{Text, contains, is_empty-ne, split, text, trim_space}

-- Some network of the list contains the address.
abbrev pub Covered : List IpNet → Bytes → Type 0
Covered nets ip = ∥ ((n : IpNet) × Mem n nets × (contains_ip n ip ≡ true)) ∥₁

any_contains-Covered :
    (nets : List IpNet) (ip : Bytes) → any_contains nets ip ≡ true → Covered nets ip
unfolding any_contains
any_contains-Covered [] ip h = cc
any_contains-Covered (n ∷ nets) ip h = elim (Bool-cases (contains_ip n ip)) [
  | inl hit ↦ ∣ (n, mem-cons_self, hit) ∣₁
  | inr miss ↦
      ∥∥₁_map (any_contains-Covered nets ip (ground arith))
        λ found. (found.0, mem-cons_of_mem _ found.1, found.2)
]

any_contains-mem :
    (nets : List IpNet) (n : IpNet) (ip : Bytes)
    → Mem n nets
    → contains_ip n ip ≡ true
    → any_contains nets ip ≡ true
unfolding any_contains
any_contains-mem [] n ip m h = absurd (not-mem-nil m)
any_contains-mem (x ∷ nets) n ip m h =
    Or.elim (Bool-set _ _) (mem-cons.0 m) (λ e. ground arith)
      (λ later. ground (arith, any_contains-mem nets n ip later h))

Covered-any_contains :
    (nets : List IpNet) (ip : Bytes) → Covered nets ip → any_contains nets ip ≡ true
Covered-any_contains nets ip c =
    ∥∥₁_elim c (Bool-set _ _) λ found. any_contains-mem nets found.0 ip found.1 found.2

Covered-cases :
    (nets : List IpNet) (ip : Bytes)
    → ((any_contains nets ip ≡ true) × Covered nets ip)
      ⊎ ((any_contains nets ip ≡ false) × ¬ Covered nets ip)
Covered-cases nets ip = elim (Bool-cases (any_contains nets ip)) [
  | inl e ↦ inl (e, any_contains-Covered nets ip e)
  | inr e ↦ inr (e, λ c. cc (Covered-any_contains nets ip c))
]

no_nets-eq_nil :
    (nets : List IpNet) → (no_nets nets ≡ true) × (nets ≡ []) ⊎ (no_nets nets ≡ false) × (nets ≢ [])
no_nets-eq_nil [] = inl (refl, refl)
no_nets-eq_nil (n ∷ nets) = inr (refl, λ e. cc)

abbrev pub Passes : IpFilter → Bytes → Type 0
Passes f ip = ((f.allow_nets ≡ []) ⊎ Covered f.allow_nets ip) × (¬ Covered f.deny_nets ip)

-- An address that can be read passes exactly when the whitelist is empty or one of its networks
-- contains the address, and no network of the blacklist does, so that the blacklist wins.
pub on_accept_iff : (f : IpFilter) (ip : Bytes) → (on_accept f (some ip) ≡ true) ↔ Passes f ip
unfolding on_accept
on_accept_iff f ip = elim (no_nets-eq_nil f.allow_nets) [
  | inl (a, e) ↦ elim (Covered-cases f.deny_nets ip) [
    | inl (d, c) ↦ (λ h. ground arith, λ h. absurd (h.1 c))
    | inr (d, c) ↦ (λ h. (inl e, c), λ h. ground arith)
  ]
  | inr (a, n) ↦ elim (Covered-cases f.allow_nets ip) [
    | inr (w, v) ↦
        (λ h. ground arith, λ h. elim h.0 [ inl e ↦ absurd (n e) | inr c ↦ absurd (v c) ])
    | inl (w, v) ↦ elim (Covered-cases f.deny_nets ip) [
      | inl (d, c) ↦ (λ h. ground arith, λ h. absurd (h.1 c))
      | inr (d, c) ↦ (λ h. (inr v, c), λ h. ground arith)
    ]
  ]
]

-- Every piece of the text is white space.
abbrev pub AllBlank : List Text → Type 0
AllBlank [] = Unit
AllBlank (p ∷ ps) = (trim_space p ≡ []) × AllBlank ps

on_accept_no_nets :
    (ip : Option Bytes) → on_accept (record { allow_nets = []; deny_nets = [] }) ip ≡ true
unfolding on_accept any_contains
on_accept_no_nets none = refl
on_accept_no_nets (some ip) = refl

module _ (parse_cidr : Text → Option IpNet) where
  parse_nets_blank :
      (bad : Text → FilterError) (ps : List Text)
      → AllBlank ps
      → parse_nets parse_cidr bad ps ≡ ok []
  unfolding parse_nets
  parse_nets_blank bad [] b = refl
  parse_nets_blank bad (p ∷ ps) b = rw (b.0, parse_nets_blank bad ps b.1) refl

  parse_list_blank :
      (bad : Text → FilterError) (list : Text)
      → AllBlank (split b',' list)
      → parse_list parse_cidr bad list ≡ ok []
  unfolding parse_list
  parse_list_blank bad list b = ground (arith, parse_nets_blank bad (split b',' list) b)

  -- A whitelist of commas and spaces alone is no whitelist: with no blacklist every address passes,
  -- though the operator asked for a filter.
  pub blank_whitelist :
      (allow : Text) (ip : Option Bytes)
      → allow ≢ []
      → AllBlank (split b',' allow)
      → (f : IpFilter) × (new_ip_filter parse_cidr allow [] ≡ ok f) × (on_accept f ip ≡ true)
  unfolding new_ip_filter
  blank_whitelist allow ip n b = (
    record { allow_nets = []; deny_nets = [] },
    rw (parse_list_blank invalid_allow allow b) (unfold parse_list in refl),
    on_accept_no_nets ip,
  )

  -- A piece with no slash is read with "/32", also where it is an IPv6 address, so that the network
  -- that a bare IPv6 address stands for is the one of its first 32 bits.
  pub bare_piece :
      (bad : Text → FilterError) (piece : Text) (pieces : List Text) (n : IpNet)
      → trim_space piece ≢ []
      → contains (trim_space piece) b'/' ≡ false
      → parse_cidr (trim_space piece ++ text "/32") ≡ some n
      → parse_nets parse_cidr bad (piece ∷ pieces)
        ≡ (parse_nets parse_cidr bad pieces >>= λ nets. ok (n ∷ nets))
  unfolding parse_nets
  bare_piece bad piece pieces n h c e = rw (is_empty-ne (trim_space piece) h, c, e) refl
