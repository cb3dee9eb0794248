-- ===== src/App/Ports/Printing.antt =====
-- Numbers and lists of ports in decimal, and parsePorts of main.go on them.
use native.Mathlib.Numerals.{add-one}
use p2p_tun.Prelude.{
  All, Bool-cases, List, Option, [], ap, arith, false, if◌then◌else◌, inl, inr, ltb, none, refl,
  some, suc, tests, zero, ℕ, ◌%◌, ◌*◌, ◌++◌, ◌+◌, ◌-◌, ◌/◌, ◌<◌, ◌^◌, ◌∷◌, ◌≡◌, ◌≢◌, ◌≤◌,
}
use p2p_tun.App.Ports.{atoi, digits_from, is_digit, parse_ports, port_of, ports_of}
use p2p_tun.Text.{Text, is_empty, is_space, split, split_at, trim_left, trim_right, trim_space}

-- strconv.Itoa of a number that is not negative; a round for each digit.
unfoldable pub itoa_fuel : ℕ → ℕ → Text
itoa_fuel zero n = []
itoa_fuel (suc fuel) n =
    let more = itoa_fuel fuel (n / 10) ++ (b'0' + n % 10) ∷ [] in
    if ltb n 10 then (b'0' + n) ∷ [] else more

unfoldable pub itoa : ℕ → Text
unfolding itoa_fuel
itoa n = itoa_fuel (n + 1) n

-- The ports as a user writes them, with commas between them.
abbrev pub written : ℕ → List ℕ → Text
written p [] = itoa p
written p (q ∷ ps) = itoa p ++ b',' ∷ written q ps

abbrev IsDigit : ℕ → Type 0
IsDigit c = (b'0' ≤ c) × (c ≤ b'9')

All-concat : (xs ys : Text) → All IsDigit xs → All IsDigit ys → All IsDigit (xs ++ ys)
All-concat [] ys h k = k
All-concat (x ∷ xs) ys h k = (h.0, All-concat xs ys h.1 k)

itoa_fuel-IsDigit : (fuel n : ℕ) → All IsDigit (itoa_fuel fuel n)
unfolding itoa_fuel
itoa_fuel-IsDigit zero n = tt
itoa_fuel-IsDigit (suc fuel) n = elim (Bool-cases (ltb n 10)) [
  | inl e ↦ rw e ((omega arith, omega (tests, e)), tt)
  | inr e ↦ rw e (
      All-concat (itoa_fuel fuel (n / 10)) ((b'0' + n % 10) ∷ []) (itoa_fuel-IsDigit fuel (n / 10))
        ((omega arith, omega arith), tt))
]

-- Reading on where an earlier piece ended.
read_on : Text → Option ℕ → Option ℕ
read_on s none = none
read_on s (some n) = digits_from n s

digits_from-append : (n : ℕ) (s t : Text) → digits_from n (s ++ t) ≡ read_on t (digits_from n s)
unfolding digits_from read_on
digits_from-append n [] t = refl
digits_from-append n (c ∷ s) t = elim (Bool-cases (is_digit c)) [
  | inl e ↦ rw e (digits_from-append (10 * n + (c - b'0')) s t)
  | inr e ↦ rw e refl
]

digits_from-itoa_fuel : (fuel n : ℕ) → n < fuel → digits_from 0 (itoa_fuel fuel n) ≡ some n
unfolding itoa_fuel
digits_from-itoa_fuel zero n h = absurd (omega arith)
digits_from-itoa_fuel (suc fuel) n h = elim (Bool-cases (ltb n 10)) [
  | inl e ↦ rw e (unfold digits_from in ground arith)
  | inr e ↦
      let ih : digits_from 0 (itoa_fuel fuel (n / 10)) ≡ some (n / 10) =
        digits_from-itoa_fuel fuel (n / 10) (ground arith) in
      rw (e, digits_from-append 0 (itoa_fuel fuel (n / 10)) ((b'0' + n % 10) ∷ []), ih)
        (unfold read_on in unfold digits_from in ground arith)
]

itoa_fuel-ne : (fuel n : ℕ) → itoa_fuel (suc fuel) n ≢ []
unfolding itoa_fuel
itoa_fuel-ne fuel n = elim (Bool-cases (ltb n 10)) [
  | inl e ↦ rw e (λ h. cc)
  | inr e ↦ rw e (append-ne (itoa_fuel fuel (n / 10)) (b'0' + n % 10))
]
  where
    append-ne : (s : Text) (c : ℕ) → s ++ c ∷ [] ≢ []
    append-ne [] c = λ h. cc
    append-ne (d ∷ s) c = λ h. cc

atoi_digits :
    (s : Text) (n : ℕ)
    → All IsDigit s
    → s ≢ []
    → digits_from 0 s ≡ some n
    → n < 2 ^ 63
    → atoi s ≡ some (record { negative = false; size = n })
unfolding atoi
atoi_digits [] n d e h l = absurd (e refl)
atoi_digits (c ∷ s) n d e h l = ground (arith, d.0, h)

-- Texts without blanks.
no_blank : (c : ℕ) → IsDigit c → is_space c ≡ false
no_blank c h = ground (arith, h.0, h.1)

trim_left-digits : (s : Text) → All IsDigit s → trim_left s ≡ s
unfolding trim_left
trim_left-digits [] h = refl
trim_left-digits (c ∷ s) h = rw (no_blank c h.0) refl

trim_right-digits : (s : Text) → All IsDigit s → trim_right s ≡ s
unfolding trim_right
trim_right-digits [] h = refl
trim_right-digits (c ∷ s) h =
    rw (trim_right-digits s h.1, no_blank c h.0)
      (elim (Bool-cases (is_empty s)) [ inl e ↦ rw e refl | inr e ↦ rw e refl ])

-- A port is read back.
port_of-itoa : (p : ℕ) → 0 < p → p ≤ 65535 → port_of (itoa p) ≡ some p
unfolding port_of itoa trim_space
port_of-itoa p pos h =
    let d : All IsDigit (itoa_fuel (p + 1) p) = itoa_fuel-IsDigit (p + 1) p in
    let e : itoa_fuel (p + 1) p ≢ [] = rw add-one (itoa_fuel-ne p p) in
    rw (trim_left-digits (itoa_fuel (p + 1) p) d, trim_right-digits (itoa_fuel (p + 1) p) d)
      (rw
        (atoi_digits (itoa_fuel (p + 1) p) p d e (digits_from-itoa_fuel (p + 1) p (omega arith))
          (omega arith))
        (ground arith))

split_at-digits : (s : Text) → All IsDigit s → split_at b',' s ≡ (s, [])
unfolding split_at
split_at-digits [] h = refl
split_at-digits (c ∷ s) h = ground (arith, h.0, split_at-digits s h.1)

split_at-append : (s t : Text) → All IsDigit s → split_at b',' (s ++ b',' ∷ t) ≡ (s, split b',' t)
unfolding split_at split
split_at-append [] t h = refl
split_at-append (c ∷ s) t h = ground (arith, h.0, split_at-append s t h.1)

-- A port number that TCP and UDP have.
abbrev pub IsPort : ℕ → Type 0
IsPort p = (0 < p) × (p ≤ 65535)

ports_of-written :
    (p : ℕ) (ps : List ℕ) → IsPort p → All IsPort ps → ports_of (split b',' (written p ps)) ≡ p ∷ ps
unfolding ports_of split itoa
ports_of-written p [] h w =
    rw (split_at-digits (itoa p) (itoa_fuel-IsDigit (p + 1) p), port_of-itoa p h.0 h.1) refl
ports_of-written p (q ∷ ps) h w =
    rw
      (
        split_at-append (itoa p) (written q ps) (itoa_fuel-IsDigit (p + 1) p),
        port_of-itoa p h.0 h.1,
      )
      (ap (◌∷◌ p) (ports_of-written q ps w.0 w.1))

-- parsePorts reads back any list of ports that is written with commas.
pub parse_ports-written :
    (p : ℕ) (ps : List ℕ) → IsPort p → All IsPort ps → parse_ports (written p ps) ≡ p ∷ ps
unfolding parse_ports
parse_ports-written p ps h w = rw (ports_of-written p ps h w) refl
