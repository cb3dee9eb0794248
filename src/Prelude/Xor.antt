-- ===== src/Prelude/Xor.antt =====
-- Exclusive or at variables: the digit recursion, the involution, and its range.
use Prim.Native.Nat.{digits, differ, bit_xor-bitwise}
use native.Mathlib.Nat.{pow-suc, div-add-mod, mod-one, one-le-pow}
use mathlib.Core.Path.{ap₂}
use p2p_tun.Prelude.{ℕ, zero, suc, ◌+◌, ◌*◌, ◌/◌, ◌%◌, ◌^◌, ◌≤◌, ◌<◌, bit_xor, ◌≡◌, refl, ap, arith}

abbrev xor_digits : ℕ → ℕ → ℕ → ℕ
xor_digits n a b = digits (λ b. b) differ n a b

xor_digits_fuel : (n m a b : ℕ) → a ≤ n → a ≤ m → xor_digits n a b ≡ xor_digits m a b
xor_digits_fuel zero zero a b p q = refl
xor_digits_fuel zero (suc m) zero b p q = refl
xor_digits_fuel zero (suc m) (suc a) b p q = absurd (omega arith)
xor_digits_fuel (suc n) zero zero b p q = refl
xor_digits_fuel (suc n) zero (suc a) b p q = absurd (omega arith)
xor_digits_fuel (suc n) (suc m) zero b p q = refl
xor_digits_fuel (suc n) (suc m) (suc a) b p q =
    omega (arith, xor_digits_fuel n m (suc a / 2) (b / 2) (omega arith) (omega arith))

differ_bits : (x y : ℕ) → x < 2 → y < 2 → differ x y ≡ (x + y) % 2
differ_bits zero y p q = omega arith
differ_bits (suc zero) zero p q = refl
differ_bits (suc zero) (suc zero) p q = refl
differ_bits (suc zero) (suc (suc y)) p q = absurd (omega arith)
differ_bits (suc (suc x)) y p q = absurd (omega arith)

zero-bit_xor : (b : ℕ) → bit_xor 0 b ≡ b
zero-bit_xor b = bit_xor-bitwise 0 b

-- The lowest digit, and the rest.
pub bit_xor_step : (a b : ℕ) → bit_xor a b ≡ bit_xor (a / 2) (b / 2) * 2 + (a % 2 + b % 2) % 2
bit_xor_step zero b = omega (arith, zero-bit_xor b, zero-bit_xor (b / 2))
bit_xor_step (suc a) b = omega (
  arith,
  bit_xor-bitwise (suc a) b,
  bit_xor-bitwise (suc a / 2) (b / 2),
  xor_digits_fuel a (suc a / 2) (suc a / 2) (b / 2) (omega arith) (omega arith),
  differ_bits (suc a % 2) (b % 2) (omega arith) (omega arith),
)

bit_xor_twice_fuel : (n a b : ℕ) → a + b ≤ n → bit_xor (bit_xor a b) b ≡ a
bit_xor_twice_fuel zero zero zero h = refl
bit_xor_twice_fuel zero zero (suc b) h = absurd (omega arith)
bit_xor_twice_fuel zero (suc a) b h = absurd (omega arith)
bit_xor_twice_fuel (suc n) a b h =
    let half : bit_xor a b / 2 ≡ bit_xor (a / 2) (b / 2) = omega (arith, bit_xor_step a b) in
    let ih : bit_xor (bit_xor a b / 2) (b / 2) ≡ a / 2 =
      rw half (bit_xor_twice_fuel n (a / 2) (b / 2) (omega arith)) in
    omega (arith, bit_xor_step a b, bit_xor_step (bit_xor a b) b, ih)

pub bit_xor_twice : (a b : ℕ) → bit_xor (bit_xor a b) b ≡ a
bit_xor_twice a b = bit_xor_twice_fuel (a + b) a b (omega arith)

-- The exclusive or of two words is a word.
pub bit_xor-lt : (w a b : ℕ) → a < 2 ^ w → b < 2 ^ w → bit_xor a b < 2 ^ w
bit_xor-lt zero zero zero p q = omega arith
bit_xor-lt zero zero (suc b) p q = absurd (omega arith)
bit_xor-lt zero (suc a) b p q = absurd (omega arith)
bit_xor-lt (suc w) a b p q = omega (
  arith,
  pow-suc 2 w,
  bit_xor_step a b,
  bit_xor-lt w (a / 2) (b / 2) (omega (arith, pow-suc 2 w)) (omega (arith, pow-suc 2 w)),
)

double_mod : (q r m : ℕ) → r < 2 → 0 < m → (q * 2 + r) % (m * 2) ≡ q % m * 2 + r
double_mod q r m h p = grind (arith, div-add-mod)

-- The low digits of a number split as the number does.
low_split : (a m : ℕ) → 0 < m → (a % (m * 2) / 2 ≡ a / 2 % m) × (a % (m * 2) % 2 ≡ a % 2)
low_split a m p =
    let e : a % (m * 2) ≡ a / 2 % m * 2 + a % 2 =
      rw (← double_mod (a / 2) (a % 2) m (omega arith) p)
        (ap (λ (t : ℕ). t % (m * 2)) (omega arith)) in
    rw e (omega arith, omega arith)

-- The low digits of an exclusive or are those of the low digits.
pub bit_xor-mod : (w a b : ℕ) → bit_xor a b % 2 ^ w ≡ bit_xor (a % 2 ^ w) (b % 2 ^ w)
bit_xor-mod zero a b = simp mod-one
bit_xor-mod (suc w) a b =
    let m = 2 ^ w in
    let pos : 0 < m = one-le-pow w 2 (omega arith) in
    let (ha, la) = low_split a m pos in
    let (hb, lb) = low_split b m pos in
    rw pow-suc (
      rw
        (
          bit_xor_step a b,
          double_mod (bit_xor (a / 2) (b / 2)) ((a % 2 + b % 2) % 2) m (omega arith) pos,
        )
        (omega (
          arith,
          bit_xor_step (a % (m * 2)) (b % (m * 2)),
          ap₂ bit_xor ha hb,
          bit_xor-mod w (a / 2) (b / 2),
        )))
