-- ===== src/Prelude/Words.antt =====
-- Bytes and big-endian words, as encoding/binary reads and writes them.
use Prim.Native.Nat.{ℕ, zero, suc, ◌+◌, ◌-◌, ◌*◌, ◌/◌, ◌%◌, ◌<◌}
use mathlib.Core.Path.{◌≡◌, refl}
use mathlib.Core.List.{List, [], ◌∷◌, ◌++◌}
use mathlib.Core.Bool.{Bool, true, false, ◌&&◌}
use mathlib.Core.Logic.{◌↔◌}
use p2p_tun.Prelude.Lists.{get_or, take, drop}
use p2p_tun.Prelude.Tests.{◌==◌}
use native.Mathlib.Omega.{arith}

-- A byte slice is a list of numbers below 256.
abbrev pub Bytes : Type 0
Bytes = List ℕ

abbrev pub IsByte : ℕ → Type 0
IsByte b = b < 256

abbrev pub All {ℓ κ} : {A : Type ℓ} → (A → Type κ) → List A → Type κ
All P [] = Unit
All P (x ∷ xs) = P x × All P xs

pub get_or-IsByte : (b : Bytes) (i : ℕ) → All IsByte b → IsByte (get_or b i 0)
get_or-IsByte [] i w = omega arith
get_or-IsByte (x ∷ b) zero w = w.0
get_or-IsByte (x ∷ b) (suc i) w = get_or-IsByte b i w.1

-- binary.BigEndian.PutUint16 and PutUint32 write the two and four bytes of a word.
abbrev pub put_u16 : ℕ → Bytes
put_u16 v = (v / 256 % 256) ∷ (v % 256) ∷ []

abbrev pub put_u32 : ℕ → Bytes
put_u32 v = (v / 16777216 % 256) ∷ (v / 65536 % 256) ∷ (v / 256 % 256) ∷ (v % 256) ∷ []

-- binary.BigEndian.Uint16 and Uint32 on bytes already taken from the slice.
abbrev pub u16_of : ℕ → ℕ → ℕ
u16_of a b = a * 256 + b

abbrev pub u32_of : ℕ → ℕ → ℕ → ℕ → ℕ
u32_of a b c d = a * 16777216 + b * 65536 + c * 256 + d

pub u16-put : (v : ℕ) → v < 65536 → u16_of (v / 256 % 256) (v % 256) ≡ v
u16-put v h = omega arith

pub u32-put :
    (v : ℕ)
    → v < 4294967296
    → u32_of (v / 16777216 % 256) (v / 65536 % 256) (v / 256 % 256) (v % 256) ≡ v
u32-put v h = omega arith

pub All-append {ℓ κ} :
    {A : Type ℓ} (P : A → Type κ) (xs ys : List A) → All P (xs ++ ys) → All P xs × All P ys
All-append P [] ys h = (tt, h)
All-append P (x ∷ xs) ys h = ((h.0, (All-append P xs ys h.1).0), (All-append P xs ys h.1).1)

-- binary.BigEndian.Uint16(b[i:i+2]) and Uint32(b[i:i+4]), where the slice is long enough.
abbrev pub uint16_at : Bytes → ℕ → ℕ
uint16_at b i = u16_of (get_or b i 0) (get_or b (i + 1) 0)

abbrev pub uint32_at : Bytes → ℕ → ℕ
uint32_at b i = u32_of (get_or b i 0) (get_or b (i + 1) 0) (get_or b (i + 2) 0) (get_or b (i + 3) 0)

-- b[lo:hi], where lo ≤ hi ≤ len(b).
abbrev pub slice : Bytes → ℕ → ℕ → Bytes
slice b lo hi = take (hi - lo) (drop lo b)

-- bytes.Equal
unfoldable pub bytes_eq : Bytes → Bytes → Bool
bytes_eq [] [] = true
bytes_eq [] (y ∷ ys) = false
bytes_eq (x ∷ xs) [] = false
bytes_eq (x ∷ xs) (y ∷ ys) = x == y && bytes_eq xs ys

pub bytes_eq_iff : (a b : Bytes) → (bytes_eq a b ≡ true) ↔ (a ≡ b)
unfolding bytes_eq
bytes_eq_iff [] [] = (λ h. refl, λ h. refl)
bytes_eq_iff [] (y ∷ ys) = (λ h. cc, λ h. cc)
bytes_eq_iff (x ∷ xs) [] = (λ h. cc, λ h. cc)
bytes_eq_iff (x ∷ xs) (y ∷ ys) =
    (λ h. ground (arith, (bytes_eq_iff xs ys).0), λ h. ground (arith, (bytes_eq_iff xs ys).1))
