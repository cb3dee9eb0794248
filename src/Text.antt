-- ===== src/Text.antt =====
-- Go strings as lists of code points, with the functions of the package strings that the code calls.
use Prim.Native.Char.{code}
use Prim.Native.String.{String}
use p2p_tun.Prelude.{
  Bool, List, [], bytes_eq, bytes_eq_iff, false, if◌then◌else◌, leb, refl, true, ℕ, ◌&&◌, ◌==◌,
  ◌||◌, ◌↔◌, ◌∷◌, ◌≡◌, ◌≢◌,
}

abbrev pub Text : Type 0
Text = List ℕ

-- The code points of a literal.
abbrev pub text : String → Text
text String.[] = []
text (String.◌∷◌ c s) = code c ∷ text s

unfoldable pub text_eq : Text → Text → Bool
unfolding bytes_eq
text_eq a b = bytes_eq a b

pub text_eq_iff : (a b : Text) → (text_eq a b ≡ true) ↔ (a ≡ b)
unfolding text_eq
text_eq_iff a b = bytes_eq_iff a b

-- unicode.IsSpace
abbrev pub is_space : ℕ → Bool
is_space c =
    (leb 9 c && leb c 13)
    || c == 32
    || c == 0x85
    || c == 0xA0
    || c == 0x1680
    || (leb 0x2000 c && leb c 0x200A)
    || c == 0x2028
    || c == 0x2029
    || c == 0x202F
    || c == 0x205F
    || c == 0x3000

unfoldable pub trim_left : Text → Text
trim_left [] = []
trim_left (c ∷ s) = if is_space c then trim_left s else c ∷ s

abbrev pub is_empty : Text → Bool
is_empty [] = true
is_empty (c ∷ s) = false

unfoldable pub trim_right : Text → Text
trim_right [] = []
trim_right (c ∷ s) = let rest = trim_right s in if is_empty rest && is_space c then [] else c ∷ rest

-- strings.TrimSpace
unfoldable pub trim_space : Text → Text
unfolding trim_left trim_right
trim_space s = trim_right (trim_left s)

-- strings.Split at one character: the pieces, at least one.
unfoldable pub split_at : ℕ → Text → Text × List Text
split_at sep [] = ([], [])
split_at sep (c ∷ s) =
    let (piece, pieces) = split_at sep s in
    if c == sep then ([], piece ∷ pieces) else (c ∷ piece, pieces)

unfoldable pub split : ℕ → Text → List Text
unfolding split_at
split sep s = let (piece, pieces) = split_at sep s in piece ∷ pieces

-- strings.Contains, for one character.
unfoldable pub contains : Text → ℕ → Bool
contains [] c = false
contains (d ∷ s) c = d == c || contains s c

pub is_empty-ne : (s : Text) → s ≢ [] → is_empty s ≡ false
is_empty-ne [] h = absurd (h refl)
is_empty-ne (c ∷ s) h = refl

-- strings.HasPrefix
unfoldable pub has_prefix : Text → Text → Bool
has_prefix s [] = true
has_prefix [] (c ∷ p) = false
has_prefix (d ∷ s) (c ∷ p) = d == c && has_prefix s p
