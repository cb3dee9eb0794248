-- ===== src/Prelude/Assoc.antt =====
-- Go maps as association lists, in the order in which `range` meets the entries. Keys are numbers.
use p2p_tun.Prelude.{
  ℕ, ◌≡◌, ◌≢◌, refl, ◌+◌, Bool, true, false, List, [], ◌∷◌, Option, none, some, arith, ◌==◌,
  if◌then◌else◌, length,
}

abbrev pub Assoc {ℓ} : Type ℓ → Type ℓ
Assoc V = List (ℕ × V)

module _ {ℓ} {V : Type ℓ} where
  unfoldable pub lookup : ℕ → Assoc V → Option V
  lookup k [] = none
  lookup k ((j, v) ∷ m) = if j == k then some v else lookup k m

  -- `delete(m, k)`
  unfoldable pub erase : ℕ → Assoc V → Assoc V
  erase k [] = []
  erase k ((j, w) ∷ m) = if j == k then m else (j, w) ∷ erase k m

  abbrev pub has : ℕ → Assoc V → Bool
  has k m = elim (lookup k m) [ none ↦ false | some v ↦ true ]

  -- `m[k] = v`: an entry that is there is replaced.
  unfoldable pub insert : ℕ → V → Assoc V → Assoc V
  insert key new [] = (key, new) ∷ []
  insert key new ((i, old) ∷ rest) =
      if i == key then (key, new) ∷ rest else (i, old) ∷ insert key new rest

  -- Every key is there once, as in any Go map.
  abbrev pub Fresh : ℕ → Assoc V → Type 0
  Fresh k [] = Unit
  Fresh k ((j, v) ∷ m) = (j ≢ k) × Fresh k m

  abbrev pub IsMap : Assoc V → Type 0
  IsMap [] = Unit
  IsMap ((j, v) ∷ m) = Fresh j m × IsMap m

  pub Fresh-lookup : (k : ℕ) (m : Assoc V) → Fresh k m → lookup k m ≡ none
  unfolding lookup
  Fresh-lookup k [] f = refl
  Fresh-lookup k ((j, v) ∷ m) f = ground (arith, Fresh-lookup k m f.1)

  pub lookup-insert :
      (key j : ℕ) (new : V) (m : Assoc V)
      → lookup j (insert key new m) ≡ (if key == j then some new else lookup j m)
  unfolding lookup insert
  lookup-insert key j new [] = refl
  lookup-insert key j new ((i, old) ∷ rest) = ground (arith, lookup-insert key j new rest)

  pub lookup-erase :
      (k j : ℕ) (m : Assoc V)
      → IsMap m
      → lookup j (erase k m) ≡ (if k == j then none else lookup j m)
  unfolding lookup erase
  lookup-erase k j [] w = ground arith
  lookup-erase k j ((i, v) ∷ m) w = ground (arith, lookup-erase k j m w.1, Fresh-lookup i m w.0)

  Fresh-insert : (i k : ℕ) (v : V) (m : Assoc V) → i ≢ k → Fresh i m → Fresh i (insert k v m)
  unfolding insert
  Fresh-insert i k v [] n f = ground arith
  Fresh-insert i k v ((j, w) ∷ m) n f = ground (arith, Fresh-insert i k v m n f.1)

  Fresh-erase : (i k : ℕ) (m : Assoc V) → Fresh i m → Fresh i (erase k m)
  unfolding erase
  Fresh-erase i k [] f = tt
  Fresh-erase i k ((j, w) ∷ m) f = ground (arith, Fresh-erase i k m f.1)

  pub IsMap-insert : (k : ℕ) (v : V) (m : Assoc V) → IsMap m → IsMap (insert k v m)
  unfolding insert
  IsMap-insert k v [] w = (tt, tt)
  IsMap-insert k v ((j, u) ∷ m) w = ground (arith, IsMap-insert k v m w.1, Fresh-insert j k v m)

  pub IsMap-erase : (k : ℕ) (m : Assoc V) → IsMap m → IsMap (erase k m)
  unfolding erase
  IsMap-erase k [] w = tt
  IsMap-erase k ((j, u) ∷ m) w = ground (arith, IsMap-erase k m w.1, Fresh-erase j k m)

  pub length-insert :
      (k : ℕ) (v : V) (m : Assoc V)
      → length (insert k v m) ≡ (if has k m then length m else length m + 1)
  unfolding insert lookup
  length-insert k v [] = omega arith
  length-insert k v ((j, u) ∷ m) = ground (arith, length-insert k v m)

  pub length-erase :
      (k : ℕ) (m : Assoc V) → length (erase k m) + (if has k m then 1 else 0) ≡ length m
  unfolding erase lookup
  length-erase k [] = omega arith
  length-erase k ((j, u) ∷ m) = ground (arith, length-erase k m)

  pub has-insert : (k : ℕ) (v : V) (m : Assoc V) → has k (insert k v m) ≡ true
  unfolding insert lookup
  has-insert k v [] = ground arith
  has-insert k v ((j, w) ∷ m) = ground (arith, has-insert k v m)

  pub erase-insert : (k : ℕ) (v : V) (m : Assoc V) → Fresh k m → erase k (insert k v m) ≡ m
  unfolding insert erase
  erase-insert k v [] f = ground arith
  erase-insert k v ((j, w) ∷ m) f = ground (arith, erase-insert k v m f.1)
