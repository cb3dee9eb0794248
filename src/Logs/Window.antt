-- ===== src/Logs/Window.antt =====
-- The last entries of a sequence, which the buffers of logutil/logutil.go keep.
use native.Mathlib.Nat.{add-zero, zero-add}
use p2p_tun.Prelude.{
  Bool-cases, List, [], ap, arith, drop, inl, inr, length, length-append, length-drop, ltb, refl,
  suc, sym, zero, ℕ, ◌++◌, ◌+◌, ◌-◌, ◌∷◌, ◌≡◌, ◌≤◌,
}
use p2p_tun.Logs.{cut_to}

abbrev pub latest {ℓ} : {A : Type ℓ} → ℕ → List A → List A
latest n xs = drop (length xs - n) xs

module _ {ℓ} {A : Type ℓ} where
  drop-append_left : (xs ys : List A) (i : ℕ) → i ≤ length xs → drop i (xs ++ ys) ≡ drop i xs ++ ys
  drop-append_left xs ys zero h = refl
  drop-append_left [] ys (suc i) h = absurd (omega arith)
  drop-append_left (x ∷ xs) ys (suc i) h = drop-append_left xs ys i (omega arith)

  drop-drop : (i j : ℕ) (xs : List A) → drop i (drop j xs) ≡ drop (j + i) xs
  drop-drop i zero xs = rw zero-add refl
  drop-drop zero (suc j) [] = rw add-zero refl
  drop-drop (suc i) (suc j) [] = let e : suc j + suc i ≡ suc (j + suc i) = omega arith in rw e refl
  drop-drop i (suc j) (x ∷ xs) =
      let e : suc j + i ≡ suc (j + i) = omega arith in rw e (drop-drop i j xs)

  pub cut_to-latest : (n : ℕ) (xs : List A) → cut_to n xs ≡ latest n xs
  unfolding cut_to
  cut_to-latest n xs = elim (Bool-cases (ltb n (length xs))) [
    | inl e ↦ rw (cut_to, e) refl
    | inr e ↦ let z : length xs - n ≡ 0 = ground arith in rw (cut_to, e) (rw z refl)
  ]

  -- What was cut off earlier would be cut off now.
  pub latest-append : (n : ℕ) (xs ys : List A) → latest n (latest n xs ++ ys) ≡ latest n (xs ++ ys)
  latest-append n xs ys =
      let j = length xs - n in
      let e : latest n xs ++ ys ≡ drop j (xs ++ ys) =
        sym (drop-append_left xs ys j (omega arith)) in
      rw (e, length-drop, drop-drop)
        (ap (λ (k : ℕ). drop k (xs ++ ys)) (omega (arith, length-append xs ys)))
