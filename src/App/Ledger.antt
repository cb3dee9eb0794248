-- ===== src/App/Ledger.antt =====
-- Port mappings made and deleted among the acts of main.go, and held by its threads.
use mathlib.Core.List.{reverse, reverse-cons}
use p2p_tun.Prelude.{
  Bool, List, [], ap, arith, false, if◌then◌else◌, inl, inr, map, refl, suc, true, ℕ, ◌++◌, ◌+◌,
  ◌||◌, ◌∙◌, ◌∷◌, ◌≡◌, ◌⊎◌,
}
use p2p_tun.App.Status.{
  Act, PortMapping, Thread, adds_mapping, closes_stun, deletes_mapping, forwards, keeps_alive,
  serving, waiting,
}

module _ (f : PortMapping → Bool) where
  -- How many of the mappings pass a test; the test is any, so that equal numbers are equal bags.
  abbrev pub count : List PortMapping → ℕ
  count [] = 0
  count (m ∷ ms) = if f m then suc (count ms) else count ms

  abbrev pub added : List Act → ℕ
  added [] = 0
  added (adds_mapping m ∷ acts) = if f m then suc (added acts) else added acts
  added (deletes_mapping m ∷ acts) = added acts
  added (forwards m ∷ acts) = added acts
  added (keeps_alive ∷ acts) = added acts
  added (closes_stun ∷ acts) = added acts

  abbrev pub deleted : List Act → ℕ
  deleted [] = 0
  deleted (adds_mapping m ∷ acts) = deleted acts
  deleted (deletes_mapping m ∷ acts) = if f m then suc (deleted acts) else deleted acts
  deleted (forwards m ∷ acts) = deleted acts
  deleted (keeps_alive ∷ acts) = deleted acts
  deleted (closes_stun ∷ acts) = deleted acts

  -- The mappings whose deletion a waiting tunnel has deferred.
  abbrev pub held : List Thread → ℕ
  held [] = 0
  held (serving ms ∷ ts) = held ts
  held (waiting made ∷ ts) = count made + held ts

abbrev pub serves : List Thread → Bool
serves [] = false
serves (serving ms ∷ ts) = true
serves (waiting made ∷ ts) = serves ts

-- Unless a tunnel serves for ever, every mapping that was made is deleted again, or a tunnel that
-- waits will delete it, or it is one of the k mappings of the tunnel that is running now.
abbrev pub Balanced : (PortMapping → Bool) → ℕ → List Act → List Thread → Type 0
Balanced f k acts threads =
    (serves threads ≡ true) ⊎ (added f acts ≡ deleted f acts + (held f threads + k))

module _ (f : PortMapping → Bool) where
  pub added-append : (acts more : List Act) → added f (acts ++ more) ≡ added f acts + added f more
  added-append [] more = omega arith
  added-append (adds_mapping m ∷ acts) more = ground (arith, added-append acts more)
  added-append (deletes_mapping m ∷ acts) more = added-append acts more
  added-append (forwards m ∷ acts) more = added-append acts more
  added-append (keeps_alive ∷ acts) more = added-append acts more
  added-append (closes_stun ∷ acts) more = added-append acts more

  pub deleted-append :
      (acts more : List Act) → deleted f (acts ++ more) ≡ deleted f acts + deleted f more
  deleted-append [] more = omega arith
  deleted-append (adds_mapping m ∷ acts) more = deleted-append acts more
  deleted-append (deletes_mapping m ∷ acts) more = ground (arith, deleted-append acts more)
  deleted-append (forwards m ∷ acts) more = deleted-append acts more
  deleted-append (keeps_alive ∷ acts) more = deleted-append acts more
  deleted-append (closes_stun ∷ acts) more = deleted-append acts more

  pub held-append : (ts us : List Thread) → held f (ts ++ us) ≡ held f ts + held f us
  held-append [] us = omega arith
  held-append (serving ms ∷ ts) us = held-append ts us
  held-append (waiting made ∷ ts) us = omega (arith, held-append ts us)

  pub count-append : (ms ns : List PortMapping) → count f (ms ++ ns) ≡ count f ms + count f ns
  count-append [] ns = omega arith
  count-append (m ∷ ms) ns = ground (arith, count-append ms ns)

  pub count-reverse : (ms : List PortMapping) → count f (reverse ms) ≡ count f ms
  count-reverse [] = refl
  count-reverse (m ∷ ms) =
      ap (count f) (reverse-cons m ms)
      ∙ count-append (reverse ms) (m ∷ [])
      ∙ ground (arith, count-reverse ms)

  pub added-adds : (ms : List PortMapping) → added f (map adds_mapping ms) ≡ count f ms
  added-adds [] = refl
  added-adds (m ∷ ms) = ground (arith, added-adds ms)

  pub deleted-adds : (ms : List PortMapping) → deleted f (map adds_mapping ms) ≡ 0
  deleted-adds [] = refl
  deleted-adds (m ∷ ms) = deleted-adds ms

  pub added-deletes : (ms : List PortMapping) → added f (map deletes_mapping ms) ≡ 0
  added-deletes [] = refl
  added-deletes (m ∷ ms) = added-deletes ms

  pub deleted-deletes : (ms : List PortMapping) → deleted f (map deletes_mapping ms) ≡ count f ms
  deleted-deletes [] = refl
  deleted-deletes (m ∷ ms) = ground (arith, deleted-deletes ms)

pub serves-append : (ts us : List Thread) → serves (ts ++ us) ≡ (serves ts || serves us)
serves-append [] us = refl
serves-append (serving ms ∷ ts) us = refl
serves-append (waiting made ∷ ts) us = serves-append ts us

or-true : (b : Bool) → (b || true) ≡ true
or-true true = refl
or-true false = refl

module _ (f : PortMapping → Bool) (acts : List Act) (ts : List Thread) where
  pub leave-Balanced :
      (made : List PortMapping)
      → Balanced f (count f made) acts ts
      → Balanced f 0 (acts ++ map deletes_mapping (reverse made)) ts
  leave-Balanced made (inl e) = inl e
  leave-Balanced made (inr e) =
      let gone = map deletes_mapping (reverse made) in
      inr (
        omega (
          arith,
          e,
          added-append f acts gone,
          deleted-append f acts gone,
          added-deletes f (reverse made),
          deleted-deletes f (reverse made),
          count-reverse f made,
        ))

  pub wait-Balanced :
      (made : List PortMapping)
      → Balanced f (count f made) acts ts
      → Balanced f 0 acts (ts ++ waiting made ∷ [])
  wait-Balanced made (inl e) = inl (rw (serves-append ts (waiting made ∷ []), e) refl)
  wait-Balanced made (inr e) = inr (omega (arith, e, held-append f ts (waiting made ∷ [])))

  pub serve-Balanced :
      (ms : List PortMapping) (k : ℕ) (more : List Act) → Balanced f k more (ts ++ serving ms ∷ [])
  serve-Balanced ms k more = inl (serves-append ts (serving ms ∷ []) ∙ or-true (serves ts))

  pub make-Balanced :
      (made : List PortMapping)
      → Balanced f 0 acts ts
      → Balanced f (count f made) (acts ++ map adds_mapping made) ts
  make-Balanced made (inl e) = inl e
  make-Balanced made (inr e) =
      let new = map adds_mapping made in
      inr (
        omega (
          arith,
          e,
          added-append f acts new,
          deleted-append f acts new,
          added-adds f made,
          deleted-adds f made,
        ))

  pub close-Balanced : (k : ℕ) → Balanced f k acts ts → Balanced f k (acts ++ closes_stun ∷ []) ts
  close-Balanced k (inl e) = inl e
  close-Balanced k (inr e) = inr (
      omega (
        arith,
        e,
        added-append f acts (closes_stun ∷ []),
        deleted-append f acts (closes_stun ∷ []),
      ))
