-- ===== src/Forward/Goroutines.antt =====
-- The goroutines of ForwardUDP of forward/forward.go, each on its own.
use mathlib.Core.List.{append-nil, append_assoc}
use native.Mathlib.Nat.{sub-zero}
use p2p_tun.Prelude.{
  Bool-cases, Bytes, List, Option-cases, [], ap, arith, drop, false, get_elem?, get_elem?-set_ne,
  get_elem?-set_self, if◌then◌else◌, inl, inr, length, length-append, length-set, ltb, none, refl,
  some, suc, sym, take, take-append, true, zero, ℕ, ◌&&◌, ◌++◌, ◌+◌, ◌-◌, ◌<◌, ◌==◌, ◌∙◌, ◌∷◌, ◌≡◌,
  ◌≢◌, ◌≤◌,
}
use p2p_tun.Forward.{
  Act, Forwarder, Outcome, Task, Turn, advance, arrives, fill, max_datagram, move_task, moves,
  new_forwarder, receive, start_task, tag, turn, turns,
}

-- The datagrams that ForwardUDP reads.
abbrev pub arrivals : List Turn → List (ℕ × Bytes)
arrivals [] = []
arrivals (arrives none ∷ ts) = arrivals ts
arrivals (arrives (some d) ∷ ts) = d ∷ arrivals ts
arrivals (moves i o ∷ ts) = arrivals ts

-- What the calls of the i-th goroutine return, from its start on, when n goroutines were started.
abbrev pub outcomes_of : ℕ → ℕ → List Turn → List Outcome
outcomes_of i n [] = []
outcomes_of i n (arrives none ∷ ts) = outcomes_of i n ts
outcomes_of i n (arrives (some d) ∷ ts) = outcomes_of i (n + 1) ts
outcomes_of i n (moves j o ∷ ts) =
    let later = outcomes_of i n ts in if ltb i n && j == i then o ∷ later else later

abbrev pub acts_of : ℕ → List (ℕ × Act) → List Act
acts_of i [] = []
acts_of i ((j, a) ∷ log) = let later = acts_of i log in if j == i then a ∷ later else later

-- One goroutine alone.
abbrev pub carry : Task → List Outcome → List Act
carry t [] = []
carry t (o ∷ os) = (advance o t).1 ++ carry (advance o t).0 os

acts_of-append :
    (i : ℕ) (log more : List (ℕ × Act)) → acts_of i (log ++ more) ≡ acts_of i log ++ acts_of i more
acts_of-append i [] more = refl
acts_of-append i ((j, a) ∷ log) more = elim (Bool-cases (j == i)) [
  | inl e ↦ rw e (ap (λ rest. a ∷ rest) (acts_of-append i log more))
  | inr e ↦ rw e (acts_of-append i log more)
]

acts_of-tag : (i : ℕ) (acts : List Act) → acts_of i (tag i acts) ≡ acts
acts_of-tag i [] = refl
acts_of-tag i (a ∷ acts) = let e : (i == i) ≡ true = ground arith in rw (e, acts_of-tag i acts) refl

acts_of-tag_ne : (i j : ℕ) (acts : List Act) → i ≢ j → acts_of i (tag j acts) ≡ []
acts_of-tag_ne i j [] n = refl
acts_of-tag_ne i j (a ∷ acts) n =
    let e : (j == i) ≡ false = ground arith in rw e (acts_of-tag_ne i j acts n)

get_elem?-last : {A : Type 0} (xs : List A) (x : A) → get_elem? (xs ++ x ∷ []) (length xs) ≡ some x
get_elem?-last [] x = refl
get_elem?-last (y ∷ xs) x = get_elem?-last xs x

get_elem?-front :
    {A : Type 0} (xs : List A) (i : ℕ) (x y : A)
    → get_elem? xs i ≡ some y
    → get_elem? (xs ++ x ∷ []) i ≡ some y
get_elem?-front [] i x y e = absurd (cc e)
get_elem?-front (z ∷ xs) zero x y e = e
get_elem?-front (z ∷ xs) (suc i) x y e = get_elem?-front xs i x y e

get_elem?-bound :
    {A : Type 0} (xs : List A) (i : ℕ) (y : A) → get_elem? xs i ≡ some y → i < length xs
get_elem?-bound [] i y e = absurd (cc e)
get_elem?-bound (z ∷ xs) zero y e = omega arith
get_elem?-bound (z ∷ xs) (suc i) y e = omega (arith, get_elem?-bound xs i y e)

received :
    (d : Bytes) (buf : Bytes)
    → take (length (take max_datagram d)) (fill d buf) ≡ take max_datagram d
received d buf = take-append (take max_datagram d) (drop (length (take max_datagram d)) buf)

-- A move of another goroutine changes neither the goroutine nor what it did.
move_task_other :
    (i j : ℕ) (o : Outcome) (s : Forwarder)
    → i ≢ j
    → (get_elem? (move_task j o s).tasks i ≡ get_elem? s.tasks i)
      × (acts_of i (move_task j o s).log ≡ acts_of i s.log)
unfolding move_task
move_task_other i j o s n = elim (Option-cases (get_elem? s.tasks j)) [
  | inl e ↦ rw (move_task, e) (refl, refl)
  | inr (t, e) ↦
      let acts = (advance o t).1 in
      rw (move_task, e)
        (
          get_elem?-set_ne s.tasks (advance o t).0 (λ q. n (sym q)),
          acts_of-append i s.log (tag j acts) ∙ rw (acts_of-tag_ne i j acts n, append-nil) refl,
        )
]

move_task-length :
    (j : ℕ) (o : Outcome) (s : Forwarder) → length (move_task j o s).tasks ≡ length s.tasks
unfolding move_task
move_task-length j o s = elim (Option-cases (get_elem? s.tasks j)) [
  | inl e ↦ rw (move_task, e) refl
  | inr (t, e) ↦ rw (move_task, e) (length-set s.tasks j (advance o t).0)
]

move_task_self :
    (i : ℕ) (o : Outcome) (s : Forwarder) (t : Task)
    → get_elem? s.tasks i ≡ some t
    → (get_elem? (move_task i o s).tasks i ≡ some (advance o t).0)
      × (acts_of i (move_task i o s).log ≡ acts_of i s.log ++ (advance o t).1)
unfolding move_task
move_task_self i o s t e =
    rw (move_task, e)
      (
        get_elem?-set_self s.tasks i (advance o t).0 (get_elem?-bound s.tasks i t e),
        acts_of-append i s.log (tag i (advance o t).1)
            ∙ ap (λ more. acts_of i s.log ++ more) (acts_of-tag i (advance o t).1),
      )

move_task_unstarted :
    (i j : ℕ) (o : Outcome) (s : Forwarder)
    → length s.tasks ≤ i
    → acts_of i (move_task j o s).log ≡ acts_of i s.log
unfolding move_task
move_task_unstarted i j o s h = elim (Option-cases (get_elem? s.tasks j)) [
  | inl e ↦ rw (move_task, e) refl
  | inr (t, e) ↦
      let bound = get_elem?-bound s.tasks j t e in
      let apart : i ≢ j = ground arith in (move_task_other i j o s apart).1
]

-- A goroutine that was started goes on as it would alone.
turns-started :
    (ts : List Turn) (i : ℕ) (s : Forwarder) (t : Task)
    → get_elem? s.tasks i ≡ some t
    → acts_of i (turns ts s).log ≡ acts_of i s.log ++ carry t (outcomes_of i (length s.tasks) ts)
unfolding turns turn receive
turns-started [] i s t e = sym (append-nil (acts_of i s.log))
turns-started (arrives none ∷ ts) i s t e = turns-started ts i s t e
turns-started (arrives (some (c, d)) ∷ ts) i s t e =
    let s' = receive (some (c, d)) s in
    let new = start_task c (take (length (take max_datagram d)) (fill d s.buf)) in
    turns-started ts i s' t (get_elem?-front s.tasks i new t e)
    ∙ ap (λ n. acts_of i s.log ++ carry t (outcomes_of i n ts)) (length-append s.tasks (new ∷ []))
turns-started (moves j o ∷ ts) i s t e = elim (Bool-cases (j == i)) [
  | inl q ↦
      let j_is_i : j ≡ i = ground arith in
      let bound = get_elem?-bound s.tasks i t e in
      let mine : (ltb i (length s.tasks) && i == i) ≡ true = ground arith in
      let (p, acts) = move_task_self i o s t e in
      rw (j_is_i, mine)
        (turns-started ts i (move_task i o s) (advance o t).0 p
          ∙ rw (acts, move_task-length i o s, append_assoc) refl)
  | inr q ↦
      let n : i ≢ j = ground arith in
      let other : (ltb i (length s.tasks) && j == i) ≡ false = ground arith in
      let (p, acts) = move_task_other i j o s n in
      rw other
        (turns-started ts i (move_task j o s) t (p ∙ e) ∙ rw (acts, move_task-length j o s) refl)
]

turns-first :
    (ts : List Turn) (i : ℕ) (p : ℕ × Bytes) (s : Forwarder)
    → i ≡ length s.tasks
    → acts_of i s.log ≡ []
    → acts_of i (turns ts (receive (some p) s)).log
      ≡ carry (start_task p.0 (take max_datagram p.1)) (outcomes_of i (length s.tasks + 1) ts)
unfolding receive
turns-first ts i p s h a =
    let new = start_task p.0 (take (length (take max_datagram p.1)) (fill p.1 s.buf)) in
    let started : get_elem? (s.tasks ++ new ∷ []) i ≡ some new =
      rw h (get_elem?-last s.tasks new) in
    turns-started ts i (receive (some p) s) new started
    ∙ rw (a, length-append s.tasks (new ∷ []), received p.1 s.buf) refl

turns-later :
    (ts : List Turn) (i c : ℕ) (d : Bytes) (s : Forwarder)
    → length s.tasks ≤ i
    → acts_of i s.log ≡ []
    → get_elem? (arrivals ts) (i - length s.tasks) ≡ some (c, d)
    → acts_of i (turns ts s).log
      ≡ carry (start_task c (take max_datagram d)) (outcomes_of i (length s.tasks) ts)
unfolding turns turn receive
turns-later [] i c d s h a e = absurd (cc e)
turns-later (arrives none ∷ ts) i c d s h a e = turns-later ts i c d s h a e
turns-later (arrives (some (c', d')) ∷ ts) i c d s h a e =
    let s' = receive (some (c', d')) s in
    let new = start_task c' (take (length (take max_datagram d')) (fill d' s.buf)) in
    let len : length s'.tasks ≡ length s.tasks + 1 = length-append s.tasks (new ∷ []) in
    elim (Bool-cases (length s.tasks == i)) [
      | inl q ↦
          let here : i ≡ length s.tasks = ground arith in
          let zeroth : i - length s.tasks ≡ 0 = omega arith in
          let first : get_elem? ((c', d') ∷ arrivals ts) 0 ≡ some (c, d) =
            ap (get_elem? ((c', d') ∷ arrivals ts)) (sym zeroth) ∙ e in
          let p : ℕ × Bytes = (c', d') in
          let q : ℕ × Bytes = (c, d) in
          let same : p ≡ q = cc in
          turns-first ts i (c', d') s here a
          ∙ ap
              (λ p.
                carry (start_task p.0 (take max_datagram p.1))
                  (outcomes_of i (length s.tasks + 1) ts))
              same
      | inr q ↦
          let less : length s.tasks + 1 ≤ i = ground arith in
          let next : i - length s.tasks ≡ suc (i - (length s.tasks + 1)) = omega arith in
          let rest : get_elem? (arrivals ts) (i - (length s.tasks + 1)) ≡ some (c, d) =
            ap (get_elem? ((c', d') ∷ arrivals ts)) (sym next) ∙ e in
          turns-later ts i c d s' (rw len less) a (rw len rest) ∙ rw len refl
    ]
turns-later (moves j o ∷ ts) i c d s h a e =
    let other : (ltb i (length s.tasks) && j == i) ≡ false = ground arith in
    let acts = move_task_unstarted i j o s h in
    rw other (
      turns-later ts i c d (move_task j o s) (rw (move_task-length j o s) h) (acts ∙ a)
        (rw (move_task-length j o s) e)
      ∙ rw (move_task-length j o s) refl)

-- However the goroutines and the reads of the socket interleave, the i-th datagram is carried as by
-- a goroutine alone, on the outcomes of its own calls: its socket sends this datagram, of which
-- nothing is overwritten by later ones, and the answer goes to the client that sent it.
pub turns-alone :
    (ts : List Turn) (buf : Bytes) (i c : ℕ) (d : Bytes)
    → get_elem? (arrivals ts) i ≡ some (c, d)
    → acts_of i (turns ts (new_forwarder buf)).log
      ≡ carry (start_task c (take max_datagram d)) (outcomes_of i 0 ts)
turns-alone ts buf i c d e =
    turns-later ts i c d (new_forwarder buf) (omega arith) refl (rw sub-zero e)
