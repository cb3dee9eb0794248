-- ===== src/DynPlugin/Calls/Delivery.antt =====
-- Which call of dynplugin/process.go gets which response.
use p2p_tun.Prelude.{
  Bool-cases, Option, Option-cases, [], arith, inl, inr, none, refl, some, true, ℕ, ◌+◌, ◌<◌, ◌∷◌,
  ◌≡◌, ◌≤◌,
}
use p2p_tun.DynPlugin.Calls.{
  Numbered, Orderly, Outcome, Process, Response, Run, Step, abandon_call, abandons, begin_call,
  calls, end_call, ends, give_up, gives_up, moves, new_process, on_response, responds, stays, stop,
  stops,
}
use p2p_tun.Prelude.Assoc.{
  Assoc, IsMap-erase, IsMap-insert, erase, has, insert, lookup, lookup-erase, lookup-insert,
}
use p2p_tun.Text.{Text}

Numbered-later : {V : Type 0} (n : ℕ) (m : Assoc V) → Numbered n m → Numbered (n + 1) m
Numbered-later n [] w = tt
Numbered-later n ((k, v) ∷ m) w = ((w.0.0, omega arith), Numbered-later n m w.1)

Numbered-insert :
    {V : Type 0} (n k : ℕ) (v : V) (m : Assoc V)
    → 0 < k
    → k ≤ n
    → Numbered n m
    → Numbered n (insert k v m)
unfolding insert
Numbered-insert n k v [] p q w = ((p, q), tt)
Numbered-insert n k v ((j, u) ∷ m) p q w = ground (arith, Numbered-insert n k v m p q w.1)

Numbered-erase : {V : Type 0} (n k : ℕ) (m : Assoc V) → Numbered n m → Numbered n (erase k m)
unfolding erase
Numbered-erase n k [] w = tt
Numbered-erase n k ((j, u) ∷ m) w = ground (arith, Numbered-erase n k m w.1)

pub Numbered-lookup : {V : Type 0} (n : ℕ) (m : Assoc V) → Numbered n m → lookup (n + 1) m ≡ none
unfolding lookup
Numbered-lookup n [] w = refl
Numbered-lookup n ((j, u) ∷ m) w = ground (arith, Numbered-lookup n m w.1)

Numbered-has :
    {V : Type 0} (n k : ℕ) (m : Assoc V) → Numbered n m → has k m ≡ true → (0 < k) × (k ≤ n)
unfolding lookup
Numbered-has n k [] w h = ground (arith, h)
Numbered-has n k ((j, u) ∷ m) w h = ground (arith, h, Numbered-has n k m w.1)

pub new-Orderly : Orderly new_process
unfolding lookup
new-Orderly = record {
  pending_map = tt;
  answered_map = tt;
  pending_numbered = tt;
  answered_numbered = tt;
  apart = λ id h. refl;
  addressed = λ id r e. ground (arith, e);
}

pub begin_call-Orderly : (method : Text) (p : Process) → Orderly p → Orderly (begin_call method p).1
unfolding begin_call
begin_call-Orderly method p w =
    let n = p.next_id in
    record {
      pending_map = IsMap-insert (n + 1) method p.pending w.pending_map;
      answered_map = w.answered_map;
      pending_numbered =
          Numbered-insert (n + 1) (n + 1) method p.pending (omega arith) (omega arith)
            (Numbered-later n p.pending w.pending_numbered);
      answered_numbered = Numbered-later n p.answered w.answered_numbered;
      apart = λ id h. ground (
        arith,
        h,
        lookup-insert (n + 1) id method p.pending,
        Numbered-lookup n p.answered w.answered_numbered,
        w.apart id,
      );
      addressed = w.addressed;
    }

give_up-Orderly : (id : ℕ) (why : Outcome) (p : Process) → Orderly p → Orderly (give_up id why p)
unfolding give_up
give_up-Orderly id why p w = record {
  pending_map = IsMap-erase id p.pending w.pending_map;
  answered_map = w.answered_map;
  pending_numbered = Numbered-erase p.next_id id p.pending w.pending_numbered;
  answered_numbered = w.answered_numbered;
  apart = λ j h. ground (arith, h, lookup-erase id j p.pending w.pending_map, w.apart j);
  addressed = w.addressed;
}

delivered-Orderly :
    (r : Response) (p : Process)
    → has r.id p.pending ≡ true
    → Orderly p
    → Orderly (record p { pending = erase r.id p.pending; answered = insert r.id r p.answered })
delivered-Orderly r p h w =
    let bounds = Numbered-has p.next_id r.id p.pending w.pending_numbered h in
    record {
      pending_map = IsMap-erase r.id p.pending w.pending_map;
      answered_map = IsMap-insert r.id r p.answered w.answered_map;
      pending_numbered = Numbered-erase p.next_id r.id p.pending w.pending_numbered;
      answered_numbered =
          Numbered-insert p.next_id r.id r p.answered bounds.0 bounds.1 w.answered_numbered;
      apart = λ j i. ground (
        arith,
        i,
        lookup-erase r.id j p.pending w.pending_map,
        lookup-insert r.id j r p.answered,
        w.apart j,
      );
      addressed = λ j q e. ground (arith, e, lookup-insert r.id j r p.answered, w.addressed j q);
    }

pub on_response-Orderly :
    (o : Option Response) (p : Process) → Orderly p → Orderly (on_response o p)
unfolding on_response
on_response-Orderly none p w = w
on_response-Orderly (some r) p w = elim (Bool-cases (has r.id p.pending)) [
  | inl e ↦ rw (on_response, e) (delivered-Orderly r p e w)
  | inr e ↦ rw (on_response, e) w
]

end_call-Orderly : (id : ℕ) (p : Process) → Orderly p → Orderly (end_call id p)
unfolding end_call
end_call-Orderly id p w = elim (Option-cases (lookup id p.answered)) [
  | inl e ↦ rw (end_call, e) w
  | inr (r, e) ↦
      rw (end_call, e)
        (record {
          pending_map = w.pending_map;
          answered_map = w.answered_map;
          pending_numbered = w.pending_numbered;
          answered_numbered = w.answered_numbered;
          apart = w.apart;
          addressed = w.addressed;
        })
]

abandon_call-Orderly : (id : ℕ) (p : Process) → Orderly p → Orderly (abandon_call id p)
unfolding abandon_call
abandon_call-Orderly id p w = record {
  pending_map = w.pending_map;
  answered_map = w.answered_map;
  pending_numbered = w.pending_numbered;
  answered_numbered = w.answered_numbered;
  apart = w.apart;
  addressed = w.addressed;
}

stop-tables : (p q : Process) → stop p ≡ some q → q ≡ record p { stop_closed = true }
unfolding stop
stop-tables p q e = ground (arith, e)

stopped-Orderly : (p : Process) → Orderly p → Orderly (record p { stop_closed = true })
stopped-Orderly p w = record {
  pending_map = w.pending_map;
  answered_map = w.answered_map;
  pending_numbered = w.pending_numbered;
  answered_numbered = w.answered_numbered;
  apart = w.apart;
  addressed = w.addressed;
}

Step-Orderly : (p q : Process) → Step p q → Orderly p → Orderly q
Step-Orderly _ _ (calls method p) w = begin_call-Orderly method p w
Step-Orderly _ _ (gives_up id why p) w = give_up-Orderly id why p w
Step-Orderly _ _ (responds r p) w = on_response-Orderly r p w
Step-Orderly _ _ (ends id p) w = end_call-Orderly id p w
Step-Orderly _ _ (abandons id p c) w = abandon_call-Orderly id p w
Step-Orderly _ _ (stops p q e) w = rw (stop-tables p q e) (stopped-Orderly p w)

pub Run-Orderly : (p q : Process) → Run p q → Orderly p → Orderly q
Run-Orderly _ _ (stays p) w = w
Run-Orderly _ _ (moves p q r run step) w = Step-Orderly q r step (Run-Orderly p q run w)

pub on_response-keeps :
    (o : Option Response) (p : Process) (id : ℕ) (r : Response)
    → Orderly p
    → lookup id p.answered ≡ some r
    → lookup id (on_response o p).answered ≡ some r
unfolding on_response
on_response-keeps none p id r w e = e
on_response-keeps (some q) p id r w e =
    ground (arith, e, lookup-insert q.id id q p.answered, w.apart q.id)

Step-keeps :
    (p q : Process) (id : ℕ) (r : Response)
    → Step p q
    → Orderly p
    → lookup id p.answered ≡ some r
    → lookup id q.answered ≡ some r
unfolding begin_call give_up end_call abandon_call
Step-keeps _ _ id r (calls method p) w e = e
Step-keeps _ _ id r (gives_up j why p) w e = e
Step-keeps _ _ id r (responds o p) w e = on_response-keeps o p id r w e
Step-keeps _ _ id r (ends j p) w e = ground (arith, e)
Step-keeps _ _ id r (abandons j p c) w e = e
Step-keeps _ _ id r (stops p q s) w e = rw (stop-tables p q s) e

-- However calls, responses, timeouts and the stop interleave, the response that a call gets carries the id of
-- that call, which was given out before, and no later response replaces it; a response under the id
-- of a notification, 0, is never delivered.
pub response_addressed :
    (p q : Process) (id : ℕ) (r : Response)
    → Run new_process p
    → Step p q
    → lookup id p.answered ≡ some r
    → (r.id ≡ id) × ((0 < id) × (id ≤ p.next_id)) × (lookup id q.answered ≡ some r)
response_addressed p q id r run step e =
    let w = Run-Orderly new_process p run new-Orderly in
    (
      w.addressed id r e,
      Numbered-has p.next_id id p.answered w.answered_numbered (rw (has, e) refl),
      Step-keeps p q id r step w e,
    )
