-- ===== src/DynPlugin/Calls.antt =====
-- Call, readLoop, Notify and Stop of dynplugin/process.go: the table of pending calls. A caller waits on a
-- channel of its own, which holds one response; here it is the entry of `answered` under its id.
pub mod Delivery
use mathlib.Core.Option
use p2p_tun.Prelude.{
  Bool, List, Option, [], false, if◌then◌else◌, map, none, some, true, ℕ, ◌+◌, ◌<◌, ◌∷◌, ◌≡◌, ◌≤◌,
}
use p2p_tun.Prelude.Assoc.{Assoc, IsMap, erase, has, insert, lookup}
use p2p_tun.Text.{Text, is_empty}

-- Response, and the `result` of a call that is over.
pub record Response : Type 0 where
  pub id : ℕ
  pub result : Text
  pub error : Text

pub data Outcome : Type 0 where
  result failed : Text → Outcome
  timed_out process_stopped : Outcome

-- `stop_closed` says that stopCh is closed.
pub record Process : Type 0 where
  pub next_id : ℕ
  pub pending : Assoc Text
  pub answered : Assoc Response
  pub returned : Assoc Outcome
  pub stop_closed : Bool

abbrev pub new_process : Process
new_process = record {
  next_id = 0;
  pending = [];
  answered = [];
  returned = [];
  stop_closed = false;
}

-- The first part of Call, for a method: a new id and an entry.
unfoldable pub begin_call : Text → Process → ℕ × Process
begin_call method p =
    let id = p.next_id + 1 in (id, record p { next_id = id; pending = insert id method p.pending })

-- sendRaw has failed, or the timeout is over: the entry goes, and the caller gets an error.
unfoldable pub give_up : ℕ → Outcome → Process → Process
give_up id why p = record p { pending = erase id p.pending; returned = insert id why p.returned }

-- A line of the plugin in readLoop, parsed; `none` does not parse.
unfoldable pub on_response : Option Response → Process → Process
on_response none p = p
on_response (some r) p =
    if has r.id p.pending
    then record p { pending = erase r.id p.pending; answered = insert r.id r p.answered }
    else p

-- A caller that finds a response on its channel.
abbrev pub outcome_of : Response → Outcome
outcome_of r = if is_empty r.error then result r.result else failed r.error

unfoldable pub end_call : ℕ → Process → Process
end_call id p = elim (lookup id p.answered) [
  | none ↦ p
  | some r ↦ record p { returned = insert id (outcome_of r) p.returned }
]

-- A caller that sees stopCh closed; its entry stays.
unfoldable pub abandon_call : ℕ → Process → Process
abandon_call id p = record p { returned = insert id process_stopped p.returned }

-- Stop; `none` is the panic of closing a channel twice. The process is killed.
unfoldable pub stop : Process → Option Process
stop p = if p.stop_closed then none else some (record p { stop_closed = true })

-- Manager.Stop of dynplugin/manager.go, for the processes of the plugins, which the manager then
-- forgets.
unfoldable pub stop_all : List Process → Option (List Process)
unfolding stop
stop_all [] = some []
stop_all (p ∷ ps) = elim (stop p) [ none ↦ none | some q ↦ Option.map (λ qs. q ∷ qs) (stop_all ps) ]

-- A turn of readLoop that began before Stop may still deliver a response after it.
pub data Step : Process → Process → Type 0 where
  calls : (method : Text) (p : Process) → Step p (begin_call method p).1
  gives_up : (id : ℕ) (why : Outcome) (p : Process) → Step p (give_up id why p)
  responds : (r : Option Response) (p : Process) → Step p (on_response r p)
  ends : (id : ℕ) (p : Process) → Step p (end_call id p)
  abandons : (id : ℕ) (p : Process) → p.stop_closed ≡ true → Step p (abandon_call id p)
  stops : (p q : Process) → stop p ≡ some q → Step p q

pub data Run : Process → Process → Type 0 where
  stays : (p : Process) → Run p p
  moves : (p q r : Process) → Run p q → Step q r → Run p r

-- Every key is the number of a call that was made.
abbrev pub Numbered {ℓ} : {V : Type ℓ} → ℕ → Assoc V → Type 0
Numbered n [] = Unit
Numbered n ((k, v) ∷ m) = ((0 < k) × (k ≤ n)) × Numbered n m

-- An id stands in one of the two tables at most, and an answer under an id is an answer to it.
pub record Orderly (p : Process) : Type 0 where
  pub pending_map : IsMap p.pending
  pub answered_map : IsMap p.answered
  pub pending_numbered : Numbered p.next_id p.pending
  pub answered_numbered : Numbered p.next_id p.answered
  pub apart : (id : ℕ) → has id p.pending ≡ true → lookup id p.answered ≡ none
  pub addressed : (id : ℕ) (r : Response) → lookup id p.answered ≡ some r → r.id ≡ id
