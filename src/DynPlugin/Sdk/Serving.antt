-- ===== src/DynPlugin/Sdk/Serving.antt =====
-- A call of dynplugin/process.go that a program with dynplugin/sdk.go answers.
use p2p_tun.Prelude.{
  All, Bool-cases, List, Option, Option-cases, [], ap, arith, if_true, inl, inr, none, refl, some,
  true, ℕ, ◌++◌, ◌+◌, ◌<◌, ◌==◌, ◌∙◌, ◌∷◌, ◌≡◌, ◌≢◌,
}
use p2p_tun.DynPlugin.Calls.{
  Orderly, Outcome, Process, Response, Run, begin_call, end_call, failed, new_process, on_response,
  outcome_of, result,
}
use p2p_tun.DynPlugin.Calls.Delivery.{
  Run-Orderly, begin_call-Orderly, new-Orderly, on_response-Orderly, on_response-keeps,
}
use p2p_tun.DynPlugin.Sdk.{
  Line, PluginSdk, Request, add_reply, find_filter, if_asked, is_config, on_line, replies, reply_to,
  run, unknown_method,
}
use p2p_tun.Prelude.Assoc.{has, has-insert, lookup, lookup-erase, lookup-insert}
use p2p_tun.Text.{Text}

-- readLoop for the responses of a plugin.
unfoldable pub deliver : List Response → Process → Process
deliver [] p = p
deliver (r ∷ rs) p = deliver rs (on_response (some r) p)

-- The line that sendRaw writes for a call.
abbrev pub line_of : Request → Line
line_of r = record { is_object = true; type_field = none; request = some r }

-- A line that asks nothing under this id.
abbrev pub IsOther : ℕ → Line → Type 0
IsOther id l = elim l.request [ none ↦ Unit {0} | some r ↦ r.id ≢ id ]

replies-append :
    (s : PluginSdk) (ls ms : List Line) → replies s (ls ++ ms) ≡ replies s ls ++ replies s ms
unfolding replies
replies-append s [] ms = refl
replies-append s (l ∷ ls) ms = rw (replies-append s ls ms) (go (on_line s l))
  where
    go :
        (o : Option Response)
        → add_reply o (replies s ls ++ replies s ms) ≡ add_reply o (replies s ls) ++ replies s ms
    go none = refl
    go (some r) = refl

reply_to-id : (s : PluginSdk) (r : Request) → (reply_to s r).id ≡ r.id
unfolding reply_to
reply_to-id s r = ground arith

deliver-append :
    (rs qs : List Response) (p : Process) → deliver (rs ++ qs) p ≡ deliver qs (deliver rs p)
unfolding deliver
deliver-append [] qs p = refl
deliver-append (r ∷ rs) qs p = deliver-append rs qs (on_response (some r) p)

deliver-Orderly : (rs : List Response) (p : Process) → Orderly p → Orderly (deliver rs p)
unfolding deliver
deliver-Orderly [] p w = w
deliver-Orderly (r ∷ rs) p w =
    deliver-Orderly rs (on_response (some r) p) (on_response-Orderly (some r) p w)

on_response-other :
    (r : Response) (p : Process) (id : ℕ)
    → Orderly p
    → r.id ≢ id
    → has id p.pending ≡ true
    → has id (on_response (some r) p).pending ≡ true
unfolding on_response
on_response-other r p id w n h = ground (arith, h, lookup-erase r.id id p.pending w.pending_map)

deliver-other :
    (rs : List Response) (p : Process) (id : ℕ)
    → Orderly p
    → All (λ r. r.id ≢ id) rs
    → has id p.pending ≡ true
    → has id (deliver rs p).pending ≡ true
unfolding deliver
deliver-other [] p id w n h = h
deliver-other (r ∷ rs) p id w n h =
    deliver-other rs (on_response (some r) p) id (on_response-Orderly (some r) p w) n.1
      (on_response-other r p id w n.0 h)

deliver-keeps :
    (rs : List Response) (p : Process) (id : ℕ) (r : Response)
    → Orderly p
    → lookup id p.answered ≡ some r
    → lookup id (deliver rs p).answered ≡ some r
unfolding deliver
deliver-keeps [] p id r w e = e
deliver-keeps (q ∷ rs) p id r w e =
    deliver-keeps rs (on_response (some q) p) id r (on_response-Orderly (some q) p w)
      (on_response-keeps (some q) p id r w e)

on_response-own :
    (r : Response) (p : Process) (id : ℕ)
    → r.id ≡ id
    → has id p.pending ≡ true
    → lookup id (on_response (some r) p).answered ≡ some r
unfolding on_response
on_response-own r p id e h = ground (arith, e, h, lookup-insert r.id id r p.answered)

-- What comes before the line of a call is not under its id.
on_line-other :
    (s : PluginSdk) (l : Line) (id : ℕ) (rs : List Response)
    → IsOther id l
    → All (λ r. r.id ≢ id) rs
    → All (λ r. r.id ≢ id) (add_reply (on_line s l) rs)
unfolding on_line
on_line-other s l id rs n w = elim (Bool-cases l.is_object) [
  | inr e ↦ rw (on_line, e) w
  | inl e ↦ elim (Bool-cases (is_config l.type_field)) [
    | inl c ↦ rw (on_line, e, c) w
    | inr c ↦ rw (on_line, e, c) (go l.request n)
  ]
]
  where
    go :
        (o : Option Request)
        → elim o as (λ x. Type 0) [ none ↦ Unit {0} | some r ↦ r.id ≢ id ]
        → All (λ r. r.id ≢ id) (add_reply (if_asked s o) rs)
    go none n = w
    go (some r) n = elim (Bool-cases (r.id == 0)) [
      | inl z ↦ rw z w
      | inr z ↦ rw z (rw (reply_to-id s r) n, w)
    ]

replies-other :
    (s : PluginSdk) (ls : List Line) (id : ℕ)
    → All (IsOther id) ls
    → All (λ r. r.id ≢ id) (replies s ls)
unfolding replies
replies-other s [] id w = tt
replies-other s (l ∷ ls) id w = on_line-other s l id (replies s ls) w.0 (replies-other s ls id w.1)

on_line-asked :
    (s : PluginSdk) (r : Request) → 0 < r.id → on_line s (line_of r) ≡ some (reply_to s r)
unfolding on_line
on_line-asked s r h = ground (arith, h)

-- What the caller is told: the result of the filter, or an error that names the method.
abbrev pub served : PluginSdk → Text → Text → Outcome
served s method params = elim (find_filter method s.filters) [
  | none ↦ failed (unknown_method method)
  | some handler ↦ result (handler params)
]

outcome_of-reply_to :
    (s : PluginSdk) (r : Request) → outcome_of (reply_to s r) ≡ served s r.method r.params
unfolding reply_to
outcome_of-reply_to s r = elim (Option-cases (find_filter r.method s.filters)) [
  | inl e ↦ rw (e, reply_to) (rw (e, served) refl)
  | inr (handler, e) ↦ rw (e, reply_to) (rw (e, served) refl)
]

begin_call-has :
    (method : Text) (p : Process)
    → has (begin_call method p).0 (begin_call method p).1.pending ≡ true
unfolding begin_call
begin_call-has method p = has-insert (p.next_id + 1) method p.pending

begin_call-pos : (method : Text) (p : Process) → 0 < (begin_call method p).0
unfolding begin_call
begin_call-pos method p = omega arith

abbrev pub request_of : Text → Text → Process → Request
request_of method params p = record {
  id = (begin_call method p).0;
  method = method;
  params = params;
}

call-answered :
    (s : PluginSdk) (p : Process) (method params : Text) (before after : List Line)
    → Orderly p
    → All (IsOther (begin_call method p).0) before
    → let r = request_of method params p in
      lookup r.id
        (deliver (replies s (before ++ line_of r ∷ after)) (begin_call method p).1).answered
      ≡ some (reply_to s r)
unfolding deliver replies
call-answered s p method params before after w n =
    let r : Request = request_of method params p in
    let p' : Process = (begin_call method p).1 in
    let w' : Orderly p' = begin_call-Orderly method p w in
    let p'' : Process = deliver (replies s before) p' in
    let w'' : Orderly p'' = deliver-Orderly (replies s before) p' w' in
    let waits : has r.id p''.pending ≡ true =
      deliver-other (replies s before) p' r.id w' (replies-other s before r.id n)
        (begin_call-has method p) in
    let own : lookup r.id (on_response (some (reply_to s r)) p'').answered ≡ some (reply_to s r) =
      on_response-own (reply_to s r) p'' r.id (reply_to-id s r) waits in
    let whole : deliver (replies s (before ++ line_of r ∷ after)) p'
        ≡ deliver (replies s after) (on_response (some (reply_to s r)) p'') =
      ap (λ (rs : List Response). deliver rs p') (replies-append s before (line_of r ∷ after))
      ∙ deliver-append (replies s before) (replies s (line_of r ∷ after)) p'
      ∙ ap (λ (o : Option Response). deliver (add_reply o (replies s after)) p'')
          (on_line-asked s r (begin_call-pos method p)) in
    rw whole (
      deliver-keeps (replies s after) (on_response (some (reply_to s r)) p'') r.id (reply_to s r)
        (on_response-Orderly (some (reply_to s r)) p'' w'') own)

-- From the caller to the filter and back. At any point of any run of calls, a new call is made, and
-- the plugin is a program of the SDK that reads its line, after and before any other lines; none of
-- those before asks under the id of the call. Once the responses of the plugin have been read, the
-- caller gets what the filter of the method makes of the parameters, or, where the plugin has no
-- such filter, an error that names the method.
pub call_served :
    (s : PluginSdk) (p : Process) (method params : Text) (before after : List Line)
    → Run new_process p
    → All (IsOther (begin_call method p).0) before
    → let r = request_of method params p in
      let q = deliver (replies s (before ++ line_of r ∷ after)) (begin_call method p).1 in
      lookup r.id (end_call r.id q).returned ≡ some (served s method params)
unfolding end_call
call_served s p method params before after run n =
    let r : Request = request_of method params p in
    let q : Process = deliver (replies s (before ++ line_of r ∷ after)) (begin_call method p).1 in
    let e : lookup r.id q.answered ≡ some (reply_to s r) =
      call-answered s p method params before after (Run-Orderly new_process p run new-Orderly) n in
    rw (end_call, e)
      (lookup-insert r.id r.id (outcome_of (reply_to s r)) q.returned
        ∙ if_true (r.id == r.id) _ _ (ground arith)
        ∙ ap some (outcome_of-reply_to s r))
