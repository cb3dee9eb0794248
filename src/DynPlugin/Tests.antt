-- ===== src/DynPlugin/Tests.antt =====
-- The theorems on dynamic plugins at concrete processes.
use p2p_tun.Prelude.{[], arith, false, none, refl, some, true, ◌<◌, ◌∷◌, ◌≡◌, ◌≤◌}
use p2p_tun.DynPlugin.{PluginProcess, Reply}
use p2p_tun.DynPlugin.Calls.{
  Process, Response, Run, begin_call, calls, moves, new_process, on_response, responds, stays,
}
use p2p_tun.DynPlugin.Calls.Delivery.{response_addressed}
use p2p_tun.DynPlugin.Exec.{parse_exec, parse_exec-quote, quote}
use p2p_tun.Prelude.Assoc.{insert, lookup}
use p2p_tun.Text.{text}

parse_exec-quote_example :
    parse_exec (quote (text "my tool" ∷ text "-v" ∷ [])) ≡ some (text "my tool" ∷ text "-v" ∷ [])
parse_exec-quote_example = parse_exec-quote (text "my tool") (text "-v" ∷ []) (ground arith)

abbrev no_reply : Reply
no_reply = record { allowed = some false; action = none; reason = none; channels = none }

abbrev guard_plugin : PluginProcess
guard_plugin = record {
  handshake = record { name = text "g"; version = []; hooks = text "on_accept" ∷ [] };
  alive = true;
  call = some no_reply;
}

abbrev reply_one : Response
reply_one = record { id = 1; result = text "ok"; error = [] }

abbrev called : Process
called = (begin_call (text "on_check") new_process).1

abbrev replied_once : Process
replied_once = on_response (some reply_one) called

replied-Run : Run new_process replied_once
replied-Run =
    moves new_process called replied_once
      (moves new_process new_process called (stays new_process)
        (calls (text "on_check") new_process))
      (responds (some reply_one) called)

response_addressed_example :
    (reply_one.id ≡ 1)
    × ((0 < 1) × (1 ≤ replied_once.next_id))
    × (lookup 1 (on_response (some reply_one) replied_once).answered ≡ some reply_one)
unfolding on_response begin_call lookup insert
response_addressed_example =
    response_addressed replied_once (on_response (some reply_one) replied_once) 1 reply_one
      replied-Run (responds (some reply_one) replied_once) refl
