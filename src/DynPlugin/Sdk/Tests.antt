-- ===== src/DynPlugin/Sdk/Tests.antt =====
-- The theorem on plugin programs at a concrete program.
use p2p_tun.Prelude.{List, [], bytes_eq, none, refl, some, true, ◌++◌, ◌∷◌, ◌≡◌}
use p2p_tun.DynPlugin.Calls.{begin_call, end_call, new_process, result, stays}
use p2p_tun.DynPlugin.Sdk.{Line, PluginSdk, find_filter, new_plugin_sdk, register_filter, replies}
use p2p_tun.DynPlugin.Sdk.Serving.{call_served, deliver, line_of, request_of, served}
use p2p_tun.Prelude.Assoc.{lookup}
use p2p_tun.Text.{text, text_eq}

-- A program with one filter, which says its parameters back.
abbrev echo_sdk : PluginSdk
echo_sdk =
    register_filter (text "on_accept") (λ params. params) (new_plugin_sdk (text "echo") (text "1"))

abbrev noise : List Line
noise = record { is_object = true; type_field = some (text "config"); request = none } ∷ []

call_served_example :
    lookup 1
      (end_call 1 (
        deliver
          (replies echo_sdk
            (noise ++ line_of (request_of (text "on_accept") (text "{}") new_process) ∷ []))
          (begin_call (text "on_accept") new_process).1)).returned
    ≡ some (served echo_sdk (text "on_accept") (text "{}"))
unfolding begin_call
call_served_example =
    call_served echo_sdk new_process (text "on_accept") (text "{}") noise [] (stays new_process)
      (tt, tt)

served_echo : served echo_sdk (text "on_accept") (text "{}") ≡ result (text "{}")
unfolding find_filter register_filter new_plugin_sdk text_eq bytes_eq
served_echo = refl
