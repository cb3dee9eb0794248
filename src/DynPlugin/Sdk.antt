-- ===== src/DynPlugin/Sdk.antt =====
-- The library for plugin programs, dynplugin/sdk.go: the handshake, and the loop over the lines of
-- its input. The parameters and the result of a handler are JSON texts.
pub mod Serving
mod Tests
use p2p_tun.Prelude.{Bool, List, Option, [], false, if◌then◌else◌, none, some, ℕ, ◌++◌, ◌==◌, ◌∷◌}
use p2p_tun.DynPlugin.{Handshake}
use p2p_tun.DynPlugin.Calls.{Response, result}
use p2p_tun.Text.{Text, text, text_eq}

-- Request of dynplugin/protocol.go.
pub record Request : Type 0 where
  pub id : ℕ
  pub method : Text
  pub params : Text

-- A line of the input, as encoding/json reads it: whether it is an object, its field `type` (empty
-- where that is no string), and the request that it stands for.
pub record Line : Type 0 where
  pub is_object : Bool
  pub type_field : Option Text
  pub request : Option Request

-- PluginSDK. A filter that is registered later stands first, and hides an earlier one.
pub record PluginSdk : Type 0 where
  pub name : Text
  pub version : Text
  pub hooks : List Text
  pub filters : List (Text × (Text → Text))

-- NewPluginSDK
unfoldable pub new_plugin_sdk : Text → Text → PluginSdk
new_plugin_sdk name version = record { name = name; version = version; hooks = []; filters = [] }

-- RegisterFilter
unfoldable pub register_filter : Text → (Text → Text) → PluginSdk → PluginSdk
register_filter hook handler s = record s {
  hooks = s.hooks ++ hook ∷ [];
  filters = (hook, handler) ∷ s.filters;
}

unfoldable pub find_filter : Text → List (Text × (Text → Text)) → Option (Text → Text)
find_filter method [] = none
find_filter method ((hook, handler) ∷ filters) =
    if text_eq hook method then some handler else find_filter method filters

abbrev pub unknown_method : Text → Text
unknown_method method = text "unknown method: " ++ method

-- The response to a request with an id.
unfoldable pub reply_to : PluginSdk → Request → Response
unfolding find_filter
reply_to s r = elim (find_filter r.method s.filters) [
  | none ↦ record { id = r.id; result = []; error = unknown_method r.method }
  | some handler ↦ record { id = r.id; result = handler r.params; error = [] }
]

abbrev pub is_config : Option Text → Bool
is_config none = false
is_config (some t) = text_eq t (text "config")

abbrev pub if_asked : PluginSdk → Option Request → Option Response
if_asked s none = none
if_asked s (some r) = if r.id == 0 then none else some (reply_to s r)

-- The body of the loop of Run: what it writes. A request with the id 0 is a notification.
unfoldable pub on_line : PluginSdk → Line → Option Response
on_line s l =
    if l.is_object then if is_config l.type_field then none else if_asked s l.request else none

abbrev pub add_reply : Option Response → List Response → List Response
add_reply none rs = rs
add_reply (some r) rs = r ∷ rs

unfoldable pub replies : PluginSdk → List Line → List Response
replies s [] = []
replies s (l ∷ ls) = add_reply (on_line s l) (replies s ls)

abbrev pub handshake_of : PluginSdk → Handshake
handshake_of s = record { name = s.name; version = s.version; hooks = s.hooks }

-- Run: the handshake and then the responses.
unfoldable pub run : PluginSdk → List Line → Handshake × List Response
unfolding replies
run s ls = (handshake_of s, replies s ls)
