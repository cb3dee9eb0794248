-- ===== src/DynPlugin.antt =====
-- The dynamic plugins of package dynplugin: the hooks of dynplugin/manager.go over the list of
-- processes, and what dynplugin/protocol.go says of them. What a process answers to a call is a
-- field of it; JSON values are given after the type assertions of the code.
pub mod Exec
pub mod Hooks
pub mod Calls
pub mod Sdk
pub mod Loading
mod Tests
use p2p_tun.Prelude.{
  Bool, List, Option, [], false, if◌then◌else◌, none, some, true, ℕ, ◌%◌, ◌&&◌, ◌++◌, ◌^◌, ◌||◌,
  ◌∷◌,
}
use p2p_tun.Plugin.ConnLimit.Race.{close}
use p2p_tun.Plugin.Manager.{PluginAction}
use p2p_tun.Text.{Text, text, text_eq}

pub record Handshake : Type 0 where
  pub name : Text
  pub version : Text
  pub hooks : List Text

-- The result of a call: `result["allowed"].(bool)` and so on, `none` where the assertion fails. A
-- channel is a number that is no float64 where it is `none`.
pub record Reply : Type 0 where
  pub allowed : Option Bool
  pub action : Option Text
  pub reason : Option Text
  pub channels : Option (List (Option ℕ))

-- A process: its handshake, whether it is alive, and what Call returns; `none` is an error.
pub record PluginProcess : Type 0 where
  pub handshake : Handshake
  pub alive : Bool
  pub call : Option Reply

-- HasHook
unfoldable pub has_hook : Text → List Text → Bool
has_hook hook [] = false
has_hook hook (h ∷ hooks) = text_eq h hook || has_hook hook hooks

-- `!p.HasHook(hook) || !p.Alive()`, negated.
abbrev pub listens : Text → PluginProcess → Bool
listens hook p = has_hook hook p.handshake.hooks && p.alive

abbrev pub flag : Option Bool → Bool
flag none = false
flag (some b) = b

abbrev pub string_or_empty : Option Text → Text
string_or_empty none = []
string_or_empty (some s) = s

-- What a plugin says to OnAccept: `none` where it is skipped or fails.
unfoldable pub verdict : Text → PluginProcess → Option Reply
verdict hook p = if listens hook p then p.call else none

-- The body of the loop of OnAccept, on what the later plugins decide.
abbrev pub or_refuse : Option Reply → Bool × Text → Bool × Text
or_refuse none later = later
or_refuse (some r) later = if flag r.allowed then later else (false, string_or_empty r.reason)

-- Manager.OnAccept: the first plugin that does not allow the connection decides.
unfoldable pub on_accept : List PluginProcess → Bool × Text
unfolding verdict
on_accept [] = (true, [])
on_accept (p ∷ ps) = or_refuse (verdict (text "on_accept") p) (on_accept ps)

abbrev pub says_close : Reply → Bool
says_close r = text_eq (string_or_empty r.action) (text "close")

-- The body of the loop of OnOpen, on what the later plugins decide.
abbrev pub or_close : Option Reply → PluginAction → PluginAction
or_close none later = later
or_close (some r) later =
    if says_close r then record { close = true; reason = string_or_empty r.reason } else later

-- Manager.OnOpen: the first plugin that wants the connection closed decides.
unfoldable pub on_open : List PluginProcess → PluginAction
unfolding verdict
on_open [] = record { close = false; reason = [] }
on_open (p ∷ ps) = or_close (verdict (text "on_open") p) (on_open ps)

abbrev pub numbers : List (Option ℕ) → List ℕ
numbers [] = []
numbers (none ∷ cs) = numbers cs
numbers (some c ∷ cs) = c % 2 ^ 32 ∷ numbers cs

abbrev pub channels_of : Option (List (Option ℕ)) → List ℕ
channels_of none = []
channels_of (some cs) = numbers cs

-- Manager.OnCheck: the channels that the plugins want closed.
unfoldable pub on_check : List PluginProcess → List ℕ
unfolding verdict
on_check [] = []
on_check (p ∷ ps) = elim (verdict (text "on_check") p) [
  | none ↦ on_check ps
  | some r ↦ if says_close r then channels_of r.channels ++ on_check ps else on_check ps
]

-- Manager.OnClose and OnData: the plugins that are notified.
unfoldable pub notified : Text → List PluginProcess → List Text
notified hook [] = []
notified hook (p ∷ ps) =
    if listens hook p then p.handshake.name ∷ notified hook ps else notified hook ps
