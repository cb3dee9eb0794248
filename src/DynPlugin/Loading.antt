-- ===== src/DynPlugin/Loading.antt =====
-- How the dynamic plugins are found and started: LoadDir and LoadPlugin of dynplugin/manager.go, and
-- Start of dynplugin/process.go. The file system and the processes are arguments.
pub mod Started
pub mod Usable
mod Tests
use mathlib.Core.Option
use p2p_tun.Prelude.{
  Bool, List, Option, Result, [], err, false, if◌then◌else◌, map, none, not, ok, some, ℕ, ◌&&◌,
  ◌++◌, ◌==◌, ◌||◌, ◌∷◌,
}
use p2p_tun.DynPlugin.{Handshake}
use p2p_tun.DynPlugin.Exec.{parse_exec}
use p2p_tun.Server.Register.{started}
use p2p_tun.Text.{Text, contains, is_empty}

-- PluginManifest, as far as loading reads it; `config` is empty where the map is.
pub record PluginManifest : Type 0 where
  pub name : Text
  pub exec : Text
  pub config : Text
  pub enabled : Option Bool

-- The command that Start runs: the word as it is, or joined to the working directory.
pub data Command : Type 0 where
  plain : Text → Command
  joined : Text → Text → Command

-- What the first call of Scan meets: a line; the end of the output, or a line over the buffer's
-- size; or a program that writes nothing and keeps its output open.
pub data FirstLine : Type 0 where
  line over silence : FirstLine

-- What the system does with one command: the pipes, the process, its first line and what that is as
-- JSON, and the write of the configuration, which is taken to return.
pub record Launch : Type 0 where
  pub pipes : Bool
  pub started : Bool
  pub first_line : FirstLine
  pub handshake : Option Handshake
  pub config_sent : Bool

pub data StartError : Type 0 where
  no_command no_pipe not_started no_handshake invalid_handshake no_name config_not_sent : StartError

-- What Start has done with the process when it returns. One that is left is neither killed nor waited
-- for: it runs on until it ends by itself, if it has not ended already.
pub data Fate : Type 0 where
  not_run left killed : Fate

-- How a call of Start ends: Scan has no timeout, so that it may never return.
pub data Outcome : Type 0 where
  blocks : Outcome
  returns : Fate → Result StartError Handshake → Outcome

-- strings.ContainsAny(cmdPath, "/\\") && !filepath.IsAbs(cmdPath), where IsAbs is that of Unix.
abbrev pub is_relative : Text → Bool
is_relative path =
    (contains path b'/' || contains path b'\\')
    && not (elim path as (λ x. Bool) [ [] ↦ false | c ∷ s ↦ c == b'/' ])

abbrev pub command_of : Text → Text → Command
command_of working_dir path = if is_relative path then joined working_dir path else plain path

-- Start from the handshake on.
abbrev pub check_handshake : PluginManifest → Launch → Option Handshake → Outcome
check_handshake m l none = returns killed (err invalid_handshake)
check_handshake m l (some h) =
    if is_empty h.name
    then returns killed (err no_name)
    else if is_empty m.config || l.config_sent
    then returns left (ok h)
    else returns killed (err config_not_sent)

-- Start from the first line on. An output that ends is an error with no Kill.
abbrev pub read_first_line : PluginManifest → Launch → FirstLine → Outcome
read_first_line m l line = check_handshake m l l.handshake
read_first_line m l over = returns left (err no_handshake)
read_first_line m l silence = blocks

-- Start once the command is parsed.
unfoldable pub launch_process : PluginManifest → Launch → Outcome
launch_process m l =
    if l.pipes
    then if l.started then read_first_line m l l.first_line else returns not_run (err not_started)
    else returns not_run (err no_pipe)

abbrev pub launch_parts :
    PluginManifest → Text → (Command → List Text → Launch) → Option (List Text) → Outcome
launch_parts m working_dir launch none = returns not_run (err no_command)
launch_parts m working_dir launch (some []) = returns not_run (err no_command)
launch_parts m working_dir launch (some (path ∷ args)) =
    launch_process m (launch (command_of working_dir path) args)

-- Start
unfoldable pub start : PluginManifest → Text → (Command → List Text → Launch) → Outcome
unfolding launch_process parse_exec
start m working_dir launch = launch_parts m working_dir launch (parse_exec m.exec)

-- A plugin of the manager, with the manifest that it was loaded from.
pub record Loaded : Type 0 where
  pub manifest : PluginManifest
  pub handshake : Handshake

abbrev pub enough : Result StartError Handshake → PluginManifest → List Loaded
enough (err e) m = []
enough (ok h) m = record { manifest = m; handshake = h } ∷ []

-- LoadPlugin: what it appends to the plugins; `none` where Start does not return.
abbrev pub load_started : PluginManifest → Outcome → Option (List Loaded)
load_started m blocks = none
load_started m (returns f r) = some (enough r m)

unfoldable pub load_plugin :
    PluginManifest → Text → (Command → List Text → Launch) → Option (List Loaded)
unfolding start
load_plugin m working_dir launch = load_started m (start m working_dir launch)

-- `manifest.Enabled != nil && !*manifest.Enabled`
abbrev pub is_disabled : Option Bool → Bool
is_disabled none = false
is_disabled (some b) = not b

-- An entry of the directory, with its path and the manifest in it; `none` where the file cannot be
-- read or is no JSON.
pub record Entry : Type 0 where
  pub path : Text
  pub is_dir : Bool
  pub manifest : Option PluginManifest

abbrev pub load_manifest :
    (Command → List Text → Launch) → Text → Option PluginManifest → Option (List Loaded)
load_manifest launch path none = some []
load_manifest launch path (some m) =
    if is_empty m.exec || is_disabled m.enabled then some [] else load_plugin m path launch

-- The body of the loop of LoadDir.
unfoldable pub load_entry : (Command → List Text → Launch) → Entry → Option (List Loaded)
unfolding load_plugin
load_entry launch e = if e.is_dir then load_manifest launch e.path e.manifest else some []

abbrev pub both_loaded : Option (List Loaded) → Option (List Loaded) → Option (List Loaded)
both_loaded none later = none
both_loaded (some ls) none = none
both_loaded (some ls) (some later) = some (ls ++ later)

-- The loop, which stays with the first plugin whose Start does not return.
unfoldable pub load_entries : (Command → List Text → Launch) → List Entry → Option (List Loaded)
unfolding load_entry
load_entries launch [] = some []
load_entries launch (e ∷ es) = both_loaded (load_entry launch e) (load_entries launch es)

pub data LoadError : Type 0 where
  load_failed : StartError → LoadError
  no_dir : LoadError

abbrev pub load_own_started : PluginManifest → Outcome → Option (Result LoadError (List Loaded))
load_own_started m blocks = none
load_own_started m (returns f (err e)) = some (err (load_failed e))
load_own_started m (returns f (ok h)) = some (ok (record { manifest = m; handshake = h } ∷ []))

-- LoadDir of a directory that has a manifest of its own.
abbrev pub load_own :
    (Command → List Text → Launch) → Text → PluginManifest → Option (Result LoadError (List Loaded))
load_own launch dir m =
    if is_disabled m.enabled then some (ok []) else load_own_started m (start m dir launch)

abbrev pub load_children :
    (Command → List Text → Launch) → Option (List Entry) → Option (Result LoadError (List Loaded))
load_children launch none = some (err no_dir)
load_children launch (some es) = Option.map ok (load_entries launch es)

-- LoadDir: the manifest of the directory itself, else those of its entries. `none` where it does not
-- return.
unfoldable pub load_dir :
    (Command → List Text → Launch)
    → Text
    → Option PluginManifest
    → Option (List Entry)
    → Option (Result LoadError (List Loaded))
unfolding load_entries start
load_dir launch dir none entries = load_children launch entries
load_dir launch dir (some m) entries =
    if is_empty m.exec then load_children launch entries else load_own launch dir m

-- NewManager: five seconds where the timeout is not positive.
unfoldable pub new_manager_timeout : ℕ → ℕ
new_manager_timeout limit = if limit == 0 then 5000000000 else limit
