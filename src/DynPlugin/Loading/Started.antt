-- ===== src/DynPlugin/Loading/Started.antt =====
-- How Start of dynplugin/process.go ends.
use p2p_tun.Prelude.{
  Bool, Bool-cases, List, Option, Result, [], err, false, inl, inr, none, ok, refl, some, true,
  ◌&&◌, ◌||◌, ◌∷◌, ◌≡◌, ◌⊎◌,
}
use p2p_tun.DynPlugin.{Handshake}
use p2p_tun.DynPlugin.Exec.{parse_exec}
use p2p_tun.DynPlugin.Loading.{
  Command, Fate, FirstLine, Launch, Outcome, PluginManifest, StartError, blocks, check_handshake,
  command_of, config_not_sent, invalid_handshake, killed, launch_parts, launch_process, left, line,
  no_command, no_handshake, no_name, no_pipe, not_run, not_started, over, returns, silence, start,
}
use p2p_tun.Text.{Text, is_empty}

-- What Start does with the process when it returns this.
abbrev pub fate_of : Result StartError Handshake → Fate
fate_of (ok h) = left
fate_of (err no_command) = not_run
fate_of (err no_pipe) = not_run
fate_of (err not_started) = not_run
fate_of (err no_handshake) = left
fate_of (err invalid_handshake) = killed
fate_of (err no_name) = killed
fate_of (err config_not_sent) = killed

-- The launch of a manifest whose command has a first word.
abbrev pub launched : Text → (Command → List Text → Launch) → Option (List Text) → Option Launch
launched dir launch none = none
launched dir launch (some []) = none
launched dir launch (some (path ∷ args)) = some (launch (command_of dir path) args)

-- A process that was started and writes nothing.
abbrev pub hangs : Option Launch → Bool
hangs none = false
hangs (some l) =
    l.pipes && l.started && elim l.first_line as (λ x. Bool) [ silence ↦ true | _ ↦ false ]

-- Start blocks on a silent process and on no other, and the fate fits what it returns.
abbrev pub Fits : Option Launch → Outcome → Type 0
Fits o blocks = hangs o ≡ true
Fits o (returns f r) = (hangs o ≡ false) × (f ≡ fate_of r)

-- A plugin that is taken into use has a name.
abbrev pub IsNamed : Outcome → Type 0
IsNamed (returns f (ok h)) = is_empty h.name ≡ false
IsNamed _ = Unit

check_handshake-IsNamed :
    (m : PluginManifest) (l : Launch) (o : Option Handshake) → IsNamed (check_handshake m l o)
check_handshake-IsNamed m l none = tt
check_handshake-IsNamed m l (some h) = elim (Bool-cases (is_empty h.name)) [
  | inl e ↦ rw e tt
  | inr e ↦ elim (Bool-cases (is_empty m.config || l.config_sent)) [
    | inl c ↦ rw (e, c) e
    | inr c ↦ rw (e, c) tt
  ]
]

FirstLine-cases : (x : FirstLine) → (x ≡ line) ⊎ ((x ≡ over) ⊎ (x ≡ silence))
FirstLine-cases line = inl refl
FirstLine-cases over = inr (inl refl)
FirstLine-cases silence = inr (inr refl)

launch_process-IsNamed : (m : PluginManifest) (l : Launch) → IsNamed (launch_process m l)
unfolding launch_process
launch_process-IsNamed m l = elim (Bool-cases l.pipes) [
  | inr p ↦ rw (launch_process, p) tt
  | inl p ↦ elim (Bool-cases l.started) [
    | inr s ↦ rw (launch_process, p, s) tt
    | inl s ↦ elim (FirstLine-cases l.first_line) [
      | inl f ↦ rw (launch_process, p, s, f) (check_handshake-IsNamed m l l.handshake)
      | inr (inl f) ↦ rw (launch_process, p, s, f) tt
      | inr (inr f) ↦ rw (launch_process, p, s, f) tt
    ]
  ]
]

pub start-IsNamed :
    (m : PluginManifest) (dir : Text) (launch : Command → List Text → Launch)
    → IsNamed (start m dir launch)
unfolding start
start-IsNamed m dir launch = go (parse_exec m.exec)
  where
    go : (o : Option (List Text)) → IsNamed (launch_parts m dir launch o)
    go none = tt
    go (some []) = tt
    go (some (path ∷ args)) = launch_process-IsNamed m (launch (command_of dir path) args)
