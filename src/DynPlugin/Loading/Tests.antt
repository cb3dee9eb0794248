-- ===== src/DynPlugin/Loading/Tests.antt =====
-- The theorems on loading and serving plugins at concrete manifests.
use p2p_tun.Prelude.{List, [], err, none, refl, some, true, ◌∷◌, ◌≡◌}
use p2p_tun.DynPlugin.{Handshake}
use p2p_tun.DynPlugin.Exec.{exec_rune, exec_runes, flush, parse_exec}
use p2p_tun.DynPlugin.Loading.{
  Launch, Loaded, PluginManifest, blocks, launch_process, left, line, no_handshake, over, returns,
  silence, start,
}
use p2p_tun.Text.{text}

abbrev ping_manifest : PluginManifest
ping_manifest = record { name = text "ping"; exec = text "./ping -v"; config = []; enabled = none }

abbrev silent : Launch
silent = record {
  pipes = true;
  started = true;
  first_line = silence;
  handshake = none;
  config_sent = true;
}

abbrev greeting : Handshake
greeting = record { name = text "ping"; version = text "1"; hooks = [] }

abbrev well : Launch
well = record silent { first_line = line; handshake = some greeting }

silent_blocks : start ping_manifest (text "/p") (λ c args. silent) ≡ blocks
unfolding start parse_exec exec_runes exec_rune flush launch_process
silent_blocks = refl

-- A program whose output ends.
abbrev ends : Launch
ends = record silent { first_line = over }

ends_left : start ping_manifest (text "/p") (λ c args. ends) ≡ returns left (err no_handshake)
unfolding start parse_exec exec_runes exec_rune flush launch_process
ends_left = refl

abbrev ping_loaded : List Loaded
ping_loaded = record { manifest = ping_manifest; handshake = greeting } ∷ []
