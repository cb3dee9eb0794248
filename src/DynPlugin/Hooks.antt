-- ===== src/DynPlugin/Hooks.antt =====
-- What the hooks of dynplugin/manager.go decide, over all the plugins.
use p2p_tun.Prelude.{Bool, List, Option, [], arith, false, none, refl, some, true, ◌↔◌, ◌∷◌, ◌≡◌}
use p2p_tun.DynPlugin.{
  PluginProcess, Reply, flag, on_accept, on_open, or_close, or_refuse, says_close, verdict,
}
use p2p_tun.Plugin.Manager.{PluginAction}
use p2p_tun.Text.{Text, text}

abbrev pub EveryPlugin : (PluginProcess → Type 0) → List PluginProcess → Type 0
EveryPlugin P [] = Unit
EveryPlugin P (p ∷ ps) = P p × EveryPlugin P ps

-- If the plugin is asked and answers, it allows the connection.
abbrev pub Permits : Option Reply → Type 0
Permits none = Unit
Permits (some r) = flag r.allowed ≡ true

or_refuse_iff :
    (v : Option Reply) (later : Bool × Text)
    → ((or_refuse v later).0 ≡ true) ↔ (Permits v × (later.0 ≡ true))
or_refuse_iff none later = ((λ e. (tt, e)), (λ r. r.1))
or_refuse_iff (some r) later = ((λ e. ground (arith, e)), (λ q. ground (arith, q.0, q.1)))

abbrev pub Allows : PluginProcess → Type 0
Allows p = Permits (verdict (text "on_accept") p)

-- A connection is let in exactly when every plugin that is asked and answers allows it: one that is
-- dead, has no such hook, fails or times out does not count.
pub on_accept_iff_allowed :
    (ps : List PluginProcess) → ((on_accept ps).0 ≡ true) ↔ EveryPlugin Allows ps
unfolding on_accept
on_accept_iff_allowed [] = ((λ e. tt), (λ a. refl))
on_accept_iff_allowed (p ∷ ps) =
    let head = or_refuse_iff (verdict (text "on_accept") p) (on_accept ps) in
    let rest = on_accept_iff_allowed ps in
    ((λ e. ((head.0 e).0, rest.0 (head.0 e).1)), (λ a. head.1 (a.0, rest.1 a.1)))

-- If the plugin is asked and answers, it does not say that the connection is to be closed.
abbrev pub Spares : Option Reply → Type 0
Spares none = Unit
Spares (some r) = says_close r ≡ false

or_close_iff :
    (v : Option Reply) (later : PluginAction)
    → ((or_close v later).close ≡ false) ↔ (Spares v × (later.close ≡ false))
or_close_iff none later = ((λ e. (tt, e)), (λ r. r.1))
or_close_iff (some r) later = ((λ e. ground (arith, e)), (λ q. ground (arith, q.0, q.1)))

abbrev pub Welcomes : PluginProcess → Type 0
Welcomes p = Spares (verdict (text "on_open") p)

-- A connection stays open exactly when no plugin that is asked and answers says `close`.
pub on_open_iff_welcome :
    (ps : List PluginProcess) → ((on_open ps).close ≡ false) ↔ EveryPlugin Welcomes ps
unfolding on_open
on_open_iff_welcome [] = ((λ e. tt), (λ a. refl))
on_open_iff_welcome (p ∷ ps) =
    let head = or_close_iff (verdict (text "on_open") p) (on_open ps) in
    let rest = on_open_iff_welcome ps in
    ((λ e. ((head.0 e).0, rest.0 (head.0 e).1)), (λ a. head.1 (a.0, rest.1 a.1)))
