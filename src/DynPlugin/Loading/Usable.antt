-- ===== src/DynPlugin/Loading/Usable.antt =====
-- Which plugins LoadDir and LoadPlugin of dynplugin/manager.go take into use.
use mathlib.Core.Option
use mathlib.Core.Path.{subst}
use p2p_tun.Prelude.{
  All, Bool-cases, List, Option, Result, [], err, false, inl, inr, none, ok, or_false, some, ◌++◌,
  ◌||◌, ◌∷◌, ◌≡◌,
}
use p2p_tun.DynPlugin.Loading.{
  Command, Entry, Launch, LoadError, Loaded, Outcome, PluginManifest, blocks, both_loaded,
  is_disabled, load_children, load_dir, load_entries, load_entry, load_manifest, load_own_started,
  load_plugin, load_started, returns, start,
}
use p2p_tun.DynPlugin.Loading.Started.{IsNamed, start-IsNamed}
use p2p_tun.Text.{Text, is_empty}

-- A plugin that may be in use.
abbrev pub IsUsable : Loaded → Type 0
IsUsable l =
    (is_empty l.manifest.exec ≡ false)
    × (is_disabled l.manifest.enabled ≡ false)
    × (is_empty l.handshake.name ≡ false)

-- What loading returns, if it returns: plugins that may be in use.
abbrev Loads : Option (List Loaded) → Type 0
Loads none = Unit
Loads (some ls) = All IsUsable ls

load_started-Loads :
    (m : PluginManifest) (o : Outcome)
    → is_empty m.exec ≡ false
    → is_disabled m.enabled ≡ false
    → IsNamed o
    → Loads (load_started m o)
load_started-Loads m blocks x d w = tt
load_started-Loads m (returns f (err e)) x d w = tt
load_started-Loads m (returns f (ok h)) x d w = ((x, d, w), tt)

load_manifest-Loads :
    (launch : Command → List Text → Launch) (path : Text) (o : Option PluginManifest)
    → Loads (load_manifest launch path o)
unfolding load_plugin
load_manifest-Loads launch path none = tt
load_manifest-Loads launch path (some m) =
    elim (Bool-cases (is_empty m.exec || is_disabled m.enabled)) [
      | inl e ↦ rw e tt
      | inr e ↦
          let (x, d) = or_false (is_empty m.exec) (is_disabled m.enabled) e in
          rw e (load_started-Loads m (start m path launch) x d (start-IsNamed m path launch))
    ]

load_entry-Loads : (launch : Command → List Text → Launch) (e : Entry) → Loads (load_entry launch e)
unfolding load_entry
load_entry-Loads launch e = elim (Bool-cases e.is_dir) [
  | inl d ↦ rw (load_entry, d) (load_manifest-Loads launch e.path e.manifest)
  | inr d ↦ rw (load_entry, d) tt
]

All-join : (xs ys : List Loaded) → All IsUsable xs → All IsUsable ys → All IsUsable (xs ++ ys)
All-join [] ys v w = w
All-join (x ∷ xs) ys v w = (v.0, All-join xs ys v.1 w)

join-Loads : (a b : Option (List Loaded)) → Loads a → Loads b → Loads (both_loaded a b)
join-Loads none b v w = tt
join-Loads (some ls) none v w = tt
join-Loads (some ls) (some later) v w = All-join ls later v w

load_entries-Loads :
    (launch : Command → List Text → Launch) (es : List Entry) → Loads (load_entries launch es)
unfolding load_entries
load_entries-Loads launch [] = tt
load_entries-Loads launch (e ∷ es) =
    join-Loads (load_entry launch e) (load_entries launch es) (load_entry-Loads launch e)
      (load_entries-Loads launch es)

abbrev AllUsable : Option (Result LoadError (List Loaded)) → Type 0
AllUsable (some (ok ls)) = All IsUsable ls
AllUsable _ = Unit

children-AllUsable : (o : Option (List Loaded)) → Loads o → AllUsable (Option.map ok o)
children-AllUsable none w = tt
children-AllUsable (some ls) w = w

load_children-AllUsable :
    (launch : Command → List Text → Launch) (o : Option (List Entry))
    → AllUsable (load_children launch o)
load_children-AllUsable launch none = tt
load_children-AllUsable launch (some es) =
    children-AllUsable (load_entries launch es) (load_entries-Loads launch es)

load_own_started-AllUsable :
    (m : PluginManifest) (o : Outcome)
    → is_empty m.exec ≡ false
    → is_disabled m.enabled ≡ false
    → IsNamed o
    → AllUsable (load_own_started m o)
load_own_started-AllUsable m blocks x d w = tt
load_own_started-AllUsable m (returns f (err e)) x d w = tt
load_own_started-AllUsable m (returns f (ok h)) x d w = ((x, d, w), tt)

load_dir-AllUsable :
    (launch : Command → List Text → Launch) (dir : Text) (own : Option PluginManifest)
    (entries : Option (List Entry))
    → AllUsable (load_dir launch dir own entries)
unfolding load_dir
load_dir-AllUsable launch dir none entries = load_children-AllUsable launch entries
load_dir-AllUsable launch dir (some m) entries = elim (Bool-cases (is_empty m.exec)) [
  | inl e ↦ rw e (load_children-AllUsable launch entries)
  | inr e ↦ elim (Bool-cases (is_disabled m.enabled)) [
    | inl d ↦ rw (e, d) tt
    | inr d ↦
        rw (e, d)
          (load_own_started-AllUsable m (start m dir launch) e d (start-IsNamed m dir launch))
  ]
]

-- Whatever is in a plugin directory and whatever its programs do, every plugin that LoadDir loads
-- has a manifest with a command that is not disabled, and told a name in its handshake.
pub load_dir-IsUsable :
    (launch : Command → List Text → Launch) (dir : Text) (own : Option PluginManifest)
    (entries : Option (List Entry)) (ls : List Loaded)
    → load_dir launch dir own entries ≡ some (ok ls)
    → All IsUsable ls
load_dir-IsUsable launch dir own entries ls h =
    subst AllUsable h (load_dir-AllUsable launch dir own entries)
