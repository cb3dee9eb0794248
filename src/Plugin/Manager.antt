-- ===== src/Plugin/Manager.antt =====
-- plugin.Manager of plugin/plugin.go, with the adapters of dynplugin/adapter.go and the set-up in
-- main of signal-server/main.go. What the dynamic plugins answer to a call is an argument of it.
pub mod Filters
pub mod Leak
use p2p_tun.Plugin.ConnLimit
use p2p_tun.Plugin.IpFilter
use p2p_tun.Plugin.TrafficLog
use p2p_tun.Plugin.Compression
use mathlib.Core.Option
use p2p_tun.Prelude.{
  Bool, Bytes, List, Option, [], false, if◌then◌else◌, ltb, map, none, some, true, ℕ, ◌++◌, ◌||◌,
  ◌∷◌,
}
use p2p_tun.Plugin.Compression.{Compression, Lz4, new_compression}
use p2p_tun.Plugin.ConnLimit.{ConnLimit, new_conn_limit}
use p2p_tun.Plugin.ConnLimit.Race.{close}
use p2p_tun.Plugin.IpFilter.{IpFilter}
use p2p_tun.Plugin.TrafficLog.{TrafficLog, new_traffic_log}
use p2p_tun.Text.{Text}

pub record PluginAction : Type 0 where
  pub close : Bool
  pub reason : Text

abbrev pub no_action : PluginAction
no_action = record { close = false; reason = [] }

-- The implementations of AcceptFilter. `shared_limit` is the limiter that the manager's connLimiter
-- points to as well, and `own_limit` one that only the list of filters has.
pub data AcceptFilter : Type 0 where
  ip_filter : IpFilter → AcceptFilter
  own_limit : ConnLimit → AcceptFilter
  shared_limit dynamic : AcceptFilter

-- The implementations of TrafficLogger.
pub data Logger : Type 0 where
  traffic_log : TrafficLog → Logger
  dynamic_log : Logger

pub record Manager : Type 0 where
  pub accept_filters : List AcceptFilter
  pub compressor : Option Compression
  pub decompressor : Option Compression
  pub logger : Option Logger
  pub conn_limiter : Option ConnLimit

abbrev pub new_manager : Manager
new_manager = record {
  accept_filters = [];
  compressor = none;
  decompressor = none;
  logger = none;
  conn_limiter = none;
}

abbrev pub add_accept_filter : Manager → AcceptFilter → Manager
add_accept_filter m f = record m { accept_filters = m.accept_filters ++ f ∷ [] }

-- A limiter that the manager no longer points to stays in the list of filters.
unfoldable pub detach : Option ConnLimit → List AcceptFilter → List AcceptFilter
detach l [] = []
detach none (f ∷ fs) = f ∷ detach none fs
detach (some l) (shared_limit ∷ fs) = own_limit l ∷ detach (some l) fs
detach (some l) (f ∷ fs) = f ∷ detach (some l) fs

unfoldable pub set_conn_limiter : Manager → ConnLimit → Manager
unfolding detach
set_conn_limiter m l = record m {
  accept_filters = detach m.conn_limiter m.accept_filters ++ shared_limit ∷ [];
  conn_limiter = some l;
}

-- One filter's OnAccept, with the limiter of the manager and the filter as they are afterwards.
unfoldable pub apply_filter :
    Bool → Option Bytes → Option ConnLimit → AcceptFilter → Bool × Option ConnLimit × AcceptFilter
apply_filter answer ip limiter (ip_filter f) = (IpFilter.on_accept f ip, limiter, ip_filter f)
apply_filter answer ip limiter (own_limit l) =
    let (passed, l') = ConnLimit.on_accept l in (passed, limiter, own_limit l')
apply_filter answer ip (some l) shared_limit =
    let (passed, l') = ConnLimit.on_accept l in (passed, some l', shared_limit)
apply_filter answer ip none shared_limit = (true, none, shared_limit)
apply_filter answer ip limiter dynamic = (answer, limiter, dynamic)

-- The loop of OnAccept: the first filter that refuses ends it.
unfoldable pub run_filters :
    Bool
    → Option Bytes
    → Option ConnLimit
    → List AcceptFilter
    → Bool × Option ConnLimit × List AcceptFilter
run_filters answer ip limiter [] = (true, limiter, [])
run_filters answer ip limiter (f ∷ fs) =
    let (passed, limiter', f') = apply_filter answer ip limiter f in
    let (all_passed, limiter'', fs') = run_filters answer ip limiter' fs in
    if passed then (all_passed, limiter'', f' ∷ fs') else (false, limiter', f' ∷ fs)

-- Manager.OnAccept; `answer` is what the dynamic plugins say of this address.
unfoldable pub on_accept : Manager → Bool → Option Bytes → Bool × Manager
on_accept m answer ip =
    let (passed, limiter, filters) = run_filters answer ip m.conn_limiter m.accept_filters in
    (passed, record m { conn_limiter = limiter; accept_filters = filters })

abbrev pub is_some {ℓ} : {A : Type ℓ} → Option A → Bool
is_some none = false
is_some (some a) = true

unfoldable pub has_compressor : Manager → Bool
has_compressor m = is_some m.compressor

unfoldable pub can_decompress : Manager → Bool
can_decompress m = is_some m.compressor || is_some m.decompressor

module _ (lz4 : Lz4) where
  unfoldable pub compress : Manager → Bytes → Bytes × Bool
  compress m b = elim m.compressor [ none ↦ (b, false) | some c ↦ Compression.compress lz4 c b ]

  -- Manager.Decompress; `none` is its error.
  unfoldable pub decompress : Manager → Bytes → Option Bytes
  decompress m b = if can_decompress m then Compression.decompress lz4 b else some b

-- OnOpen: ConnLimit.OnOpen does nothing; a traffic log never closes, and the adapter passes the
-- dynamic plugins' answer on.
unfoldable pub on_open : Manager → PluginAction → Text → ℕ → ℕ → ℕ → ℕ → PluginAction × Manager
on_open m answer proto remote_addr channel_id local_port now = elim m.logger [
  | none ↦ (no_action, m)
  | some l ↦ elim l [
    | dynamic_log ↦ (answer, m)
    | traffic_log t ↦ (
      no_action,
      record m {
        logger =
            some (traffic_log (TrafficLog.on_open t proto remote_addr channel_id local_port now));
      },
    )
  ]
]

abbrev pub log_close : ℕ → ℕ → Logger → Logger
log_close channel_id now dynamic_log = dynamic_log
log_close channel_id now (traffic_log t) = traffic_log (TrafficLog.on_close t channel_id now)

unfoldable pub on_close : Manager → ℕ → ℕ → Manager
on_close m channel_id now = record m {
  conn_limiter = Option.map ConnLimit.on_close m.conn_limiter;
  logger = Option.map (log_close channel_id now) m.logger;
}

-- OnData: the traffic log counts, and the adapter notifies; both return an empty action.
unfoldable pub on_data : Manager → ℕ → Text → ℕ → PluginAction × Manager
on_data m channel_id dir n = elim m.logger [
  | none ↦ (no_action, m)
  | some l ↦ elim l [
    | dynamic_log ↦ (no_action, m)
    | traffic_log t ↦ (
      no_action,
      record m { logger = some (traffic_log (TrafficLog.on_data t channel_id dir n)) },
    )
  ]
]

-- OnCheck: the channels that the dynamic plugins want closed.
unfoldable pub on_check : Manager → List ℕ → List ℕ
on_check m answer = elim m.logger [
  | none ↦ []
  | some l ↦ elim l [ dynamic_log ↦ answer | traffic_log t ↦ [] ]
]

-- The flags of the server that main turns into plugins; a limit that is not positive is 0.
pub record Setup : Type 0 where
  pub ip_filter : Option IpFilter
  pub log_file : Bool
  pub compress : Bool
  pub max_conns : ℕ
  pub plugin_dir : Bool

unfoldable pub with_ip_filter : Option IpFilter → Manager → Manager
with_ip_filter none m = m
with_ip_filter (some f) m = add_accept_filter m (AcceptFilter.ip_filter f)

unfoldable pub with_log : Bool → Manager → Manager
with_log false m = m
with_log true m = record m { logger = some (traffic_log TrafficLog.new_traffic_log) }

unfoldable pub with_compression : Bool → Compression → Manager → Manager
with_compression true c m = record m { compressor = some c }
with_compression false c m = record m { decompressor = some c }

unfoldable pub with_limit : ℕ → Manager → Manager
with_limit max_conns m =
    if ltb 0 max_conns then set_conn_limiter m (new_conn_limit max_conns) else m

unfoldable pub with_plugins : Bool → Manager → Manager
with_plugins false m = m
with_plugins true m = record (add_accept_filter m dynamic) { logger = some dynamic_log }

-- The part of main from plugin.NewManager to the dynamic plugins.
unfoldable pub configure : Setup → Manager
configure s = with_plugins s.plugin_dir (
    with_limit s.max_conns (
      with_compression s.compress (new_compression (some 128))
        (with_log s.log_file (with_ip_filter s.ip_filter new_manager))))
