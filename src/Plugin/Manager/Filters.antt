-- ===== src/Plugin/Manager/Filters.antt =====
-- What the hooks of plugin/plugin.go can answer.
use p2p_tun.Prelude.{arith, false, ℕ, ◌≡◌}
use p2p_tun.Plugin.Manager.{Manager, PluginAction, on_data, on_open}
use p2p_tun.Text.{Text}

-- No plugin ever closes a connection over its data: both loggers answer OnData with an empty action.
pub on_data_never_closes :
    (m : Manager) (channel_id : ℕ) (dir : Text) (n : ℕ)
    → (on_data m channel_id dir n).0.close ≡ false
unfolding on_data
on_data_never_closes m channel_id dir n = ground arith

pub on_open_stays :
    (m : Manager) (answer : PluginAction) (proto : Text) (addr channel_id port now : ℕ)
    → answer.close ≡ false
    → (on_open m answer proto addr channel_id port now).0.close ≡ false
unfolding on_open
on_open_stays m answer proto addr channel_id port now q = ground (arith, q)
