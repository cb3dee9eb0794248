-- ===== src/Server/Accounts/Checking.antt =====
-- runPluginChecker of signal-server/main.go takes a channel away without telling the limiter.
use p2p_tun.Prelude.{Bool-cases, Option-cases, arith, if◌then◌else◌, inl, inr, refl, ℕ, ◌+◌}
use p2p_tun.Prelude.Assoc.{has, lookup}
use p2p_tun.Server.{Client, State, find_session}
use p2p_tun.Server.Accounts.{Accounts, drop_channel-Accounts, drop_session-Accounts}
use p2p_tun.Server.Accounts.Closing.{find_session-has}
use p2p_tun.Server.Accounts.Handlers.{Kept}
use p2p_tun.Server.Check.{check_client_channel, check_state}
use p2p_tun.Stun.{found}

-- A client that had the channel has one connection fewer than its limiter counts.
check_client_channel-Accounts :
    (max lost n channel_id : ℕ) (c : Client)
    → Accounts max lost n c
    → let (_, found, _, c') = check_client_channel channel_id c in
      Accounts max (if found then lost + 1 else lost) n c'
unfolding check_client_channel
check_client_channel-Accounts max lost n channel_id c k =
    elim (Option-cases (lookup channel_id c.channel_conns)) [
      | inl e ↦ elim (Bool-cases c.udp_locked) [
        | inl u ↦ simp (check_client_channel, e, u) k
        | inr u ↦ elim (Option-cases (find_session channel_id c.udp_sessions)) [
          | inl f ↦ rw (check_client_channel, e, u, f) k
          | inr ((key, session), f) ↦
              rw (check_client_channel, e, u, f)
                (drop_session-Accounts max lost n key c
                  (find_session-has channel_id c.udp_sessions key session f) k)
        ]
      ]
      | inr (conn, e) ↦
          rw (check_client_channel, e)
            (drop_channel-Accounts max lost n channel_id c (rw (has, e) refl) k)
    ]

pub check_state-Kept :
    (max lost channel_id now : ℕ) (s : State)
    → Kept max lost s
    → let (found, s') = check_state channel_id now s in
      Kept max (if found then lost + 1 else lost) s'
unfolding check_state
check_state-Kept max lost channel_id now s k =
    ground (arith, check_client_channel-Accounts max lost s.next_cid channel_id s.client k)
