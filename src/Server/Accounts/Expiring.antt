-- ===== src/Server/Accounts/Expiring.antt =====
-- udpSessionCleanup of signal-server/main.go keeps the limiter right.
use mathlib.Core.List.{append_assoc}
use mathlib.Core.Path.{subst}
use p2p_tun.Prelude.{
  Bool, Bool-cases, [], ap, false, inl, inr, refl, sym, true, ℕ, ◌++◌, ◌∙◌, ◌∷◌, ◌≡◌,
}
use p2p_tun.Prelude.Assoc.{Assoc, IsMap, erase, has}
use p2p_tun.Server.{State, UdpSession, account_close, limit_close}
use p2p_tun.Server.Accounts.Cleaning.{IsMap-middle, erase-append, expire-parts, has-middle}
use p2p_tun.Server.Accounts.Handlers.{Kept, closed_session-Kept}
use p2p_tun.Server.Udp.{clean_sessions, clean_tick, expire, is_idle}

expire-Kept :
    (max lost : ℕ) (sent : Bool) (now key : ℕ) (session : UdpSession) (s : State)
    → has key s.client.udp_sessions ≡ true
    → Kept max lost s
    → Kept max lost (expire sent now key session s)
unfolding expire account_close limit_close
expire-Kept max lost true now key session s h k =
    closed_session-Kept max lost session.channel_id key now s h k
expire-Kept max lost false now key session s h k =
    closed_session-Kept max lost session.channel_id key now s h k

clean_sessions-Kept :
    (max lost : ℕ) (sends : ℕ → Bool) (now : ℕ) (kept m : Assoc UdpSession) (s : State)
    → s.client.udp_sessions ≡ kept ++ m
    → Kept max lost s
    → Kept max lost (clean_sessions sends now m s)
unfolding clean_sessions
clean_sessions-Kept max lost sends now kept [] s e k = k
clean_sessions-Kept max lost sends now kept ((key, session) ∷ m) s e k =
    let w = subst IsMap e k.sessions in
    let there = subst (λ x. has key x ≡ true) (sym e) (has-middle key session kept m) in
    let gone =
      ap (erase key) e ∙ erase-append key session kept m (IsMap-middle key session kept m w) in
    let sent = sends session.channel_id in
    elim (Bool-cases (is_idle now session)) [
      | inl i ↦
          rw (clean_sessions, i)
            (clean_sessions-Kept max lost sends now kept m (expire sent now key session s)
              ((expire-parts sent now key session s).0 ∙ gone)
              (expire-Kept max lost sent now key session s there k))
      | inr i ↦
          rw (clean_sessions, i)
            (clean_sessions-Kept max lost sends now (kept ++ (key, session) ∷ []) m s
              (e ∙ sym (append_assoc kept ((key, session) ∷ []) m)) k)
    ]

pub clean_tick-Kept :
    (max lost : ℕ) (sends : ℕ → Bool) (now : ℕ) (s : State)
    → Kept max lost s
    → Kept max lost (clean_tick sends now s).1
unfolding clean_tick
clean_tick-Kept max lost sends now s k = elim (Bool-cases s.client.udp_locked) [
  | inl e ↦ simp e k
  | inr e ↦ simp e (clean_sessions-Kept max lost sends now [] s.client.udp_sessions s refl k)
]
