-- ===== src/Server/Accounts/Handlers.antt =====
-- The handlers of signal-server/main.go leave the limiter of the client with the number of its
-- channels and sessions.
use p2p_tun.Plugin.Manager
use p2p_tun.Plugin.RateLimit
use mathlib.Core.Path.{subst}
use p2p_tun.Prelude.{
  Bool-cases, Bytes, Option, Option-cases, arith, false, if◌then◌else◌, inl, inr, length, some, sym,
  true, ℕ, ◌+◌, ◌<◌, ◌^◌, ◌≡◌,
}
use p2p_tun.Plugin.Compression.{Lz4}
use p2p_tun.Plugin.Manager.{Manager}
use p2p_tun.Plugin.Manager.Filters.{on_open_stays}
use p2p_tun.Plugin.RateLimit.{RateLimit, wait}
use p2p_tun.Prelude.Assoc.{erase, has, has-insert, insert}
use p2p_tun.Server.{
  Answer, Origin, ServiceMapping, State, account_close, forward, next_channel, throttle,
}
use p2p_tun.Server.Accept.{accept_tcp, announce_tcp, check_accept, check_client, open_tcp}
use p2p_tun.Server.Accounts.{
  Accounts, add_channel-Accounts, drop_channel-Accounts, drop_session-Accounts,
  limit_accept-Accounts, limit_close-Accounts,
}
use p2p_tun.Text.{text}

-- The limiter counts the channels and sessions, and those that are lost: taken away without telling it.
abbrev pub Kept : ℕ → ℕ → State → Type 0
Kept max lost s = Accounts max lost s.next_cid s.client

pub account_close-Kept :
    (max lost : ℕ) (channel_id now : ℕ) (s : State)
    → Accounts max (lost + 1) s.next_cid s.client
    → Kept max lost (account_close channel_id now s)
unfolding account_close
account_close-Kept max lost channel_id now s k = limit_close-Accounts max lost s.next_cid s.client k

-- A state with one channel fewer, for which the plugins and the limiter are told.
pub closed_channel-Kept :
    (max lost : ℕ) (channel_id now : ℕ) (s : State)
    → has channel_id s.client.channel_conns ≡ true
    → Kept max lost s
    → Kept max lost (
        account_close channel_id now (record s {
          client = record s.client { channel_conns = erase channel_id s.client.channel_conns };
        }))
closed_channel-Kept max lost channel_id now s h k =
    account_close-Kept max lost channel_id now
      (record s {
        client = record s.client { channel_conns = erase channel_id s.client.channel_conns };
      })
      (drop_channel-Accounts max lost s.next_cid channel_id s.client h k)

pub closed_session-Kept :
    (max lost : ℕ) (channel_id addr now : ℕ) (s : State)
    → has addr s.client.udp_sessions ≡ true
    → Kept max lost s
    → Kept max lost (
        account_close channel_id now (record s {
          client = record s.client { udp_sessions = erase addr s.client.udp_sessions };
        }))
closed_session-Kept max lost channel_id addr now s h k =
    account_close-Kept max lost channel_id now
      (record s { client = record s.client { udp_sessions = erase addr s.client.udp_sessions } })
      (drop_session-Accounts max lost s.next_cid addr s.client h k)

announce_tcp-Kept :
    (max lost : ℕ) (svc : ServiceMapping) (conn channel_id : ℕ) (from : Origin) (a : Answer)
    (s : State)
    → has channel_id s.client.channel_conns ≡ true
    → Kept max lost s
    → Kept max lost (announce_tcp svc conn channel_id from a s).1
unfolding announce_tcp
announce_tcp-Kept max lost svc conn channel_id from a s h k =
    ground (arith, k, closed_channel-Kept max lost channel_id a.now s h k)

open_tcp-Kept :
    (max lost : ℕ) (svc : ServiceMapping) (conn : ℕ) (from : Origin) (a : Answer) (s : State)
    → s.next_cid + 1 < 2 ^ 32
    → (Manager.on_open s.mgr a.opened
        (text "tcp")
        from.addr
        (next_channel s.next_cid)
        svc.local_port
        a.now).0.close
      ≡ false
    → Accounts max (lost + 1) s.next_cid s.client
    → Kept max lost (open_tcp svc conn from a s).1
unfolding open_tcp
open_tcp-Kept max lost svc conn from a s h q k =
    let channel_id = next_channel s.next_cid in
    let (action, mgr) =
      Manager.on_open s.mgr a.opened (text "tcp") from.addr channel_id svc.local_port a.now in
    let c = record s.client { channel_conns = insert channel_id conn s.client.channel_conns } in
    rw q (
      announce_tcp-Kept max lost svc conn channel_id from a
        (record s { next_cid = channel_id; mgr = mgr; client = c })
        (has-insert channel_id conn s.client.channel_conns)
        (add_channel-Accounts max lost s.next_cid conn s.client h k))

check_accept-Kept :
    (max lost : ℕ) (conn : ℕ) (from : Origin) (a : Answer) (s : State)
    → Kept max lost s
    → Accounts max
        (if (check_accept conn from a s).0 then lost + 1 else lost)
        s.next_cid
        (check_accept conn from a s).1.client
unfolding check_accept check_client
check_accept-Kept max lost conn from a s k =
    ground (arith, limit_accept-Accounts max lost s.next_cid s.client k)

check_accept_cid :
    (conn : ℕ) (from : Origin) (a : Answer) (s : State)
    → (check_accept conn from a s).1.next_cid ≡ s.next_cid
unfolding check_accept check_client
check_accept_cid conn from a s = ground arith

rate_limited-Kept :
    (max lost : ℕ) (r : Option RateLimit) (s : State)
    → Kept max lost s
    → Accounts max lost s.next_cid (record s.client { rate_limiter = r })
rate_limited-Kept max lost r s k = record {
  limit = k.limit;
  maximum = k.maximum;
  limiter = k.limiter;
  counts = k.counts;
  channels = k.channels;
  sessions = k.sessions;
  below = k.below;
}

pub throttle-Kept :
    (max lost : ℕ) (n now late : ℕ) (s : State)
    → Kept max lost s
    → Kept max lost (throttle n now late s)
unfolding throttle
throttle-Kept max lost n now late s k = elim (Option-cases s.client.rate_limiter) [
  | inl e ↦ elim (Option-cases s.rate_limiter) [
    | inl f ↦ rw (throttle, e, f) k
    | inr (r, f) ↦ rw (throttle, e, f) k
  ]
  | inr (r, e) ↦
      rw (throttle, e) (rate_limited-Kept max lost (some (RateLimit.wait r n now late).0) s k)
]

pub forward-Kept :
    (max lost : ℕ) (lz4 : Lz4) (channel_id : ℕ) (payload : Bytes) (a : Answer) (s : State)
    → Kept max lost s
    → Kept max lost (forward lz4 channel_id payload a s).1
unfolding forward
forward-Kept max lost lz4 channel_id payload a s k =
    ground (arith, throttle-Kept max lost (length payload) a.now a.late s k)

pub accept_tcp-Kept :
    (max lost : ℕ) (svc : ServiceMapping) (conn : ℕ) (from : Origin) (a : Answer) (s : State)
    → s.next_cid + 1 < 2 ^ 32
    → a.opened.close ≡ false
    → Kept max lost s
    → Kept max lost (accept_tcp svc conn from a s).1
unfolding accept_tcp
accept_tcp-Kept max lost svc conn from a s h q k =
    let s' = (check_accept conn from a s).1 in
    let same = check_accept_cid conn from a s in
    let checked =
      subst
        (λ n. Accounts max (if (check_accept conn from a s).0 then lost + 1 else lost) n s'.client)
        (sym same) (check_accept-Kept max lost conn from a s k) in
    elim (Bool-cases (check_accept conn from a s).0) [
      | inl e ↦ rw e (
          open_tcp-Kept max lost svc conn from a s' (rw same h)
            (on_open_stays s'.mgr a.opened (text "tcp") from.addr (next_channel s'.next_cid)
              svc.local_port a.now q)
            (rw e at checked))
      | inr e ↦ rw e (rw e at checked)
    ]
