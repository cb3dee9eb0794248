-- ===== src/Server/Accounts.antt =====
-- What the limiter of a client counts: its channels and its UDP sessions. The lemmas on the parts of
-- the handlers of signal-server/main.go.
pub mod Handlers
pub mod Sessions
pub mod Closing
pub mod Cleaning
pub mod Checking
pub mod Expiring
use p2p_tun.Plugin.ConnLimit
use mathlib.Core.Option
use mathlib.Core.Path.{subst}
use p2p_tun.Prelude.{
  [], arith, false, if◌then◌else◌, length, ltb, refl, some, true, ℕ, ◌+◌, ◌<◌, ◌^◌, ◌∙◌, ◌∷◌, ◌≡◌,
  ◌≤◌,
}
use p2p_tun.Plugin.ConnLimit.{ConnLimit}
use p2p_tun.Plugin.ConnLimit.Bounds.{Counts, on_accept-Counts, on_close-Counts}
use p2p_tun.Prelude.Assoc.{
  Assoc, Fresh, Fresh-lookup, IsMap, IsMap-erase, IsMap-insert, erase, has, insert, length-erase,
  length-insert,
}
use p2p_tun.Server.{Client, UdpSession, limit_accept, limit_close, next_channel}

abbrev pub Below {ℓ} : {V : Type ℓ} → ℕ → Assoc V → Type 0
Below n [] = Unit
Below n ((k, v) ∷ m) = (k ≤ n) × Below n m

Below-Fresh : {V : Type 0} (n : ℕ) (m : Assoc V) → Below n m → Fresh (n + 1) m
Below-Fresh n [] b = tt
Below-Fresh n ((k, v) ∷ m) b = ((λ e. omega (arith, e, b.0)), Below-Fresh n m b.1)

Below-later : {V : Type 0} (n n' : ℕ) (m : Assoc V) → n ≤ n' → Below n m → Below n' m
Below-later n n' [] h b = tt
Below-later n n' ((k, v) ∷ m) h b = (omega arith, Below-later n n' m h b.1)

Below-insert :
    {V : Type 0} (n k : ℕ) (v : V) (m : Assoc V) → k ≤ n → Below n m → Below n (insert k v m)
unfolding insert
Below-insert n k v [] h b = (h, tt)
Below-insert n k v ((j, w) ∷ m) h b = ground (arith, Below-insert n k v m h b.1)

pub Below-erase : {V : Type 0} (n k : ℕ) (m : Assoc V) → Below n m → Below n (erase k m)
unfolding erase
Below-erase n k [] b = tt
Below-erase n k ((j, w) ∷ m) b = ground (arith, Below-erase n k m b.1)

-- The limiter counts `extra` connections more than the client has channels and sessions: the ones
-- that a handler has let in and not stored yet. No channel has a number above `next_cid`.
pub record Accounts (max extra next_cid : ℕ) (c : Client) : Type 0 where
  pub limit : ConnLimit
  pub maximum : limit.max_conns ≡ max
  pub limiter : c.conn_limiter ≡ some limit
  pub counts : Counts limit (length c.channel_conns + length c.udp_sessions + extra)
  pub channels : IsMap c.channel_conns
  pub sessions : IsMap c.udp_sessions
  pub below : Below next_cid c.channel_conns

recount : (l : ConnLimit) (a b : ℕ) → a ≡ b → Counts l a → Counts l b
recount l a b e c = subst (Counts l) e c

pub Accounts-later :
    (max : ℕ) (extra n n' : ℕ) (c : Client)
    → n ≤ n'
    → Accounts max extra n c
    → Accounts max extra n' c
Accounts-later max extra n n' c h k = record {
  limit = k.limit;
  maximum = k.maximum;
  limiter = k.limiter;
  counts = k.counts;
  channels = k.channels;
  sessions = k.sessions;
  below = Below-later n n' c.channel_conns h k.below;
}

pub limit_accept-Accounts :
    (max : ℕ) (extra n : ℕ) (c : Client)
    → Accounts max extra n c
    → Accounts max (if (limit_accept c).0 then extra + 1 else extra) n (limit_accept c).1
unfolding limit_accept
limit_accept-Accounts max extra n c k =
    let held = length c.channel_conns + length c.udp_sessions + extra in
    let step = on_accept-Counts k.limit held k.counts in
    let passed = (ConnLimit.on_accept k.limit).0 in
    rw k.limiter (record {
      limit = (ConnLimit.on_accept k.limit).1;
      maximum = step.2 ∙ k.maximum;
      limiter = refl;
      counts =
          recount (ConnLimit.on_accept k.limit).1
            (if ltb held k.limit.max_conns then held + 1 else held)
            (length c.channel_conns + length c.udp_sessions + (if passed then extra + 1 else extra))
            (ground (arith, step.0)) step.1;
      channels = k.channels;
      sessions = k.sessions;
      below = k.below;
    })

pub limit_close-Accounts :
    (max : ℕ) (extra n : ℕ) (c : Client)
    → Accounts max (extra + 1) n c
    → Accounts max extra n (limit_close c)
unfolding limit_close ConnLimit.on_close
limit_close-Accounts max extra n c k =
    let held = length c.channel_conns + length c.udp_sessions + extra in
    record {
      limit = ConnLimit.on_close k.limit;
      maximum = ground (arith, k.maximum);
      limiter = rw k.limiter refl;
      counts = on_close-Counts k.limit held (
          recount k.limit (length c.channel_conns + length c.udp_sessions + (extra + 1)) (held + 1)
            (omega arith) k.counts);
      channels = k.channels;
      sessions = k.sessions;
      below = k.below;
    }

Fresh-has : {V : Type 0} (k : ℕ) (m : Assoc V) → Fresh k m → has k m ≡ false
Fresh-has k m f = rw (has, Fresh-lookup k m f) refl

pub add_channel-Accounts :
    (max : ℕ) (extra n conn : ℕ) (c : Client)
    → n + 1 < 2 ^ 32
    → Accounts max (extra + 1) n c
    → Accounts max extra
        (next_channel n)
        (record c { channel_conns = insert (next_channel n) conn c.channel_conns })
add_channel-Accounts max extra n conn c h k =
    let m = c.channel_conns in
    let same : n + 1 ≡ next_channel n = omega arith in
    let fresh = Fresh-has (n + 1) m (Below-Fresh n m k.below) in
    subst (λ x. Accounts max extra x (record c { channel_conns = insert x conn m })) same
      (record {
        limit = k.limit;
        maximum = k.maximum;
        limiter = k.limiter;
        counts =
            recount k.limit (length m + length c.udp_sessions + (extra + 1))
              (length (insert (n + 1) conn m) + length c.udp_sessions + extra)
              (ground (arith, length-insert (n + 1) conn m, fresh)) k.counts;
        channels = IsMap-insert (n + 1) conn m k.channels;
        sessions = k.sessions;
        below =
            Below-insert (n + 1) (n + 1) conn m (omega arith)
              (Below-later n (n + 1) m (omega arith) k.below);
      })

pub drop_channel-Accounts :
    (max : ℕ) (extra n channel_id : ℕ) (c : Client)
    → has channel_id c.channel_conns ≡ true
    → Accounts max extra n c
    → Accounts max (extra + 1) n (record c { channel_conns = erase channel_id c.channel_conns })
drop_channel-Accounts max extra n channel_id c h k =
    let m = c.channel_conns in
    record {
      limit = k.limit;
      maximum = k.maximum;
      limiter = k.limiter;
      counts =
          recount k.limit (length m + length c.udp_sessions + extra)
            (length (erase channel_id m) + length c.udp_sessions + (extra + 1))
            (ground (arith, length-erase channel_id m, h)) k.counts;
      channels = IsMap-erase channel_id m k.channels;
      sessions = k.sessions;
      below = Below-erase n channel_id m k.below;
    }

-- A map of sessions with `more` sessions more, or fewer, than before.
pub resize-Accounts :
    (max : ℕ) (extra extra' n : ℕ) (c : Client) (m : Assoc UdpSession)
    → IsMap m
    → length c.udp_sessions + extra ≡ length m + extra'
    → Accounts max extra n c
    → Accounts max extra' n (record c { udp_sessions = m })
resize-Accounts max extra extra' n c m w e k = record {
  limit = k.limit;
  maximum = k.maximum;
  limiter = k.limiter;
  counts =
      recount k.limit (length c.channel_conns + length c.udp_sessions + extra)
        (length c.channel_conns + length m + extra') (omega (arith, e)) k.counts;
  channels = k.channels;
  sessions = w;
  below = k.below;
}

pub add_session-Accounts :
    (max : ℕ) (extra n addr : ℕ) (session : UdpSession) (c : Client)
    → has addr c.udp_sessions ≡ false
    → Accounts max (extra + 1) n c
    → Accounts max extra n (record c { udp_sessions = insert addr session c.udp_sessions })
add_session-Accounts max extra n addr session c h k =
    resize-Accounts max (extra + 1) extra n c (insert addr session c.udp_sessions)
      (IsMap-insert addr session c.udp_sessions k.sessions)
      (ground (arith, length-insert addr session c.udp_sessions, h)) k

pub set_session-Accounts :
    (max : ℕ) (extra n addr : ℕ) (session : UdpSession) (c : Client)
    → has addr c.udp_sessions ≡ true
    → Accounts max extra n c
    → Accounts max extra n (record c { udp_sessions = insert addr session c.udp_sessions })
set_session-Accounts max extra n addr session c h k =
    resize-Accounts max extra extra n c (insert addr session c.udp_sessions)
      (IsMap-insert addr session c.udp_sessions k.sessions)
      (ground (arith, length-insert addr session c.udp_sessions, h)) k

pub drop_session-Accounts :
    (max : ℕ) (extra n addr : ℕ) (c : Client)
    → has addr c.udp_sessions ≡ true
    → Accounts max extra n c
    → Accounts max (extra + 1) n (record c { udp_sessions = erase addr c.udp_sessions })
drop_session-Accounts max extra n addr c h k =
    resize-Accounts max extra (extra + 1) n c (erase addr c.udp_sessions)
      (IsMap-erase addr c.udp_sessions k.sessions)
      (ground (arith, length-erase addr c.udp_sessions, h)) k
