-- ===== src/Server/Accounts/Cleaning.antt =====
-- udpSessionCleanup of signal-server/main.go: which sessions a tick closes, and the limiter.
use mathlib.Core.Option
use p2p_tun.Plugin.ConnLimit
use mathlib.Core.List.{append-nil, append_assoc}
use mathlib.Core.Path.{subst}
use p2p_tun.Prelude.{
  Bool, Bool-cases, List, Option, [], ap, arith, false, if◌then◌else◌, inl, inr, leb, refl, sym,
  true, ℕ, ◌++◌, ◌-◌, ◌∙◌, ◌∷◌, ◌≡◌, ◌≢◌,
}
use p2p_tun.Plugin.ConnLimit.{ConnLimit}
use p2p_tun.Prelude.Assoc.{Assoc, Fresh, IsMap, IsMap-erase, erase, has, lookup}
use p2p_tun.Server.{Effect, State, UdpSession, account_close, frame, limit_close}
use p2p_tun.Server.Udp.{clean_sessions, clean_tick, expire, is_idle}

-- A session that was used in the last 120 seconds.
abbrev pub is_active : ℕ → UdpSession → Bool
is_active now session = leb (now - session.last_active) 120000000000

-- The sessions that a tick keeps, in their order.
unfoldable pub keep_active : ℕ → Assoc UdpSession → Assoc UdpSession
keep_active now [] = []
keep_active now ((key, session) ∷ m) =
    if is_active now session then (key, session) ∷ keep_active now m else keep_active now m

-- The close frames of the others, as far as they can be written.
unfoldable pub goodbyes : (ℕ → Bool) → ℕ → Assoc UdpSession → List Effect
goodbyes sends now [] = []
goodbyes sends now ((key, session) ∷ m) =
    let later = goodbyes sends now m in
    if is_active now session
    then later
    else if sends session.channel_id
    then frame 2 session.channel_id [] ∷ later
    else later

-- The limiter after one release for each of the others.
pub releases : ℕ → Assoc UdpSession → Option ConnLimit → Option ConnLimit
releases now [] l = l
releases now ((key, session) ∷ m) l =
    if is_active now session
    then releases now m l
    else releases now m (Option.map ConnLimit.on_close l)

pub erase-append :
    (key : ℕ) (session : UdpSession) (kept m : Assoc UdpSession)
    → Fresh key kept
    → erase key (kept ++ (key, session) ∷ m) ≡ kept ++ m
unfolding erase
erase-append key session [] m f = ground arith
erase-append key session ((k, s) ∷ kept) m f = ground (arith, erase-append key session kept m f.1)

Fresh-middle :
    (k key : ℕ) (session : UdpSession) (kept m : Assoc UdpSession)
    → Fresh k (kept ++ (key, session) ∷ m)
    → key ≢ k
Fresh-middle k key session [] m f = f.0
Fresh-middle k key session ((j, s) ∷ kept) m f = Fresh-middle k key session kept m f.1

pub IsMap-middle :
    (key : ℕ) (session : UdpSession) (kept m : Assoc UdpSession)
    → IsMap (kept ++ (key, session) ∷ m)
    → Fresh key kept
IsMap-middle key session [] m w = tt
IsMap-middle key session ((k, s) ∷ kept) m w =
    ((λ e. Fresh-middle k key session kept m w.0 (sym e)), IsMap-middle key session kept m w.1)

pub has-middle :
    (key : ℕ) (session : UdpSession) (kept m : Assoc UdpSession)
    → has key (kept ++ (key, session) ∷ m) ≡ true
unfolding lookup
has-middle key session [] m = ground arith
has-middle key session ((k, s) ∷ kept) m = ground (arith, has-middle key session kept m)

active-idle :
    (now : ℕ) (session : UdpSession) → is_idle now session ≡ true → is_active now session ≡ false
unfolding is_idle
active-idle now session h = ground (arith, h)

active-busy :
    (now : ℕ) (session : UdpSession) → is_idle now session ≡ false → is_active now session ≡ true
unfolding is_idle
active-busy now session h = ground (arith, h)

-- What one session does to the state.
pub expire-parts :
    (sent : Bool) (now key : ℕ) (session : UdpSession) (s : State)
    → let s' = expire sent now key session s in
      (s'.client.udp_sessions ≡ erase key s.client.udp_sessions)
      × (s'.effects ≡ s.effects ++ (if sent then frame 2 session.channel_id [] ∷ [] else []))
      × (s'.client.conn_limiter ≡ Option.map ConnLimit.on_close s.client.conn_limiter)
unfolding expire account_close limit_close
expire-parts true now key session s = (refl, refl, refl)
expire-parts false now key session s = (refl, sym (append-nil s.effects), refl)

-- What the loop does with the sessions behind `kept`.
abbrev Cleaned : (ℕ → Bool) → ℕ → Assoc UdpSession → Assoc UdpSession → State → State → Type 0
Cleaned sends now kept m s s' =
    (s'.client.udp_sessions ≡ kept ++ keep_active now m)
    × (s'.effects ≡ s.effects ++ goodbyes sends now m)
    × (s'.client.conn_limiter ≡ releases now m s.client.conn_limiter)

goodbyes-idle :
    (sends : ℕ → Bool) (now key : ℕ) (session : UdpSession) (m : Assoc UdpSession)
    → is_active now session ≡ false
    → goodbyes sends now ((key, session) ∷ m)
      ≡ (if sends session.channel_id then frame 2 session.channel_id [] ∷ [] else [])
        ++ goodbyes sends now m
unfolding goodbyes
goodbyes-idle sends now key session m a = elim (Bool-cases (sends session.channel_id)) [
  | inl e ↦ rw (a, e) refl
  | inr e ↦ rw (a, e) refl
]

idle_parts :
    (now key : ℕ) (session : UdpSession) (m : Assoc UdpSession) (l : Option ConnLimit)
    → is_active now session ≡ false
    → (keep_active now ((key, session) ∷ m) ≡ keep_active now m)
      × (releases now ((key, session) ∷ m) l ≡ releases now m (Option.map ConnLimit.on_close l))
unfolding keep_active releases
idle_parts now key session m l a = (rw a refl, rw a refl)

busy_parts :
    (sends : ℕ → Bool) (now key : ℕ) (session : UdpSession) (m : Assoc UdpSession)
    (l : Option ConnLimit)
    → is_active now session ≡ true
    → (keep_active now ((key, session) ∷ m) ≡ (key, session) ∷ keep_active now m)
      × (goodbyes sends now ((key, session) ∷ m) ≡ goodbyes sends now m)
      × (releases now ((key, session) ∷ m) l ≡ releases now m l)
unfolding keep_active goodbyes releases
busy_parts sends now key session m l a = (rw a refl, rw a refl, rw a refl)

clean_sessions-idle :
    (sends : ℕ → Bool) (now key : ℕ) (session : UdpSession) (m : Assoc UdpSession) (s : State)
    → is_idle now session ≡ true
    → clean_sessions sends now ((key, session) ∷ m) s
      ≡ clean_sessions sends now m (expire (sends session.channel_id) now key session s)
unfolding clean_sessions
clean_sessions-idle sends now key session m s i = rw i refl

clean_sessions-busy :
    (sends : ℕ → Bool) (now key : ℕ) (session : UdpSession) (m : Assoc UdpSession) (s : State)
    → is_idle now session ≡ false
    → clean_sessions sends now ((key, session) ∷ m) s ≡ clean_sessions sends now m s
unfolding clean_sessions
clean_sessions-busy sends now key session m s i = rw i refl

Cleaned-idle :
    (sends : ℕ → Bool) (now key : ℕ) (session : UdpSession) (kept m : Assoc UdpSession)
    (s s' : State)
    → is_active now session ≡ false
    → Cleaned sends now kept m (expire (sends session.channel_id) now key session s) s'
    → Cleaned sends now kept ((key, session) ∷ m) s s'
Cleaned-idle sends now key session kept m s s' a (sessions, effects, limiter) =
    let (keeps, frees) = idle_parts now key session m s.client.conn_limiter a in
    let (_, sent, freed) = expire-parts (sends session.channel_id) now key session s in
    let says = goodbyes-idle sends now key session m a in
    (
      sessions ∙ ap (λ x. kept ++ x) (sym keeps),
      effects
          ∙ ap (λ x. x ++ goodbyes sends now m) sent
          ∙ append_assoc s.effects
              (if sends session.channel_id then frame 2 session.channel_id [] ∷ [] else [])
              (goodbyes sends now m)
          ∙ ap (λ x. s.effects ++ x) (sym says),
      limiter ∙ ap (releases now m) freed ∙ sym frees,
    )

Cleaned-busy :
    (sends : ℕ → Bool) (now key : ℕ) (session : UdpSession) (kept m : Assoc UdpSession)
    (s s' : State)
    → is_active now session ≡ true
    → Cleaned sends now (kept ++ (key, session) ∷ []) m s s'
    → Cleaned sends now kept ((key, session) ∷ m) s s'
Cleaned-busy sends now key session kept m s s' a (sessions, effects, limiter) =
    let (keeps, says, frees) = busy_parts sends now key session m s.client.conn_limiter a in
    (
      sessions
          ∙ append_assoc kept ((key, session) ∷ []) (keep_active now m)
          ∙ ap (λ x. kept ++ x) (sym keeps),
      effects ∙ ap (λ x. s.effects ++ x) (sym says),
      limiter ∙ sym frees,
    )

clean_sessions-Cleaned :
    (sends : ℕ → Bool) (now : ℕ) (kept m : Assoc UdpSession) (s : State)
    → s.client.udp_sessions ≡ kept ++ m
    → IsMap (kept ++ m)
    → Cleaned sends now kept m s (clean_sessions sends now m s)
unfolding clean_sessions keep_active goodbyes releases
clean_sessions-Cleaned sends now kept [] s e w = (e, sym (append-nil s.effects), refl)
clean_sessions-Cleaned sends now kept ((key, session) ∷ m) s e w =
    elim (Bool-cases (is_idle now session)) [
      | inl i ↦
          let s' = expire (sends session.channel_id) now key session s in
          let gone = erase-append key session kept m (IsMap-middle key session kept m w) in
          let gone_now = (expire-parts (sends session.channel_id) now key session s).0 in
          subst (Cleaned sends now kept ((key, session) ∷ m) s)
            (sym (clean_sessions-idle sends now key session m s i))
            (Cleaned-idle sends now key session kept m s (clean_sessions sends now m s')
              (active-idle now session i)
              (clean_sessions-Cleaned sends now kept m s' (gone_now ∙ ap (erase key) e ∙ gone)
                (subst IsMap gone (IsMap-erase key (kept ++ (key, session) ∷ m) w))))
      | inr i ↦
          let shift = append_assoc kept ((key, session) ∷ []) m in
          subst (Cleaned sends now kept ((key, session) ∷ m) s)
            (sym (clean_sessions-busy sends now key session m s i))
            (Cleaned-busy sends now key session kept m s (clean_sessions sends now m s)
              (active-busy now session i)
              (clean_sessions-Cleaned sends now (kept ++ (key, session) ∷ []) m s (e ∙ sym shift)
                (subst IsMap (sym shift) w)))
    ]

-- A tick of the clean-up that gets the lock of the sessions, of a map where no address stands twice,
-- keeps exactly the sessions that were used in the last 120 seconds, in their order. It sends a close
-- frame on the channel of each of the others, as far as frames can be written, in the order of the
-- map and nothing else, and releases the limiter once for each of the others.
pub clean_tick_keeps_active :
    (sends : ℕ → Bool) (now : ℕ) (s : State)
    → s.client.udp_locked ≡ false
    → IsMap s.client.udp_sessions
    → let s' = (clean_tick sends now s).1 in
      (s'.client.udp_sessions ≡ keep_active now s.client.udp_sessions)
      × (s'.effects ≡ s.effects ++ goodbyes sends now s.client.udp_sessions)
      × (s'.client.conn_limiter ≡ releases now s.client.udp_sessions s.client.conn_limiter)
unfolding clean_tick
clean_tick_keeps_active sends now s u w =
    simp u (clean_sessions-Cleaned sends now [] s.client.udp_sessions s refl w)
