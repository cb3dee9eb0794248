-- ===== src/Server/Accounts/Closing.antt =====
-- The frames of the client, the pipes and the clean-up of signal-server/main.go leave the limiter of
-- the client with the number of its channels and sessions.
use p2p_tun.Plugin.Manager
use mathlib.Core.Path.{subst}
use p2p_tun.Prelude.{
  Bool, Bool-cases, Bytes, Option, Option-cases, [], arith, false, inl, inr, length, none, refl,
  some, true, ℕ, ◌+◌, ◌∷◌, ◌≡◌,
}
use p2p_tun.Frame.{Frame, frame_close}
use p2p_tun.Plugin.Compression.{Lz4}
use p2p_tun.Plugin.ConnLimit.Bounds.{Counts}
use p2p_tun.Plugin.Manager.{Manager}
use p2p_tun.Plugin.Manager.Filters.{on_data_never_closes}
use p2p_tun.Prelude.Assoc.{Assoc, IsMap-erase, erase, has, length-erase, lookup}
use p2p_tun.Server.{
  Answer, ControlMsg, Effect, State, Turn, UdpSession, account_close, blocked, emit_if,
  find_session, frame, goes_on, returns, throttle,
}
use p2p_tun.Server.Accounts.{Accounts, Below-erase}
use p2p_tun.Server.Accounts.Handlers.{
  Kept, closed_channel-Kept, closed_session-Kept, forward-Kept, throttle-Kept,
}
use p2p_tun.Server.Frames.{
  close_tcp, close_udp, deliver, frame_payload, on_close_frame, on_control, on_data_frame, on_frame,
  on_payload,
}
use p2p_tun.Server.Pipe.{after_body, pipe_body, pipe_end, pipe_turn}
use p2p_tun.Text.{text}

emit_if-Kept :
    (max lost : ℕ) (sent : Bool) (e : Effect) (s : State)
    → Kept max lost s
    → Kept max lost (emit_if sent e s)
emit_if-Kept max lost true e s k = k
emit_if-Kept max lost false e s k = k

-- Taking out a channel that is not there changes nothing.
absent_channel-Kept :
    (max lost : ℕ) (channel_id : ℕ) (s : State)
    → has channel_id s.client.channel_conns ≡ false
    → Kept max lost s
    → Accounts max lost s.next_cid
        (record s.client { channel_conns = erase channel_id s.client.channel_conns })
absent_channel-Kept max lost channel_id s f k =
    let m = s.client.channel_conns in
    let held = length s.client.udp_sessions in
    let same : length m + held + lost ≡ length (erase channel_id m) + held + lost =
      ground (arith, length-erase channel_id m, f) in
    record {
      limit = k.limit;
      maximum = k.maximum;
      limiter = k.limiter;
      counts = subst (Counts k.limit) same k.counts;
      channels = IsMap-erase channel_id m k.channels;
      sessions = k.sessions;
      below = Below-erase s.next_cid channel_id m k.below;
    }

pub pipe_end-Kept :
    (max lost : ℕ) (conn channel_id now : ℕ) (s : State)
    → Kept max lost s
    → Kept max lost (pipe_end conn channel_id now s)
unfolding pipe_end account_close
pipe_end-Kept max lost conn channel_id now s k =
    elim (Bool-cases (has channel_id s.client.channel_conns)) [
      | inl e ↦ rw (pipe_end, e) (closed_channel-Kept max lost channel_id now s e k)
      | inr e ↦ rw (pipe_end, e) (absent_channel-Kept max lost channel_id s e k)
    ]

on_control-Kept :
    (max lost : ℕ) (msg : Option ControlMsg) (a : Answer) (s : State)
    → Kept max lost s
    → Kept max lost (on_control msg a s)
unfolding on_control
on_control-Kept max lost none a s k = k
on_control-Kept max lost (some msg) a s k = ground (arith, k)

deliver-Kept :
    (max lost : ℕ) (channel_id : ℕ) (payload : Bytes) (s : State)
    → Kept max lost s
    → Kept max lost (deliver channel_id payload s).1
unfolding deliver
deliver-Kept max lost channel_id payload s k = ground (arith, k)

on_payload-Kept :
    (max lost : ℕ) (channel_id : ℕ) (payload : Bytes) (a : Answer) (s : State)
    → Kept max lost s
    → Kept max lost (on_payload channel_id payload a s).1
unfolding on_payload
on_payload-Kept max lost channel_id payload a s k =
    let (action, mgr) = Manager.on_data s.mgr channel_id (text "tx") (length payload) in
    rw (on_data_never_closes s.mgr channel_id (text "tx") (length payload)) (
      deliver-Kept max lost channel_id payload
        (throttle (length payload) a.now a.late (record s { mgr = mgr }))
        (throttle-Kept max lost (length payload) a.now a.late (record s { mgr = mgr }) k))

on_data_frame-Kept :
    (max lost : ℕ) (lz4 : Lz4) (frame_type channel_id : ℕ) (payload : Bytes) (a : Answer)
    (s : State)
    → Kept max lost s
    → Kept max lost (on_data_frame lz4 frame_type channel_id payload a s).1
unfolding on_data_frame
on_data_frame-Kept max lost lz4 frame_type channel_id payload a s k =
    elim (Option-cases (frame_payload lz4 s.mgr frame_type payload)) [
      | inl e ↦ rw (on_data_frame, e) k
      | inr (plain, e) ↦ rw (on_data_frame, e) (on_payload-Kept max lost channel_id plain a s k)
    ]

close_tcp-Kept :
    (max lost : ℕ) (channel_id now : ℕ) (s : State)
    → Kept max lost s
    → Kept max lost (close_tcp channel_id now s)
unfolding close_tcp account_close
close_tcp-Kept max lost channel_id now s k =
    elim (Option-cases (lookup channel_id s.client.channel_conns)) [
      | inl e ↦ rw (close_tcp, e) k
      | inr (conn, e) ↦
          rw (close_tcp, e) (closed_channel-Kept max lost channel_id now s (rw (has, e) refl) k)
    ]

pub find_session-has :
    (channel_id : ℕ) (m : Assoc UdpSession) (key : ℕ) (session : UdpSession)
    → find_session channel_id m ≡ some (key, session)
    → has key m ≡ true
unfolding find_session lookup
find_session-has channel_id [] key session e = ground arith
find_session-has channel_id ((k, s) ∷ m) key session e =
    ground (arith, e, find_session-has channel_id m key session)

close_udp-Kept :
    (max lost : ℕ) (channel_id now : ℕ) (s : State)
    → Kept max lost s
    → Kept max lost (close_udp channel_id now s)
unfolding close_udp
close_udp-Kept max lost channel_id now s k =
    elim (Option-cases (find_session channel_id s.client.udp_sessions)) [
      | inl e ↦ rw (close_udp, e) k
      | inr ((key, session), e) ↦
          rw (close_udp, e)
            (closed_session-Kept max lost channel_id key now s
              (find_session-has channel_id s.client.udp_sessions key session e) k)
    ]

on_close_frame-Kept :
    (max lost : ℕ) (channel_id : ℕ) (a : Answer) (s : State)
    → Kept max lost s
    → Kept max lost (on_close_frame channel_id a s).1
unfolding on_close_frame
on_close_frame-Kept max lost channel_id a s k =
    let closed = close_tcp-Kept max lost channel_id a.now s k in
    ground (
      arith,
      closed,
      close_udp-Kept max lost channel_id a.now (close_tcp channel_id a.now s) closed,
    )

-- Whatever frame the client sends, the limiter is right afterwards.
pub on_frame-Kept :
    (max lost : ℕ) (lz4 : Lz4) (unmarshal : Bytes → Option ControlMsg) (f : Frame) (a : Answer)
    (s : State)
    → Kept max lost s
    → Kept max lost (on_frame lz4 unmarshal f a s).1
unfolding on_frame
on_frame-Kept max lost lz4 unmarshal f a s k = ground (
  arith,
  k,
  on_control-Kept max lost (unmarshal f.payload) a s k,
  on_data_frame-Kept max lost lz4 f.frame_type f.channel_id f.payload a s k,
  on_close_frame-Kept max lost f.channel_id a s k,
)

pipe_body-Kept :
    (max lost : ℕ) (lz4 : Lz4) (channel_id : ℕ) (read : Option Bytes) (a : Answer) (s : State)
    → Kept max lost s
    → Kept max lost (pipe_body lz4 channel_id read a s).1
unfolding pipe_body
pipe_body-Kept max lost lz4 channel_id none a s k =
    emit_if-Kept max lost a.sent (frame frame_close channel_id []) s k
pipe_body-Kept max lost lz4 channel_id (some payload) a s k =
    let (action, mgr) = Manager.on_data s.mgr channel_id (text "rx") (length payload) in
    rw (on_data_never_closes s.mgr channel_id (text "rx") (length payload))
      (forward-Kept max lost lz4 channel_id payload a (record s { mgr = mgr }) k)

after_body-Kept :
    (max lost : ℕ) (conn channel_id now : ℕ) (r : Turn × State)
    → Kept max lost r.1
    → Kept max lost (after_body conn channel_id now r).1
after_body-Kept max lost conn channel_id now (goes_on, s) k = k
after_body-Kept max lost conn channel_id now (returns, s) k =
    pipe_end-Kept max lost conn channel_id now s k
after_body-Kept max lost conn channel_id now (blocked, s) k = k

pub pipe_turn-Kept :
    (max lost : ℕ) (lz4 : Lz4) (conn channel_id : ℕ) (read : Option Bytes) (a : Answer) (s : State)
    → Kept max lost s
    → Kept max lost (pipe_turn lz4 conn channel_id read a s).1
unfolding pipe_turn
pipe_turn-Kept max lost lz4 conn channel_id read a s k =
    after_body-Kept max lost conn channel_id a.now (pipe_body lz4 channel_id read a s)
      (pipe_body-Kept max lost lz4 channel_id read a s k)
