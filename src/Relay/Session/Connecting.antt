-- ===== src/Relay/Session/Connecting.antt =====
-- Connect and Close of relay/relay.go on every answer of the server.
use mathlib.Core.Path.{subst}
use p2p_tun.Prelude.{
  Bool-cases, Bytes, Option, Result, Result-cases, arith, err, false, if◌then◌else◌, inl, inr,
  length, none, ok, refl, some, sym, true, ◌++◌, ◌↔◌, ◌∙◌, ◌≡◌, ◌≢◌, ◌≤◌, ◌⊎◌,
}
use p2p_tun.Frame.{Frame, IsFrame, frame_control, max_frame_size}
use p2p_tun.Frame.RoundTrip.{read_frame-wire, wire}
use p2p_tun.Net.{NetError, Source}
use p2p_tun.Relay.Session.{
  Attempt, ConnectError, Session, accept_answer, await_answer, close, connect_session, dial_failed,
  nil_ch, open_ch, read_control, registered,
}
use p2p_tun.Relay.Session.Promise.{
  AsPromised, after_ok, after_ok-Connected, connects, gone-Refused, says_type, says_why,
}
use p2p_tun.Server.{ControlMsg}
use p2p_tun.Text.{text, text_eq, text_eq_iff}

-- The frame in which the server answers.
abbrev pub answer_frame : Bytes → Frame
answer_frame body = record { frame_type = frame_control; channel_id = 0; payload = body }

read_control-wire :
    (unmarshal : Bytes → Option ControlMsg) (body rest : Bytes) (e : NetError) (resp : ControlMsg)
    → length body ≤ max_frame_size
    → unmarshal body ≡ some resp
    → read_control unmarshal (record { bytes = wire (answer_frame body) ++ rest; fin = e })
      ≡ ok (resp, record { bytes = rest; fin = e })
unfolding read_control
read_control-wire unmarshal body rest e resp h u =
    let w : IsFrame (answer_frame body) = record {
      is_byte = omega arith;
      is_u32 = omega arith;
      fits_u32 = omega arith;
    } in
    rw (read_control, read_frame-wire (answer_frame body) rest e w h) (rw u refl)

accept_answer-AsPromised :
    (resp : ControlMsg) (rest : Source) (s : Session)
    → AsPromised resp rest s (accept_answer resp rest (registered s))
unfolding accept_answer
accept_answer-AsPromised resp rest s =
    let gone = record (registered s) { conn_open = false } in
    let is_ok = text_eq_iff resp.msg_type (text "ok") in
    let is_error = text_eq_iff resp.msg_type (text "error") in
    elim (Bool-cases (text_eq resp.msg_type (text "ok"))) [
      | inl e ↦ rw e (connects (after_ok resp s) (is_ok.0 e) (after_ok-Connected resp s))
      | inr e ↦
          let other : resp.msg_type ≢ text "ok" = λ x. absurd (ground (arith, e, is_ok.1 x)) in
          elim (Bool-cases (text_eq resp.msg_type (text "error"))) [
            | inl f ↦ rw (e, f) (says_why gone (is_error.0 f) (gone-Refused s))
            | inr f ↦
                rw (e, f)
                  (says_type gone other (λ x. absurd (ground (arith, f, is_error.1 x)))
                    (gone-Refused s))
          ]
    ]

-- Connect, once dialed and with its registration written, on an answer of the server that
-- encoding/json decodes. It sends one message, which registers what the client is configured with.
-- After an ok it has empty tables, reads from then on what follows the answer and can be closed;
-- compression is supported exactly if this answer or one before named it, and otherwise the client
-- has no compressor any more. After any other message the connection is closed, nothing is read, and
-- the error names the text of an error message and the type of another.
pub connect_session-AsPromised :
    (unmarshal : Bytes → Option ControlMsg) (body rest : Bytes) (e : NetError) (resp : ControlMsg)
    (s : Session)
    → length body ≤ max_frame_size
    → unmarshal body ≡ some resp
    → AsPromised resp
        (record { bytes = rest; fin = e })
        s
        (connect_session unmarshal
          (record {
            dialed = true;
            sent = true;
            answer = record { bytes = wire (answer_frame body) ++ rest; fin = e };
          })
          s)
unfolding connect_session
connect_session-AsPromised unmarshal body rest e resp s h u =
    rw (await_answer, read_control-wire unmarshal body rest e resp h u)
      (accept_answer-AsPromised resp (record { bytes = rest; fin = e }) s)

-- The dial alone decides whether closeCh is made.
connect_session-close_ch :
    (unmarshal : Bytes → Option ControlMsg) (a : Attempt) (s : Session)
    → (connect_session unmarshal a s).0.close_ch ≡ (if a.dialed then open_ch else s.close_ch)
unfolding connect_session await_answer accept_answer
connect_session-close_ch unmarshal a s = ground arith

-- After one call of Connect on a new client, whatever the server does, Close panics exactly if the
-- dial had failed; otherwise it closes the connection.
pub close_panics_iff :
    (unmarshal : Bytes → Option ControlMsg) (a : Attempt) (s : Session)
    → s.close_ch ≡ nil_ch
    → (close (connect_session unmarshal a s).0 ≡ none) ↔ (a.dialed ≡ false)
unfolding close
close_panics_iff unmarshal a s h = elim (Bool-cases a.dialed) [
  | inl e ↦
      let c : (connect_session unmarshal a s).0.close_ch ≡ open_ch =
        connect_session-close_ch unmarshal a s ∙ rw e refl in
      (λ p. ground (arith, c), λ q. cc)
  | inr e ↦
      let c : (connect_session unmarshal a s).0.close_ch ≡ nil_ch =
        connect_session-close_ch unmarshal a s ∙ rw e h in
      (λ p. e, λ q. ground (arith, c))
]

-- What an attempt that fails leaves behind.
abbrev Gone : Session × Result ConnectError Source → Type 0
Gone (s, ok rest) = Unit
Gone (s, err e) = (s.conn_open ≡ false) × (s.reading ≡ false)

accept_answer-Gone :
    (resp : ControlMsg) (rest : Source) (s : Session)
    → s.reading ≡ false
    → Gone (accept_answer resp rest s)
unfolding accept_answer
accept_answer-Gone resp rest s h = elim (Bool-cases (text_eq resp.msg_type (text "ok"))) [
  | inl e ↦ rw (accept_answer, e) tt
  | inr e ↦ rw (accept_answer, e) (refl, h)
]

await_answer-Gone :
    (unmarshal : Bytes → Option ControlMsg) (answer : Source) (s : Session)
    → s.reading ≡ false
    → Gone (await_answer unmarshal answer s)
unfolding await_answer
await_answer-Gone unmarshal answer s h = elim (Result-cases (read_control unmarshal answer)) [
  | inl ((resp, rest), e) ↦ rw (await_answer, e) (accept_answer-Gone resp rest s h)
  | inr (e, p) ↦ rw (await_answer, p) (refl, h)
]

connect_session-Gone :
    (unmarshal : Bytes → Option ControlMsg) (a : Attempt) (s : Session)
    → a.dialed ≡ true
    → Gone (connect_session unmarshal a s)
unfolding connect_session
connect_session-Gone unmarshal a s h = elim (Bool-cases a.sent) [
  | inl e ↦ rw (h, e, connect_session) (await_answer-Gone unmarshal a.answer (registered s) refl)
  | inr e ↦ rw (h, e, connect_session) (refl, refl)
]

pub connect_session-undialed :
    (unmarshal : Bytes → Option ControlMsg) (a : Attempt) (s : Session)
    → a.dialed ≡ false
    → connect_session unmarshal a s ≡ (s, err dial_failed)
unfolding connect_session
connect_session-undialed unmarshal a s h = ground (arith, h)

-- A Connect that returns an error leaves no open connection and no readLoop behind; only where the
-- dial fails is the client as it was before.
pub connect_session_failed :
    (unmarshal : Bytes → Option ControlMsg) (a : Attempt) (s s' : Session) (e : ConnectError)
    → connect_session unmarshal a s ≡ (s', err e)
    → ((e ≡ dial_failed) × (s' ≡ s)) ⊎ ((s'.conn_open ≡ false) × (s'.reading ≡ false))
connect_session_failed unmarshal a s s' e h = elim (Bool-cases a.dialed) [
  | inl d ↦ inr (subst Gone h (connect_session-Gone unmarshal a s d))
  | inr d ↦ let p = sym h ∙ connect_session-undialed unmarshal a s d in inl (cc, cc)
]
