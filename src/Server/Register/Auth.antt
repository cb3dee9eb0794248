-- ===== src/Server/Register/Auth.antt =====
-- Who gets through the registration of handleRelayClient in signal-server/main.go.
use p2p_tun.Prelude.{
  ==_iff, >>=-eq-ok, Bool, Bytes, List, Option, Result, Result-cases, [], arith, err, guard,
  guard-eq-ok, inl, inr, none, ok, refl, some, true, ℕ, ◌==◌, ◌||◌, ◌∷◌, ◌≡◌, ◌⊎◌,
}
use p2p_tun.Frame.{Frame, frame_control}
use p2p_tun.Net.{NetError, Source}
use p2p_tun.Plugin.IpFilter.{IpNet}
use p2p_tun.Prelude.Assoc.{Fresh, erase-insert}
use p2p_tun.Server.{ControlMsg, State, next_channel}
use p2p_tun.Server.Register.{
  Config, Refusal, Server, auth_failed, blank_client, handle_relay_client, key_matches, not_control,
  not_register, or_invalid, refusal_effects, refused, registration, running,
}
use p2p_tun.Text.{Text, is_empty, text, text_eq, text_eq_iff}

-- The first frame of a client that is let in.
pub record Admitted (cfg : Config) (unmarshal : Bytes → Option ControlMsg)
    (first : Result NetError (Frame × Source)) : Type 0 where
  pub f : Frame
  pub rest : Source
  pub msg : ControlMsg
  pub read : first ≡ ok (f, rest)
  pub is_control : f.frame_type ≡ frame_control
  pub parsed : unmarshal f.payload ≡ some msg
  pub is_register : msg.msg_type ≡ text "register"
  pub has_key : (cfg.auth_key ≡ []) ⊎ (msg.auth_key ≡ cfg.auth_key)

empty_or_equal :
    (key sent : Text) → (is_empty key || text_eq sent key) ≡ true → (key ≡ []) ⊎ (sent ≡ key)
empty_or_equal [] sent e = inl refl
empty_or_equal (c ∷ key) sent e = inr ((text_eq_iff sent (c ∷ key)).0 e)

parsed_msg : (o : Option ControlMsg) (m : ControlMsg) → or_invalid o ≡ ok m → o ≡ some m
parsed_msg none m e = ground (arith, e)
parsed_msg (some msg) m e = ground (arith, e)

registration_sound :
    (cfg : Config) (unmarshal : Bytes → Option ControlMsg)
    (first : Result NetError (Frame × Source)) (m : ControlMsg)
    → registration cfg unmarshal first ≡ ok m
    → Admitted cfg unmarshal first
unfolding registration
registration_sound cfg unmarshal (err e) m h = ground (arith, h)
registration_sound cfg unmarshal (ok (f, rest)) m h =
    let (u1, g1, h1) = >>=-eq-ok (guard (f.frame_type == frame_control) not_control) _ h in
    let (msg, g2, h2) = >>=-eq-ok _ _ h1 in
    let (u3, g3, h3) =
      >>=-eq-ok (guard (text_eq msg.msg_type (text "register")) (not_register msg.msg_type)) _ h2 in
    let (u4, g4, h4) = >>=-eq-ok (guard (key_matches cfg msg) auth_failed) _ h3 in
    record {
      f = f;
      rest = rest;
      msg = msg;
      read = refl;
      is_control =
          (==_iff f.frame_type frame_control).0
            (guard-eq-ok (f.frame_type == frame_control) not_control u1 g1);
      parsed = parsed_msg (unmarshal f.payload) msg g2;
      is_register =
          (text_eq_iff msg.msg_type (text "register")).0 (
            guard-eq-ok (text_eq msg.msg_type (text "register")) (not_register msg.msg_type) u3 g3);
      has_key =
          empty_or_equal cfg.auth_key msg.auth_key
            (guard-eq-ok (key_matches cfg msg) auth_failed u4 g4);
    }

-- A client that gets as far as relayReadLoop has sent a control frame that parses as a `register`
-- message, with the server's key unless the server has none.
pub running_Admitted :
    (cfg : Config) (unmarshal : Bytes → Option ControlMsg) (parse_cidr : Text → Option IpNet)
    (conn : ℕ) (local_ip : Text) (first : Result NetError (Frame × Source))
    (listened : List (Option ℕ)) (sent : Bool) (now : ℕ) (v : Server) (cid : ℕ) (lns : List ℕ)
    (s : State) (v' : Server)
    → handle_relay_client cfg unmarshal parse_cidr conn local_ip first listened sent now v
      ≡ running cid lns s v'
    → Admitted cfg unmarshal first
unfolding handle_relay_client
running_Admitted cfg unmarshal parse_cidr conn local_ip first listened sent now v cid lns s v' h =
    elim (Result-cases (registration cfg unmarshal first)) [
      | inl (m, e) ↦ registration_sound cfg unmarshal first m e
      | inr (r, e) ↦ (let refusal = rw (handle_relay_client, e) at h in cc)
    ]

-- A client that is refused over its first frame leaves nothing behind: no listener, no entry in the
-- map of clients, and only the counter of numbers has moved; its connection is closed.
pub refused_leaves_nothing :
    (cfg : Config) (unmarshal : Bytes → Option ControlMsg) (parse_cidr : Text → Option IpNet)
    (conn : ℕ) (local_ip : Text) (first : Result NetError (Frame × Source))
    (listened : List (Option ℕ)) (sent : Bool) (now : ℕ) (v : Server) (r : Refusal)
    → registration cfg unmarshal first ≡ err r
    → Fresh (next_channel v.next_cid) v.clients
    → handle_relay_client cfg unmarshal parse_cidr conn local_ip first listened sent now v
      ≡ refused (refusal_effects conn r) (record v { next_cid = next_channel v.next_cid })
unfolding handle_relay_client
refused_leaves_nothing cfg unmarshal parse_cidr conn local_ip first listened sent now v r e f =
    rw (handle_relay_client, e, erase-insert (next_channel v.next_cid) blank_client v.clients f)
      refl
