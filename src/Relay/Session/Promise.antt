-- ===== src/Relay/Session/Promise.antt =====
-- What Connect of relay/relay.go promises to its caller, said without its helpers.
use p2p_tun.Prelude.{
  Bool, Bool-cases, List, Option-cases, Result, [], arith, err, false, inl, inr, none, ok, refl,
  some, true, ◌++◌, ◌||◌, ◌↔◌, ◌∷◌, ◌≡◌, ◌≢◌, ◌⊎◌,
}
use p2p_tun.Net.{Source}
use p2p_tun.Plugin.Compression.{Compression}
use p2p_tun.Relay.{Relay, negotiate, register_msg}
use p2p_tun.Relay.Session.{ConnectError, Session, open_ch, registered, rejected}
use p2p_tun.Server.{ControlMsg, control, supports_compression}
use p2p_tun.Text.{Text, text, text_eq, text_eq_iff}

abbrev pub Mentions : Text → List Text → Type 0
Mentions t [] = ⊥
Mentions t (x ∷ xs) = (x ≡ t) ⊎ Mentions t xs

-- The message that registers what the client is configured with. It offers compression exactly where
-- the client has a compressor.
pub record Registration (c : Relay) (m : ControlMsg) : Type 0 where
  pub is_register : m.msg_type ≡ text "register"
  pub services : m.services ≡ c.services
  pub auth_key : m.auth_key ≡ c.auth_key
  pub ip_allow : m.ip_allow ≡ c.ip_allow
  pub ip_deny : m.ip_deny ≡ c.ip_deny
  pub max_conns : m.max_conns ≡ c.max_conns
  pub rate_limit : m.rate_limit ≡ c.rate_limit
  pub offers :
      ((c.compressor ≡ none) × (m.features ≡ []))
      ⊎ ((p : Compression) × (c.compressor ≡ some p) × (m.features ≡ text "compression" ∷ []))

-- Nothing was sent but the registration, and the tables are new.
pub record Registered (s s' : Session) : Type 0 where
  pub message : ControlMsg
  pub registration : Registration s.relay message
  pub sent : s'.relay.effects ≡ s.relay.effects ++ control message ∷ []
  pub channels : s'.relay.channels ≡ []
  pub udp_channels : s'.relay.udp_channels ≡ []
  pub conn_infos : s'.relay.conn_infos ≡ []
  pub closable : s'.close_ch ≡ open_ch

-- The client after an ok. Compression is known to be supported if the answer says so or an earlier
-- one did, and a client whose server does not support it has no compressor any more.
pub record Connected (resp : ControlMsg) (s s' : Session) : Type 0 where
  pub registered : Registered s s'
  pub conn_open : s'.conn_open ≡ true
  pub reading : s'.reading ≡ true
  pub supports :
      (s'.relay.server_supports_compression ≡ true)
      ↔ ((s.relay.server_supports_compression ≡ true) ⊎ Mentions (text "compression") resp.features)
  pub settled :
      ((s'.relay.server_supports_compression ≡ true) × (s'.relay.compressor ≡ s.relay.compressor))
      ⊎ ((s'.relay.server_supports_compression ≡ false) × (s'.relay.compressor ≡ none))

-- The client after any other answer.
pub record Refused (s s' : Session) : Type 0 where
  pub registered : Registered s s'
  pub conn_open : s'.conn_open ≡ false
  pub reading : s'.reading ≡ false
  pub supports : s'.relay.server_supports_compression ≡ s.relay.server_supports_compression
  pub compressor : s'.relay.compressor ≡ s.relay.compressor

-- What a call of Connect may end with when the server answers `resp` and `rest` follows.
pub data AsPromised (resp : ControlMsg) (rest : Source) (s : Session)
    : Session × Result ConnectError Source → Type 0 where
  connects :
      (s' : Session)
      → resp.msg_type ≡ text "ok"
      → Connected resp s s'
      → AsPromised resp rest s (s', ok rest)
  says_why :
      (s' : Session)
      → resp.msg_type ≡ text "error"
      → Refused s s'
      → AsPromised resp rest s (s', err (rejected resp.public_addr))
  says_type :
      (s' : Session)
      → resp.msg_type ≢ text "ok"
      → resp.msg_type ≢ text "error"
      → Refused s s'
      → AsPromised resp rest s (s', err (rejected resp.msg_type))

supports_compression-Mentions :
    (fs : List Text) → (supports_compression fs ≡ true) ↔ Mentions (text "compression") fs
unfolding supports_compression
supports_compression-Mentions [] = (λ e. absurd (ground (arith, e)), λ v. absurd v)
supports_compression-Mentions (f ∷ fs) =
    let here = text_eq_iff f (text "compression") in
    let there = supports_compression-Mentions fs in
    elim (Bool-cases (text_eq f (text "compression"))) [
      | inl e ↦ (λ p. inl (here.0 e), λ q. rw e refl)
      | inr e ↦ (
        λ p. inr (there.0 (rw e at p)),
        λ q. elim q [ inl x ↦ absurd (ground (arith, e, here.1 x)) | inr x ↦ rw e (there.1 x) ],
      )
    ]

register_msg-Registration : (c : Relay) → Registration c (register_msg c)
unfolding register_msg
register_msg-Registration c = record {
  is_register = refl;
  services = refl;
  auth_key = refl;
  ip_allow = refl;
  ip_deny = refl;
  max_conns = refl;
  rate_limit = refl;
  offers = elim (Option-cases c.compressor) [
    | inl e ↦ inl (e, rw e refl)
    | inr (p, e) ↦ inr (p, e, rw e refl)
  ];
}

abbrev pub after_ok : ControlMsg → Session → Session
after_ok resp s =
    let s' = registered s in record s' { relay = negotiate resp s'.relay; reading = true }

or_true_iff : (a b : Bool) → ((a || b) ≡ true) ↔ ((a ≡ true) ⊎ (b ≡ true))
or_true_iff true b = (λ e. inl refl, λ e. refl)
or_true_iff false b = (λ e. inr e, λ e. elim e [ inl x ↦ absurd (ground (arith, x)) | inr x ↦ x ])

registered_after : (resp : ControlMsg) (s : Session) → Registered s (after_ok resp s)
unfolding negotiate
registered_after resp s = record {
  message = register_msg s.relay;
  registration = register_msg-Registration s.relay;
  sent = refl;
  channels = refl;
  udp_channels = refl;
  conn_infos = refl;
  closable = refl;
}

pub after_ok-Connected : (resp : ControlMsg) (s : Session) → Connected resp s (after_ok resp s)
unfolding negotiate
after_ok-Connected resp s =
    let old = s.relay.server_supports_compression in
    let new = supports_compression resp.features in
    let known = or_true_iff old new in
    let said = supports_compression-Mentions resp.features in
    record {
      registered = registered_after resp s;
      conn_open = refl;
      reading = refl;
      supports = (
        λ e. elim (known.0 e) [ inl x ↦ inl x | inr x ↦ inr (said.0 x) ],
        λ e. elim e [ inl x ↦ known.1 (inl x) | inr x ↦ known.1 (inr (said.1 x)) ],
      );
      settled = elim (Bool-cases (old || new)) [
        | inl e ↦ inl (e, rw e refl)
        | inr e ↦ inr (e, rw e refl)
      ];
    }

pub gone-Refused : (s : Session) → Refused s (record (registered s) { conn_open = false })
gone-Refused s = record {
  registered = record {
    message = register_msg s.relay;
    registration = register_msg-Registration s.relay;
    sent = refl;
    channels = refl;
    udp_channels = refl;
    conn_infos = refl;
    closable = refl;
  };
  conn_open = refl;
  reading = refl;
  supports = refl;
  compressor = refl;
}
