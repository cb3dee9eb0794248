-- ===== src/Relay/Channels.antt =====
-- The count of active channels that relay/relay.go keeps in logutil/logutil.go.
use mathlib.Core.Path.{subst}
use p2p_tun.Prelude.{
  Bool, Bool-cases, Bytes, Option, Option-cases, [], ap, arith, false, if◌then◌else◌, inl, inr,
  length, none, refl, some, sym, true, ℕ, ◌%◌, ◌+◌, ◌<◌, ◌^◌, ◌≡◌,
}
use p2p_tun.Plugin.Compression.{Lz4}
use p2p_tun.Prelude.Assoc.{
  IsMap, IsMap-erase, IsMap-insert, erase, has, insert, length-erase, length-insert, lookup,
}
use p2p_tun.Relay.{Relay, connect, negotiate, one_less, one_more}
use p2p_tun.Relay.Inbound.{
  drop_tcp, drop_udp, handle_new_conn, handle_new_udp_conn, local_conn, on_close_frame,
  on_data_frame, received, write_local,
}
use p2p_tun.Relay.Outbound.{pipe_data, pipe_tcp_end, pipe_udp_end}
use p2p_tun.Server.{ControlMsg}

-- The counter is `base` and the number of channels of both kinds, as a 64-bit word.
pub record Counted (base : ℕ) (c : Relay) : Type 0 where
  pub channels : IsMap c.channels
  pub udp_channels : IsMap c.udp_channels
  pub active : c.active_chan ≡ (base + length c.channels + length c.udp_channels) % 2 ^ 64

-- What a connection does after it is registered. The server gives each channel a number that the
-- client does not have yet.
pub data Step (lz4 : Lz4) : Relay → Relay → Type 0 where
  opens_tcp :
      (msg : ControlMsg) (dialed : Option ℕ) (sent : Bool) (now : ℕ) (c : Relay)
      → has msg.channel_id c.channels ≡ false
      → Step lz4 c (handle_new_conn msg dialed sent now c)
  opens_udp :
      (msg : ControlMsg) (dialed : Option ℕ) (sent : Bool) (now : ℕ) (c : Relay)
      → has msg.channel_id c.udp_channels ≡ false
      → Step lz4 c (handle_new_udp_conn msg dialed sent now c)
  receives_data :
      (frame_type channel_id : ℕ) (payload : Bytes) (written : Bool) (c : Relay)
      → Step lz4 c (on_data_frame lz4 frame_type channel_id payload written c)
  receives_close : (channel_id : ℕ) (c : Relay) → Step lz4 c (on_close_frame channel_id c)
  pipes :
      (channel_id : ℕ) (payload : Bytes) (c : Relay)
      → Step lz4 c (pipe_data lz4 channel_id payload c)
  tcp_ends :
      (conn channel_id : ℕ) (sent : Bool) (c : Relay)
      → Step lz4 c (pipe_tcp_end conn channel_id sent c)
  udp_ends :
      (conn channel_id : ℕ) (sent : Bool) (c : Relay)
      → Step lz4 c (pipe_udp_end conn channel_id sent c)

pub data Run (lz4 : Lz4) : Relay → Relay → Type 0 where
  stays : (c : Relay) → Run lz4 c c
  moves : (c d e : Relay) → Run lz4 c d → Step lz4 d e → Run lz4 c e

handle_new_conn-Counted :
    {base : ℕ} (msg : ControlMsg) (dialed : Option ℕ) (sent : Bool) (now : ℕ) (c : Relay)
    → has msg.channel_id c.channels ≡ false
    → Counted base c
    → Counted base (handle_new_conn msg dialed sent now c)
unfolding handle_new_conn
handle_new_conn-Counted {base} msg none sent now c f k = record {
  channels = k.channels;
  udp_channels = k.udp_channels;
  active = k.active;
}
handle_new_conn-Counted {base} msg (some conn) sent now c f k =
    let m = insert msg.channel_id conn c.channels in
    let w = IsMap-insert msg.channel_id conn c.channels k.channels in
    let n : one_more c.active_chan ≡ (base + length m + length c.udp_channels) % 2 ^ 64 =
      ground (arith, k.active, f, length-insert msg.channel_id conn c.channels) in
    record { channels = w; udp_channels = k.udp_channels; active = n }

handle_new_udp_conn-Counted :
    {base : ℕ} (msg : ControlMsg) (dialed : Option ℕ) (sent : Bool) (now : ℕ) (c : Relay)
    → has msg.channel_id c.udp_channels ≡ false
    → Counted base c
    → Counted base (handle_new_udp_conn msg dialed sent now c)
unfolding handle_new_udp_conn
handle_new_udp_conn-Counted {base} msg none sent now c f k = record {
  channels = k.channels;
  udp_channels = k.udp_channels;
  active = k.active;
}
handle_new_udp_conn-Counted {base} msg (some conn) sent now c f k =
    let m = insert msg.channel_id conn c.udp_channels in
    let w = IsMap-insert msg.channel_id conn c.udp_channels k.udp_channels in
    let n : one_more c.active_chan ≡ (base + length c.channels + length m) % 2 ^ 64 =
      ground (arith, k.active, f, length-insert msg.channel_id conn c.udp_channels) in
    record { channels = k.channels; udp_channels = w; active = n }

write_local-Counted :
    {base : ℕ} (channel_id : ℕ) (payload : Bytes) (written : Bool) (c : Relay)
    → Counted base c
    → Counted base (write_local channel_id payload written c)
unfolding write_local
write_local-Counted channel_id payload written c k = elim (Option-cases (local_conn channel_id c)) [
  | inl e ↦ rw (write_local, e) k
  | inr (conn, e) ↦ elim (Bool-cases written) [
    | inl b ↦
        rw (write_local, e, b)
          (record { channels = k.channels; udp_channels = k.udp_channels; active = k.active })
    | inr b ↦ rw (write_local, e, b) k
  ]
]

on_data_frame-Counted :
    {base : ℕ} (lz4 : Lz4) (frame_type channel_id : ℕ) (payload : Bytes) (written : Bool)
    (c : Relay)
    → Counted base c
    → Counted base (on_data_frame lz4 frame_type channel_id payload written c)
unfolding on_data_frame
on_data_frame-Counted lz4 frame_type channel_id payload written c k =
    elim (Option-cases (received lz4 c.compressor frame_type payload)) [
      | inl e ↦ rw (on_data_frame, e) k
      | inr (plain, e) ↦ rw (on_data_frame, e) (write_local-Counted channel_id plain written c k)
    ]

drop_tcp-Counted :
    {base : ℕ} (channel_id : ℕ) (c : Relay) → Counted base c → Counted base (drop_tcp channel_id c)
unfolding drop_tcp
drop_tcp-Counted channel_id c k = elim (Option-cases (lookup channel_id c.channels)) [
  | inl e ↦ rw (drop_tcp, e) k
  | inr (conn, e) ↦
      let there : has channel_id c.channels ≡ true = rw (has, e) refl in
      rw (drop_tcp, e)
        (record {
          channels = IsMap-erase channel_id c.channels k.channels;
          udp_channels = k.udp_channels;
          active = ground (arith, k.active, there, length-erase channel_id c.channels);
        })
]

drop_udp-Counted :
    {base : ℕ} (channel_id : ℕ) (c : Relay) → Counted base c → Counted base (drop_udp channel_id c)
unfolding drop_udp
drop_udp-Counted channel_id c k = elim (Option-cases (lookup channel_id c.udp_channels)) [
  | inl e ↦ rw (drop_udp, e) k
  | inr (conn, e) ↦
      let there : has channel_id c.udp_channels ≡ true = rw (has, e) refl in
      rw (drop_udp, e)
        (record {
          channels = k.channels;
          udp_channels = IsMap-erase channel_id c.udp_channels k.udp_channels;
          active = ground (arith, k.active, there, length-erase channel_id c.udp_channels);
        })
]

on_close_frame-Counted :
    {base : ℕ} (channel_id : ℕ) (c : Relay)
    → Counted base c
    → Counted base (on_close_frame channel_id c)
unfolding on_close_frame
on_close_frame-Counted channel_id c k =
    let d = drop_udp-Counted channel_id (drop_tcp channel_id c) (drop_tcp-Counted channel_id c k) in
    record { channels = d.channels; udp_channels = d.udp_channels; active = d.active }

pipe_tcp_end-Counted :
    {base : ℕ} (conn channel_id : ℕ) (sent : Bool) (c : Relay)
    → Counted base c
    → Counted base (pipe_tcp_end conn channel_id sent c)
unfolding pipe_tcp_end
pipe_tcp_end-Counted {base} conn channel_id sent c k =
    let m = erase channel_id c.channels in
    let n : (if has channel_id c.channels then one_less c.active_chan else c.active_chan)
        ≡ (base + length m + length c.udp_channels) % 2 ^ 64 =
      ground (arith, k.active, length-erase channel_id c.channels) in
    let w = IsMap-erase channel_id c.channels k.channels in
    record { channels = w; udp_channels = k.udp_channels; active = n }

pipe_udp_end-Counted :
    {base : ℕ} (conn channel_id : ℕ) (sent : Bool) (c : Relay)
    → Counted base c
    → Counted base (pipe_udp_end conn channel_id sent c)
unfolding pipe_udp_end
pipe_udp_end-Counted {base} conn channel_id sent c k =
    let m = erase channel_id c.udp_channels in
    let n : (if has channel_id c.udp_channels then one_less c.active_chan else c.active_chan)
        ≡ (base + length c.channels + length m) % 2 ^ 64 =
      ground (arith, k.active, length-erase channel_id c.udp_channels) in
    let w = IsMap-erase channel_id c.udp_channels k.udp_channels in
    record { channels = k.channels; udp_channels = w; active = n }

pipe_data-Counted :
    {base : ℕ} (lz4 : Lz4) (channel_id : ℕ) (payload : Bytes) (c : Relay)
    → Counted base c
    → Counted base (pipe_data lz4 channel_id payload c)
unfolding pipe_data
pipe_data-Counted lz4 channel_id payload c k = record {
  channels = k.channels;
  udp_channels = k.udp_channels;
  active = k.active;
}

Step-Counted : {base : ℕ} (lz4 : Lz4) (c d : Relay) → Step lz4 c d → Counted base c → Counted base d
Step-Counted lz4 _ _ (opens_tcp msg dialed sent now c f) k =
    handle_new_conn-Counted msg dialed sent now c f k
Step-Counted lz4 _ _ (opens_udp msg dialed sent now c f) k =
    handle_new_udp_conn-Counted msg dialed sent now c f k
Step-Counted lz4 _ _ (receives_data frame_type channel_id payload written c) k =
    on_data_frame-Counted lz4 frame_type channel_id payload written c k
Step-Counted lz4 _ _ (receives_close channel_id c) k = on_close_frame-Counted channel_id c k
Step-Counted lz4 _ _ (pipes channel_id payload c) k = pipe_data-Counted lz4 channel_id payload c k
Step-Counted lz4 _ _ (tcp_ends conn channel_id sent c) k =
    pipe_tcp_end-Counted conn channel_id sent c k
Step-Counted lz4 _ _ (udp_ends conn channel_id sent c) k =
    pipe_udp_end-Counted conn channel_id sent c k

Run-Counted : {base : ℕ} (lz4 : Lz4) (c d : Relay) → Run lz4 c d → Counted base c → Counted base d
Run-Counted lz4 _ _ (stays c) k = k
Run-Counted lz4 _ _ (moves c d e run step) k = Step-Counted lz4 d e step (Run-Counted lz4 c d run k)

connect-tables :
    (resp : Option ControlMsg) (c d : Relay)
    → connect resp c ≡ some d
    → (d.channels ≡ []) × (d.udp_channels ≡ []) × (d.active_chan ≡ c.active_chan)
unfolding connect negotiate
connect-tables none c d e = ground (arith, e)
connect-tables (some resp) c d e = ground (arith, e)

-- From a Connect that succeeds, and as long as the server numbers channels afresh, the counter of
-- active channels is the value that it had before Connect and the number of open channels of both
-- kinds, modulo 2 ^ 64, whatever frames arrive and whichever side closes a channel first. So what an
-- earlier connection left in the counter is never taken out again, not even by its own pipes.
pub active_offset :
    (lz4 : Lz4) (resp : Option ControlMsg) (c d e : Relay)
    → c.active_chan < 2 ^ 64
    → connect resp c ≡ some d
    → Run lz4 d e
    → e.active_chan ≡ (c.active_chan + length e.channels + length e.udp_channels) % 2 ^ 64
active_offset lz4 resp c d e z f run =
    let t = connect-tables resp c d f in
    let begun : Counted c.active_chan d = record {
      channels = subst IsMap (sym t.0) tt;
      udp_channels = subst IsMap (sym t.1) tt;
      active = ground (arith, z, t.2, ap length t.0, ap length t.1);
    } in
    (Run-Counted lz4 d e run begun).active

-- The counter of a client that connects for the first time.
pub active_counted :
    (lz4 : Lz4) (resp : Option ControlMsg) (c d e : Relay)
    → c.active_chan ≡ 0
    → connect resp c ≡ some d
    → Run lz4 d e
    → e.active_chan ≡ (length e.channels + length e.udp_channels) % 2 ^ 64
active_counted lz4 resp c d e z f run =
    omega (arith, active_offset lz4 resp c d e (omega arith) f run)
