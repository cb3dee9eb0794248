-- ===== src/Relay/Listing/Steps.antt =====
-- The tables of relay/relay.go under each step but a close frame.
use p2p_tun.Prelude.{
  Bool, Bool-cases, Bytes, Option, Option-cases, ap, arith, false, inl, inr, length, none, not,
  refl, some, sym, true, ℕ, ◌%◌, ◌&&◌, ◌+◌, ◌==◌, ◌^◌, ◌||◌, ◌∙◌, ◌≡◌,
}
use p2p_tun.Plugin.Compression.{Lz4}
use p2p_tun.Prelude.Assoc.{
  Assoc, IsMap, IsMap-erase, IsMap-insert, erase, has, insert, lookup, lookup-erase, lookup-insert,
}
use p2p_tun.Relay.{ConnInfo, Relay}
use p2p_tun.Relay.Inbound.{
  count_in, count_out, handle_new_conn, handle_new_udp_conn, local_conn, new_info, on_data_frame,
  received, write_local,
}
use p2p_tun.Relay.Listing.{Listed}
use p2p_tun.Relay.Outbound.{pipe_data, pipe_tcp_end, pipe_udp_end}
use p2p_tun.Server.{ControlMsg}
use p2p_tun.Text.{text}

module _ {V : Type 0} where
  pub has_inserted :
      (key j : ℕ) (v : V) (m : Assoc V) → has j (insert key v m) ≡ ((key == j) || has j m)
  has_inserted key j v m = ground (arith, lookup-insert key j v m)

  pub has_erased :
      (key j : ℕ) (m : Assoc V) → IsMap m → has j (erase key m) ≡ (not (key == j) && has j m)
  has_erased key j m w = ground (arith, lookup-erase key j m w)

module _ {is_udp : ℕ → Bool} where
  pub handle_new_conn-Listed :
      (msg : ControlMsg) (dialed : Option ℕ) (sent : Bool) (now : ℕ) (c : Relay)
      → is_udp msg.channel_id ≡ false
      → Listed is_udp c
      → Listed is_udp (handle_new_conn msg dialed sent now c)
  unfolding handle_new_conn
  handle_new_conn-Listed msg none sent now c f l = record {
    channels = l.channels;
    udp_channels = l.udp_channels;
    conn_infos = l.conn_infos;
    tcp = l.tcp;
    udp = l.udp;
    ids = l.ids;
  }
  handle_new_conn-Listed msg (some conn) sent now c f l =
      let key = msg.channel_id in
      let info = new_info msg (text "tcp") now in
      record {
        channels = IsMap-insert key conn c.channels l.channels;
        udp_channels = l.udp_channels;
        conn_infos = IsMap-insert key info c.conn_infos l.conn_infos;
        tcp = λ k. ground (
          arith,
          f,
          has_inserted key k conn c.channels,
          has_inserted key k info c.conn_infos,
          l.tcp k,
        );
        udp = λ k. ground (arith, f, has_inserted key k info c.conn_infos, l.udp k);
        ids = λ k i e. ground (arith, e, lookup-insert key k info c.conn_infos, l.ids k i);
      }

  pub handle_new_udp_conn-Listed :
      (msg : ControlMsg) (dialed : Option ℕ) (sent : Bool) (now : ℕ) (c : Relay)
      → is_udp msg.channel_id ≡ true
      → Listed is_udp c
      → Listed is_udp (handle_new_udp_conn msg dialed sent now c)
  unfolding handle_new_udp_conn
  handle_new_udp_conn-Listed msg none sent now c f l = record {
    channels = l.channels;
    udp_channels = l.udp_channels;
    conn_infos = l.conn_infos;
    tcp = l.tcp;
    udp = l.udp;
    ids = l.ids;
  }
  handle_new_udp_conn-Listed msg (some conn) sent now c f l =
      let key = msg.channel_id in
      let info = new_info msg (text "udp") now in
      record {
        channels = l.channels;
        udp_channels = IsMap-insert key conn c.udp_channels l.udp_channels;
        conn_infos = IsMap-insert key info c.conn_infos l.conn_infos;
        tcp = λ k. ground (arith, f, has_inserted key k info c.conn_infos, l.tcp k);
        udp = λ k. ground (
          arith,
          f,
          has_inserted key k conn c.udp_channels,
          has_inserted key k info c.conn_infos,
          l.udp k,
        );
        ids = λ k i e. ground (arith, e, lookup-insert key k info c.conn_infos, l.ids k i);
      }

  -- A table with an entry that is put in place of one under the same number.
  pub replaced-Listed :
      (key : ℕ) (old new : ConnInfo) (c d : Relay)
      → lookup key c.conn_infos ≡ some old
      → new.channel_id ≡ old.channel_id
      → d.channels ≡ c.channels
      → d.udp_channels ≡ c.udp_channels
      → d.conn_infos ≡ insert key new c.conn_infos
      → Listed is_udp c
      → Listed is_udp d
  replaced-Listed key old new c d e same p q r l =
      let there : (k : ℕ) → has k (insert key new c.conn_infos) ≡ has k c.conn_infos =
        λ k. ground (arith, e, has_inserted key k new c.conn_infos) in
      record {
        channels = rw p l.channels;
        udp_channels = rw q l.udp_channels;
        conn_infos = rw r (IsMap-insert key new c.conn_infos l.conn_infos);
        tcp = λ k. rw (p, r, there k) (l.tcp k);
        udp = λ k. rw (q, r, there k) (l.udp k);
        ids = λ k i f.
            ground
              (arith, f, r, lookup-insert key k new c.conn_infos, l.ids k i, l.ids key old e, same);
      }

  -- A Relay with the same tables.
  pub same-Listed :
      (c d : Relay)
      → d.channels ≡ c.channels
      → d.udp_channels ≡ c.udp_channels
      → d.conn_infos ≡ c.conn_infos
      → Listed is_udp c
      → Listed is_udp d
  same-Listed c d p q r l = record {
    channels = rw p l.channels;
    udp_channels = rw q l.udp_channels;
    conn_infos = rw r l.conn_infos;
    tcp = λ k. rw (p, r) (l.tcp k);
    udp = λ k. rw (q, r) (l.udp k);
    ids = λ k i f. l.ids k i (ap (lookup k) (sym r) ∙ f);
  }

  pub write_local-Listed :
      (channel_id : ℕ) (payload : Bytes) (written : Bool) (c : Relay)
      → Listed is_udp c
      → Listed is_udp (write_local channel_id payload written c)
  unfolding write_local
  write_local-Listed channel_id payload written c l =
      elim (Option-cases (local_conn channel_id c)) [
        | inl e ↦ rw (write_local, e) l
        | inr (conn, e) ↦ elim (Bool-cases written) [
          | inr b ↦ rw (write_local, e, b) l
          | inl b ↦ elim (Option-cases (lookup channel_id c.conn_infos)) [
            | inl n ↦
                same-Listed c (write_local channel_id payload written c)
                  (rw (write_local, e, b) refl) (rw (write_local, e, b) refl)
                  (rw (write_local, e, b) (rw (count_in, n) refl)) l
            | inr (info, n) ↦
                replaced-Listed channel_id info
                  (record info { bytes_in = (info.bytes_in + length payload) % 2 ^ 64 }) c
                  (write_local channel_id payload written c) n refl (rw (write_local, e, b) refl)
                  (rw (write_local, e, b) refl) (rw (write_local, e, b) (rw (count_in, n) refl)) l
          ]
        ]
      ]

  pub on_data_frame-Listed :
      (lz4 : Lz4) (frame_type channel_id : ℕ) (payload : Bytes) (written : Bool) (c : Relay)
      → Listed is_udp c
      → Listed is_udp (on_data_frame lz4 frame_type channel_id payload written c)
  unfolding on_data_frame
  on_data_frame-Listed lz4 frame_type channel_id payload written c l =
      elim (Option-cases (received lz4 c.compressor frame_type payload)) [
        | inl e ↦ rw (on_data_frame, e) l
        | inr (plain, e) ↦ rw (on_data_frame, e) (write_local-Listed channel_id plain written c l)
      ]

  pub pipe_data-Listed :
      (lz4 : Lz4) (channel_id : ℕ) (payload : Bytes) (c : Relay)
      → Listed is_udp c
      → Listed is_udp (pipe_data lz4 channel_id payload c)
  unfolding pipe_data
  pipe_data-Listed lz4 channel_id payload c l =
      elim (Option-cases (lookup channel_id c.conn_infos)) [
        | inl n ↦
            same-Listed c (pipe_data lz4 channel_id payload c) refl refl (rw (count_out, n) refl) l
        | inr (info, n) ↦
            replaced-Listed channel_id info
              (record info { bytes_out = (info.bytes_out + length payload) % 2 ^ 64 }) c
              (pipe_data lz4 channel_id payload c) n refl refl refl (rw (count_out, n) refl) l
      ]

  pub pipe_tcp_end-Listed :
      (conn key : ℕ) (sent : Bool) (c : Relay)
      → is_udp key ≡ false
      → Listed is_udp c
      → Listed is_udp (pipe_tcp_end conn key sent c)
  unfolding pipe_tcp_end
  pipe_tcp_end-Listed conn key sent c f l = record {
    channels = IsMap-erase key c.channels l.channels;
    udp_channels = l.udp_channels;
    conn_infos = IsMap-erase key c.conn_infos l.conn_infos;
    tcp = λ k. ground (
      arith,
      f,
      has_erased key k c.channels l.channels,
      has_erased key k c.conn_infos l.conn_infos,
      l.tcp k,
    );
    udp = λ k. ground (arith, f, has_erased key k c.conn_infos l.conn_infos, l.udp k);
    ids = λ k i e. ground (arith, e, lookup-erase key k c.conn_infos l.conn_infos, l.ids k i);
  }

  pub pipe_udp_end-Listed :
      (conn key : ℕ) (sent : Bool) (c : Relay)
      → is_udp key ≡ true
      → Listed is_udp c
      → Listed is_udp (pipe_udp_end conn key sent c)
  unfolding pipe_udp_end
  pipe_udp_end-Listed conn key sent c f l = record {
    channels = l.channels;
    udp_channels = IsMap-erase key c.udp_channels l.udp_channels;
    conn_infos = IsMap-erase key c.conn_infos l.conn_infos;
    tcp = λ k. ground (arith, f, has_erased key k c.conn_infos l.conn_infos, l.tcp k);
    udp = λ k. ground (
      arith,
      f,
      has_erased key k c.udp_channels l.udp_channels,
      has_erased key k c.conn_infos l.conn_infos,
      l.udp k,
    );
    ids = λ k i e. ground (arith, e, lookup-erase key k c.conn_infos l.conn_infos, l.ids k i);
  }
