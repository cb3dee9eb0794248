-- ===== src/Relay/Listing/Shown.antt =====
-- What GetConnections of relay/relay.go shows over the life of a connection.
use p2p_tun.Prelude.{
  Bool, Bool-cases, Option, Option-cases, [], ap, arith, inl, inr, map, none, refl, some, sym, ℕ,
  ◌==◌, ◌||◌, ◌∙◌, ◌∷◌, ◌≡◌,
}
use p2p_tun.Plugin.Compression.{Lz4}
use p2p_tun.Prelude.Assoc.{
  Assoc, Fresh-lookup, IsMap, IsMap-erase, erase, has, lookup, lookup-erase,
}
use p2p_tun.Relay.{ConnInfo, Relay, connect, negotiate}
use p2p_tun.Relay.Inbound.{drop_tcp, drop_udp, on_close_frame}
use p2p_tun.Relay.Listing.{
  Life, Listed, begins, close_received, data_received, get_connections, piped, tcp_ended,
  tcp_opened, udp_ended, udp_opened,
}
use p2p_tun.Relay.Listing.Steps.{
  handle_new_conn-Listed, handle_new_udp_conn-Listed, has_erased, on_data_frame-Listed,
  pipe_data-Listed, pipe_tcp_end-Listed, pipe_udp_end-Listed, same-Listed,
}
use p2p_tun.Server.{ControlMsg}

erase_absent : {V : Type 0} (key : ℕ) (m : Assoc V) → lookup key m ≡ none → erase key m ≡ m
unfolding lookup erase
erase_absent key [] e = refl
erase_absent key ((i, v) ∷ m) e = elim (Bool-cases (i == key)) [
  | inl q ↦ absurd (ground (arith, e, q))
  | inr q ↦ rw q (ap (λ rest. (i, v) ∷ rest) (erase_absent key m (ground (arith, e, q))))
]

drop_tcp-tables :
    (key : ℕ) (c : Relay)
    → ((drop_tcp key c).channels ≡ erase key c.channels)
      × ((drop_tcp key c).udp_channels ≡ c.udp_channels)
      × ((drop_tcp key c).conn_infos ≡ c.conn_infos)
unfolding drop_tcp
drop_tcp-tables key c = elim (Option-cases (lookup key c.channels)) [
  | inl e ↦ rw (drop_tcp, e) (sym (erase_absent key c.channels e), refl, refl)
  | inr (conn, e) ↦ rw (drop_tcp, e) (refl, refl, refl)
]

drop_udp-tables :
    (key : ℕ) (c : Relay)
    → ((drop_udp key c).channels ≡ c.channels)
      × ((drop_udp key c).udp_channels ≡ erase key c.udp_channels)
      × ((drop_udp key c).conn_infos ≡ c.conn_infos)
unfolding drop_udp
drop_udp-tables key c = elim (Option-cases (lookup key c.udp_channels)) [
  | inl e ↦ rw (drop_udp, e) (refl, sym (erase_absent key c.udp_channels e), refl)
  | inr (conn, e) ↦ rw (drop_udp, e) (refl, refl, refl)
]

module _ {is_udp : ℕ → Bool} where
  on_close_frame-Listed :
      (key : ℕ) (c : Relay) → Listed is_udp c → Listed is_udp (on_close_frame key c)
  unfolding on_close_frame
  on_close_frame-Listed key c l =
      let (tcp, udp, infos) = drop_tcp-tables key c in
      let (tcp', udp', infos') = drop_udp-tables key (drop_tcp key c) in
      same-Listed
        (record c {
          channels = erase key c.channels;
          udp_channels = erase key c.udp_channels;
          conn_infos = erase key c.conn_infos;
        })
        (on_close_frame key c) (tcp' ∙ tcp) (udp' ∙ ap (erase key) udp)
        (ap (erase key) (infos' ∙ infos))
        (record {
          channels = IsMap-erase key c.channels l.channels;
          udp_channels = IsMap-erase key c.udp_channels l.udp_channels;
          conn_infos = IsMap-erase key c.conn_infos l.conn_infos;
          tcp = λ k. ground (
            arith,
            has_erased key k c.channels l.channels,
            has_erased key k c.conn_infos l.conn_infos,
            l.tcp k,
          );
          udp = λ k. ground (
            arith,
            has_erased key k c.udp_channels l.udp_channels,
            has_erased key k c.conn_infos l.conn_infos,
            l.udp k,
          );
          ids = λ k i e. ground (arith, e, lookup-erase key k c.conn_infos l.conn_infos, l.ids k i);
        })

  Life-Listed : (lz4 : Lz4) (c d : Relay) → Life lz4 is_udp c d → Listed is_udp c → Listed is_udp d
  Life-Listed lz4 _ _ (begins c) l = l
  Life-Listed lz4 _ _ (tcp_opened c d msg dialed sent now life f) l =
      handle_new_conn-Listed msg dialed sent now d f (Life-Listed lz4 c d life l)
  Life-Listed lz4 _ _ (udp_opened c d msg dialed sent now life f) l =
      handle_new_udp_conn-Listed msg dialed sent now d f (Life-Listed lz4 c d life l)
  Life-Listed lz4 _ _ (data_received c d t channel_id payload written life) l =
      on_data_frame-Listed lz4 t channel_id payload written d (Life-Listed lz4 c d life l)
  Life-Listed lz4 _ _ (close_received c d channel_id life) l =
      on_close_frame-Listed channel_id d (Life-Listed lz4 c d life l)
  Life-Listed lz4 _ _ (piped c d channel_id payload life) l =
      pipe_data-Listed lz4 channel_id payload d (Life-Listed lz4 c d life l)
  Life-Listed lz4 _ _ (tcp_ended c d conn channel_id sent life f) l =
      pipe_tcp_end-Listed conn channel_id sent d f (Life-Listed lz4 c d life l)
  Life-Listed lz4 _ _ (udp_ended c d conn channel_id sent life f) l =
      pipe_udp_end-Listed conn channel_id sent d f (Life-Listed lz4 c d life l)

connect-infos :
    (resp : Option ControlMsg) (c d : Relay)
    → connect resp c ≡ some d
    → (d.channels ≡ []) × (d.udp_channels ≡ []) × (d.conn_infos ≡ [])
unfolding connect negotiate
connect-infos none c d e = ground (arith, e)
connect-infos (some resp) c d e = ground (arith, e)

empty-Listed :
    (is_udp : ℕ → Bool) (c : Relay)
    → Listed is_udp (record c { channels = []; udp_channels = []; conn_infos = [] })
unfolding lookup
empty-Listed is_udp c = record {
  channels = tt;
  udp_channels = tt;
  conn_infos = tt;
  tcp = λ k. ground arith;
  udp = λ k. ground arith;
  ids = λ k i e. absurd (cc e);
}

-- A table whose entries carry their keys is listed under its keys.
listed_ids :
    (m : Assoc ConnInfo)
    → IsMap m
    → ((k : ℕ) (info : ConnInfo) → lookup k m ≡ some info → info.channel_id ≡ k)
    → map (λ (i : ConnInfo). i.channel_id) (map (λ p. p.1) m) ≡ map (λ p. p.0) m
unfolding lookup
listed_ids [] w ids = refl
listed_ids ((j, v) ∷ m) w ids =
    let first : v.channel_id ≡ j = ids j v (ground arith) in
    rw (first, listed_ids m w.1 (λ k i e. ids k i (ground (arith, e, Fresh-lookup j m w.0)))) refl

-- From a Connect that succeeds, whatever frames arrive and in whatever order channels are closed, as
-- long as no number is given to a TCP and to a UDP channel: GetConnections lists the numbers of a
-- table that has each number once, and has it exactly if one of the two tables of channels has an open
-- channel under it.
pub get_connections_open :
    (lz4 : Lz4) (is_udp : ℕ → Bool) (resp : Option ControlMsg) (c d e : Relay)
    → connect resp c ≡ some d
    → Life lz4 is_udp d e
    → (map (λ (i : ConnInfo). i.channel_id) (get_connections e) ≡ map (λ p. p.0) e.conn_infos)
      × IsMap e.conn_infos
      × ((k : ℕ) → has k e.conn_infos ≡ (has k e.channels || has k e.udp_channels))
unfolding get_connections
get_connections_open lz4 is_udp resp c d e f life =
    let (p, q, r) = connect-infos resp c d f in
    let begun =
      same-Listed (record c { channels = []; udp_channels = []; conn_infos = [] }) d p q r
        (empty-Listed is_udp c) in
    let l = Life-Listed lz4 d e life begun in
    (
      listed_ids e.conn_infos l.conn_infos l.ids,
      l.conn_infos,
      λ k. ground (arith, l.tcp k, l.udp k),
    )
