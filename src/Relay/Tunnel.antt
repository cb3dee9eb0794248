-- ===== src/Relay/Tunnel.antt =====
-- Data through both ends of the tunnel: signal-server/main.go and relay/relay.go.
use p2p_tun.Server.Frames
use p2p_tun.Plugin.Manager
use p2p_tun.Prelude.{
  Bool-cases, Bytes, Option, Option-cases, [], ap, arith, bytes_eq, inl, inr, refl, some, sym, true,
  ℕ, ◌&&◌, ◌++◌, ◌∙◌, ◌∷◌, ◌≡◌,
}
use p2p_tun.Frame.{frame_data}
use p2p_tun.Plugin.Compression.{Compression, Lz4, data_of}
use p2p_tun.Plugin.Manager.{Manager, can_decompress, has_compressor}
use p2p_tun.Prelude.Assoc.{lookup}
use p2p_tun.Relay.{Relay, client_features, negotiate, register_msg}
use p2p_tun.Relay.Inbound.{local_conn, on_data_frame, received, write_local}
use p2p_tun.Relay.Outbound.{outgoing, pipe_data}
use p2p_tun.Server.{Answer, ControlMsg, State, data_frame, frame, supports_compression, write_conn}
use p2p_tun.Server.Forward.{data_frame_restores, decoded_delivers, pick_restores}
use p2p_tun.Server.Register.{server_features}
use p2p_tun.Text.{text_eq}

compressing_client :
    (c : Relay)
    → supports_compression (client_features c) ≡ true
    → (p : Compression) × (c.compressor ≡ some p)
unfolding supports_compression
compressing_client c h = elim (Option-cases c.compressor) [
  | inl e ↦ absurd (ground (arith, e, h))
  | inr (p, e) ↦ (p, e)
]

compressing_server :
    (m : Manager)
    → Manager.has_compressor m ≡ true
    → supports_compression (server_features m) ≡ true
unfolding supports_compression server_features text_eq bytes_eq
compressing_server m h = rw (server_features, h) refl

-- A client that offered compression to a server that compresses keeps its compressor.
keeps_compressor :
    (c : Relay) (resp : ControlMsg)
    → supports_compression resp.features ≡ true
    → (negotiate resp c).compressor ≡ c.compressor
unfolding negotiate
keeps_compressor c resp h = ground (arith, h)

received_plain :
    (lz4 : Lz4) (o : Option Compression) (b : Bytes) → received lz4 o frame_data b ≡ some b
unfolding received
received_plain lz4 o b = refl

received-data_of :
    (lz4 : Lz4) (p : Compression) (t : ℕ) (b : Bytes)
    → received lz4 (some p) t b ≡ data_of lz4 (t, b)
unfolding received data_of
received-data_of lz4 p t b = refl

received_packed :
    (lz4 : Lz4) (s : State) (c0 : Relay) (resp : ControlMsg) (b : Bytes)
    → s.client.features ≡ (register_msg c0).features
    → resp.features ≡ server_features s.mgr
    → Manager.has_compressor s.mgr ≡ true
    → supports_compression s.client.features ≡ true
    → received lz4 (negotiate resp c0).compressor (data_frame lz4 s b).0 (data_frame lz4 s b).1
      ≡ some b
unfolding register_msg
received_packed lz4 s c0 resp b f g has_it supported =
    let (p, kept) = compressing_client c0 (ap supports_compression (sym f) ∙ supported) in
    let both = ap supports_compression g ∙ compressing_server s.mgr has_it in
    let (t, body) = data_frame lz4 s b in
    rw (keeps_compressor c0 resp both ∙ kept)
      (received-data_of lz4 p t body ∙ (data_frame_restores lz4 s b).0)

-- The client can undo what the server did to the data.
received-data_frame :
    (lz4 : Lz4) (s : State) (c0 : Relay) (resp : ControlMsg) (b : Bytes)
    → s.client.features ≡ (register_msg c0).features
    → resp.features ≡ server_features s.mgr
    → received lz4 (negotiate resp c0).compressor (data_frame lz4 s b).0 (data_frame lz4 s b).1
      ≡ some b
unfolding register_msg data_frame received
received-data_frame lz4 s c0 resp b f g =
    elim (Bool-cases (Manager.has_compressor s.mgr && supports_compression s.client.features)) [
      | inr e ↦ rw (data_frame, e) (received_plain lz4 (negotiate resp c0).compressor b)
      | inl e ↦ received_packed lz4 s c0 resp b f g (ground (arith, e)) (ground (arith, e))
    ]

write_local_known :
    (channel_id conn : ℕ) (b : Bytes) (c : Relay)
    → local_conn channel_id c ≡ some conn
    → (write_local channel_id b true c).effects ≡ c.effects ++ write_conn conn b ∷ []
unfolding write_local
write_local_known channel_id conn b c e = rw (write_local, e) refl

-- Data that the server sends into a channel reach the local service unchanged, compressed or not:
-- for a client `c0` that registered with the server and got its ok, in any later state `c` in which
-- the channel is open and the write to the local service succeeds.
pub tunnel_in :
    (lz4 : Lz4) (s : State) (c0 c : Relay) (resp : ControlMsg) (channel_id conn : ℕ) (b : Bytes)
    → s.client.features ≡ (register_msg c0).features
    → resp.features ≡ server_features s.mgr
    → c.compressor ≡ (negotiate resp c0).compressor
    → local_conn channel_id c ≡ some conn
    → (on_data_frame lz4 (data_frame lz4 s b).0 channel_id (data_frame lz4 s b).1 true c).effects
      ≡ c.effects ++ write_conn conn b ∷ []
unfolding on_data_frame
tunnel_in lz4 s c0 c resp channel_id conn b f g h e =
    let got = received-data_frame lz4 s c0 resp b f g in
    rw (on_data_frame, h, got) (write_local_known channel_id conn b c e)

compressed_restores :
    (lz4 : Lz4) (c : Relay) (p : Compression) (b : Bytes)
    → c.compressor ≡ some p
    → data_of lz4 (outgoing lz4 c b) ≡ some b
unfolding outgoing data_of
compressed_restores lz4 c p b e = elim (Bool-cases c.server_supports_compression) [
  | inl s ↦ rw (outgoing, e, s) (pick_restores lz4 p b).0
  | inr s ↦ rw (outgoing, e, s) refl
]

outgoing_restores : (lz4 : Lz4) (c : Relay) (b : Bytes) → data_of lz4 (outgoing lz4 c b) ≡ some b
unfolding outgoing data_of
outgoing_restores lz4 c b = elim (Option-cases c.compressor) [
  | inl e ↦ rw (outgoing, e) refl
  | inr (p, e) ↦ compressed_restores lz4 c p b e
]

-- Data of a local service reach the outside connection of their channel unchanged: what a pipe of
-- the client sends is one frame, and the server, if it can undo compression, writes the data. This
-- holds whatever the dynamic plugins answer to on_data, since the adapter drops their answer.
pub tunnel_out :
    (lz4 : Lz4) (c : Relay) (a : Answer) (s : State) (channel_id conn : ℕ) (b : Bytes)
    → Manager.can_decompress s.mgr ≡ true
    → lookup channel_id s.client.channel_conns ≡ some conn
    → (f : ℕ × Bytes) × ((pipe_data lz4 channel_id b c).effects
        ≡ c.effects ++ frame f.0 channel_id f.1 ∷ [])
      × ((Frames.on_data_frame lz4 f.0 channel_id f.1 a s).1.effects
          ≡ s.effects ++ write_conn conn b ∷ [])
unfolding pipe_data
tunnel_out lz4 c a s channel_id conn b d e = (
  outgoing lz4 c b,
  refl,
  decoded_delivers lz4 (outgoing lz4 c b).0 channel_id conn (outgoing lz4 c b).1 b a s
      (outgoing_restores lz4 c b) d e,
)
