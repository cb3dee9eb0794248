-- ===== src/Server/Forward.antt =====
-- The data that pass through signal-server/main.go: from an outside connection to the client, and
-- from the client to an outside connection.
use p2p_tun.Plugin.Manager
use p2p_tun.Plugin.Compression
use p2p_tun.Prelude.{
  Bool-cases, Bytes, List, Option-cases, [], ap, arith, inl, inr, length, refl, some, true, ℕ, ◌&&◌,
  ◌++◌, ◌∙◌, ◌∷◌, ◌≡◌, ◌≤◌,
}
use p2p_tun.Plugin.Compression.{Compression, Lz4, data_of, data_of-frame_of, frame_of}
use p2p_tun.Plugin.Manager.{Manager, can_decompress, has_compressor}
use p2p_tun.Plugin.Manager.Filters.{on_data_never_closes}
use p2p_tun.Prelude.Assoc.{lookup}
use p2p_tun.Server.{
  Answer, Effect, State, Turn, data_frame, emit, forward, frame, goes_on, pick_frame,
  supports_compression, throttle, write_conn,
}
use p2p_tun.Server.Frames.{deliver, frame_payload, on_data_frame, on_payload}
use p2p_tun.Server.Pipe.{pipe_body, pipe_turn}
use p2p_tun.Text.{text}

pub throttle-effects : (n now late : ℕ) (s : State) → (throttle n now late s).effects ≡ s.effects
unfolding throttle
throttle-effects n now late s = ground arith

pub pick_restores :
    (lz4 : Lz4) (c : Compression) (b : Bytes)
    → (data_of lz4 (pick_frame b (Compression.compress lz4 c b)) ≡ some b)
      × (length (pick_frame b (Compression.compress lz4 c b)).1 ≤ length b)
unfolding Compression.compress data_of Compression.decompress
pick_restores lz4 c b = elim (Option-cases (lz4.pack b)) [
  | inl e ↦ ground arith
  | inr (packed, e) ↦ ground (arith, lz4.unpack-pack b packed e)
]

compress_restores :
    (lz4 : Lz4) (m : Manager) (b : Bytes)
    → (data_of lz4 (pick_frame b (Manager.compress lz4 m b)) ≡ some b)
      × (length (pick_frame b (Manager.compress lz4 m b)).1 ≤ length b)
unfolding Manager.compress data_of
compress_restores lz4 m b = elim (Option-cases m.compressor) [
  | inl e ↦ rw (Manager.compress, e) (refl, omega arith)
  | inr (c, e) ↦ rw (Manager.compress, e) (pick_restores lz4 c b)
]

pub data_frame_restores :
    (lz4 : Lz4) (s : State) (b : Bytes)
    → (data_of lz4 (data_frame lz4 s b) ≡ some b) × (length (data_frame lz4 s b).1 ≤ length b)
unfolding data_frame data_of
data_frame_restores lz4 s b =
    elim (Bool-cases (Manager.has_compressor s.mgr && supports_compression s.client.features)) [
      | inl e ↦ rw (data_frame, e) (compress_restores lz4 s.mgr b)
      | inr e ↦ rw (data_frame, e) (refl, omega arith)
    ]

-- A piece of data that the pipe reads from an outside connection reaches the client as one frame on
-- its channel, and nothing else is written: undoing the compression of that frame gives the data,
-- and the frame is no longer than they are. This holds whatever the dynamic plugins answer to on_data,
-- since the adapter drops their answer.
pub pipe_turn_restores :
    (lz4 : Lz4) (conn channel_id : ℕ) (payload : Bytes) (a : Answer) (s : State)
    → a.sent ≡ true
    → (f : ℕ × Bytes) × ((pipe_turn lz4 conn channel_id (some payload) a s).0 ≡ goes_on)
      × ((pipe_turn lz4 conn channel_id (some payload) a s).1.effects
          ≡ s.effects ++ frame f.0 channel_id f.1 ∷ [])
      × (data_of lz4 f ≡ some payload)
      × (length f.1 ≤ length payload)
unfolding pipe_turn pipe_body forward
pipe_turn_restores lz4 conn channel_id payload a s q =
    let (action, mgr) = Manager.on_data s.mgr channel_id (text "rx") (length payload) in
    let s1 = throttle (length payload) a.now a.late (record s { mgr = mgr }) in
    let restored = data_frame_restores lz4 s1 payload in
    let stays = on_data_never_closes s.mgr channel_id (text "rx") (length payload) in
    (
      data_frame lz4 s1 payload,
      rw (stays, q) refl,
      rw (stays, q, throttle-effects (length payload) a.now a.late (record s { mgr = mgr })) refl,
      restored.0,
      restored.1,
    )

throttle-channel_conns :
    (n now late : ℕ) (s : State)
    → (throttle n now late s).client.channel_conns ≡ s.client.channel_conns
unfolding throttle
throttle-channel_conns n now late s = ground arith

frame_payload-data_of :
    (lz4 : Lz4) (m : Manager) (t : ℕ) (b : Bytes)
    → Manager.can_decompress m ≡ true
    → frame_payload lz4 m t b ≡ data_of lz4 (t, b)
unfolding frame_payload data_of Manager.decompress
frame_payload-data_of lz4 m t b d = rw d refl

deliver_known :
    (channel_id conn : ℕ) (b : Bytes) (s : State)
    → lookup channel_id s.client.channel_conns ≡ some conn
    → deliver channel_id b s ≡ (goes_on, emit (write_conn conn b) s)
unfolding deliver
deliver_known channel_id conn b s e = rw (deliver, e) refl

on_payload_delivers :
    (channel_id conn : ℕ) (b : Bytes) (a : Answer) (s : State)
    → lookup channel_id s.client.channel_conns ≡ some conn
    → (on_payload channel_id b a s).1.effects ≡ s.effects ++ write_conn conn b ∷ []
unfolding on_payload
on_payload_delivers channel_id conn b a s e =
    let (action, mgr) = Manager.on_data s.mgr channel_id (text "tx") (length b) in
    let s' = record s { mgr = mgr } in
    let s1 = throttle (length b) a.now a.late s' in
    let known =
      deliver_known channel_id conn b s1
        (ap (lookup channel_id) (throttle-channel_conns (length b) a.now a.late s') ∙ e) in
    rw (on_data_never_closes s.mgr channel_id (text "tx") (length b)) (
      ap (λ (r : Turn × State). r.1.effects) known
      ∙ ap (λ (x : List Effect). x ++ write_conn conn b ∷ [])
          (throttle-effects (length b) a.now a.late s'))

-- A frame that decodes to `b` writes `b` to the connection of its channel.
pub decoded_delivers :
    (lz4 : Lz4) (t channel_id conn : ℕ) (body b : Bytes) (a : Answer) (s : State)
    → data_of lz4 (t, body) ≡ some b
    → Manager.can_decompress s.mgr ≡ true
    → lookup channel_id s.client.channel_conns ≡ some conn
    → (on_data_frame lz4 t channel_id body a s).1.effects ≡ s.effects ++ write_conn conn b ∷ []
unfolding on_data_frame
decoded_delivers lz4 t channel_id conn body b a s r d e =
    rw (on_data_frame, frame_payload-data_of lz4 s.mgr t body d ∙ r)
      (on_payload_delivers channel_id conn b a s e)

-- What the client sends on a channel arrives at the outside connection of that channel: the server
-- undoes the compression of the client, if it can, and writes the data.
pub on_data_frame_delivers :
    (lz4 : Lz4) (c : Compression) (channel_id conn : ℕ) (b : Bytes) (a : Answer) (s : State)
    → Manager.can_decompress s.mgr ≡ true
    → lookup channel_id s.client.channel_conns ≡ some conn
    → (on_data_frame lz4 (frame_of lz4 c b).0 channel_id (frame_of lz4 c b).1 a s).1.effects
      ≡ s.effects ++ write_conn conn b ∷ []
on_data_frame_delivers lz4 c channel_id conn b a s d e =
    let (t, body) = frame_of lz4 c b in
    decoded_delivers lz4 t channel_id conn body b a s (data_of-frame_of lz4 c b).0 d e
