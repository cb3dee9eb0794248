-- ===== src/Server/Pipe.antt =====
-- pipeExternalToClient of signal-server/main.go: one piece of data, or the end, of a connection from
-- outside.
use p2p_tun.Plugin.Manager
use p2p_tun.Prelude.{Bytes, Option, [], if◌then◌else◌, length, none, some, ℕ}
use p2p_tun.Frame.{frame_close}
use p2p_tun.Plugin.Compression.{Lz4}
use p2p_tun.Plugin.Manager.{Manager}
use p2p_tun.Prelude.Assoc.{erase, has}
use p2p_tun.Server.{
  Answer, State, Turn, account_close, blocked, close_conn, emit, emit_if, forward, frame, goes_on,
  returns,
}
use p2p_tun.Text.{text}

-- The deferred function: it accounts for the channel only if nobody else has removed it.
unfoldable pub pipe_end : ℕ → ℕ → ℕ → State → State
pipe_end conn channel_id now s =
    let s' = emit (close_conn conn) (record s {
      client = record s.client { channel_conns = erase channel_id s.client.channel_conns };
    }) in
    if has channel_id s.client.channel_conns then account_close channel_id now s' else s'

-- The body of the loop; `read` is what Read returns, `none` its error.
unfoldable pub pipe_body : Lz4 → ℕ → Option Bytes → Answer → State → Turn × State
unfolding forward
pipe_body lz4 channel_id none a s = (returns, emit_if a.sent (frame frame_close channel_id []) s)
pipe_body lz4 channel_id (some payload) a s =
    let (action, mgr) = Manager.on_data s.mgr channel_id (text "rx") (length payload) in
    let s' = record s { mgr = mgr } in
    if action.close then (returns, s') else forward lz4 channel_id payload a s'

abbrev pub after_body : ℕ → ℕ → ℕ → Turn × State → Turn × State
after_body conn channel_id now (goes_on, s) = (goes_on, s)
after_body conn channel_id now (returns, s) = (returns, pipe_end conn channel_id now s)
after_body conn channel_id now (blocked, s) = (blocked, s)

-- One turn, with the deferred function if it returns.
unfoldable pub pipe_turn : Lz4 → ℕ → ℕ → Option Bytes → Answer → State → Turn × State
unfolding pipe_body pipe_end
pipe_turn lz4 conn channel_id read a s =
    after_body conn channel_id a.now (pipe_body lz4 channel_id read a s)
