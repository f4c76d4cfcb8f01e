-- ===== src/Server/Io.antt =====
-- DHServer.cpp: IOFunction_Send, IOFunction_Accept and IOFunction_Disconnect.
use dhserver.Base.{ℕ, true, none, some, lookup, update, length, ◌==◌, if◌then◌else◌}
use dhserver.Base.Outcome.{Outcome, done, spin, ◌>>=◌}
use dhserver.Shared.{IoType, dhdebug_simple, add_int}
use dhserver.Server.{Server, Os, Call, overlapped, set_overlapped, emit}
use dhserver.Server.Sockets.{reset, add_client_socket, reuse_socket, end_client_reset}
use dhserver.Server.Recv.{reserve_wsa_receive}

-- IOFunction_Send
unfoldable pub io_send : Server → ℕ → ℕ → Server
io_send s bytes op =
    let counted =
      if s.debug_option == dhdebug_simple
      then record s { send_total_packet = add_int s.send_total_packet bytes }
      else s in
    reset counted op

-- A full server: the socket is made ready for the next client.
unfoldable pub refuse : Os → Server → ℕ → Outcome Server
refuse os s op = do s1 ← reuse_socket os s (overlapped s op).socket; done (reset s1 op)

-- The last part of IOFunction_Accept: the first receive is posted.
unfoldable pub start_receive : Os → Server → ℕ → ℕ → Outcome Server
start_receive os s op p = do
  (posted, s1) ← reserve_wsa_receive os s (s.structs p).socket none
  if posted
      then done (record (reset s1 op) {
        structs = update s1.structs p (record (s1.structs p) { is_available = true });
      })
      else end_client_reset os s1 (s1.structs p).socket op

-- IOFunction_Accept from AddClientSocket on.
unfoldable pub enter_client : Os → Server → ℕ → ℕ → Outcome Server
unfolding add_client_socket start_receive
enter_client os s op p =
    let (added, s1) = add_client_socket s p in
    if added
    then start_receive os
        (record s1 {
          enter_user_count =
              if s1.debug_option == dhdebug_simple
              then add_int s1.enter_user_count 1
              else s1.enter_user_count;
        })
        op p
    else done s1

-- The address of the peer goes into the Socket_Struct.
unfoldable pub set_peer : Os → Server → ℕ → ℕ → Server
set_peer os s op p = record s {
  structs = update s.structs p (record (s.structs p) {
    ip = os.peer_ip (overlapped s op).buffer;
    port = os.peer_port (overlapped s op).buffer;
  });
}

-- IOFunction_Accept behind the test of the limit: it waits in an empty loop where the socket is not
-- in the pool.
unfoldable pub accept_checked : Os → Server → ℕ → Outcome Server
unfolding enter_client set_peer
accept_checked os s op = elim (lookup (overlapped s op).socket s.socket_pool) [
  | none ↦ spin
  | some p ↦ enter_client os (set_peer os s op p) op p
]

-- IOFunction_Accept
unfoldable pub io_accept : Os → Server → ℕ → Outcome Server
unfolding refuse accept_checked
io_accept os s op =
    if length s.connected == s.max_user_count then refuse os s op else accept_checked os s op

-- IOFunction_Disconnect: the overlapped serves for the next AcceptEx of its socket.
unfoldable pub io_disconnect : Os → Server → ℕ → Server
io_disconnect os s op =
    let o = record (overlapped s op) { io_type = IoType.accept } in
    let s1 = set_overlapped s op o in
    let c = Call.accept_ex o.socket op in
    if os.pending s1.calls c then emit s1 c else reset (emit s1 (Call.failed c)) op
