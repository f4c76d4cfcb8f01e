-- ===== src/Server/Sockets.antt =====
-- DHServer.cpp: the two tables of sockets (AddClientSocket, Reuse_Socket, Delete_in_Socket_List,
-- FindSocketOnClient, Disconnect), and Disconnect_EX of NetWorkBase.cpp.
pub mod Keeps
use dhserver.Base.{
  ℕ, ◌≡◌, Bool, true, false, List, [], ◌∷◌, Option, none, some, lookup, erase, update, ◌==◌,
  if◌then◌else◌,
}
use dhserver.Base.Outcome.{Outcome, done, spin, fault, ◌>>=◌}
use dhserver.Shared.{
  IoType, SocketStruct, new_socket_struct, dhdebug_simple, add_int, logic_success,
}
use dhserver.ObjectPool.{get_object, reset_object}
use dhserver.Server.{Server, Os, Call, overlapped, set_overlapped, emit, overlapped_object}

-- Reset_Object of the server's pool of overlapped structures.
abbrev pub reset : Server → ℕ → Server
reset s p = record s { overlapped_pool = reset_object overlapped_object s.overlapped_pool p }

-- FindSocketOnClient
unfoldable pub find_socket_on_client : Server → ℕ → Bool
find_socket_on_client s target = elim (lookup target s.connected) [ none ↦ false | some p ↦ true ]

-- AddClientSocket
unfoldable pub add_client_socket : Server → ℕ → Bool × Server
unfolding find_socket_on_client
add_client_socket s p =
    if find_socket_on_client s (s.structs p).socket
    then (false, s)
    else (true, record s { connected = ((s.structs p).socket, p) ∷ s.connected })

-- Disconnect_EX: a DisconnectEx that does not stay pending ends with WSACleanup.
unfoldable pub disconnect_ex : Os → Server → ℕ → ℕ → Server
disconnect_ex os s socket op =
    let c = Call.disconnect_ex socket op in
    if os.pending s.calls c then emit s c else emit (emit s (Call.failed c)) Call.wsa_cleanup

-- The part of Reuse_Socket that follows the lookup: `p` is the Socket_Struct of the socket.
unfoldable pub reuse_struct : Os → Server → ℕ → ℕ → Outcome Server
unfolding disconnect_ex
reuse_struct os s socket p = do
  let s1 = record s { structs = update s.structs p (record new_socket_struct { socket = socket }) }
  let s2 = emit s1 (Call.shutdown socket)
  (op, q) ← get_object overlapped_object s2.overlapped_pool
  let s3 = record s2 { overlapped_pool = q }
  let o = overlapped s3 op
  let s4 = set_overlapped s3 op (record o { io_type = IoType.disconnect; socket = socket })
  done (disconnect_ex os s4 socket op)

-- Reuse_Socket. The accessor is null where the socket is not in the pool.
unfoldable pub reuse_socket : Os → Server → ℕ → Outcome Server
unfolding reuse_struct
reuse_socket os s socket = elim (lookup socket s.socket_pool) [
  | none ↦ fault
  | some p ↦ reuse_struct os s socket p
]

-- The part of Delete_in_Socket_List that follows the first lookup: the thread waits in an empty
-- loop until the socket is in g_Connected_Client.
unfoldable pub delete_connected : Server → ℕ → ℕ → Outcome Server
delete_connected s socket p = elim (lookup socket s.connected) [
  | none ↦ spin
  | some q ↦ done (record s {
    connected = erase socket s.connected;
    structs = update s.structs p (record (s.structs p) { is_available = false });
    exit_user_count =
        if s.debug_option == dhdebug_simple then add_int s.exit_user_count 1 else s.exit_user_count;
  })
]

-- Delete_in_Socket_List
unfoldable pub delete_in_socket_list : Server → ℕ → Outcome Server
unfolding delete_connected
delete_in_socket_list s socket = elim (lookup socket s.socket_pool) [
  | none ↦ done s
  | some p ↦ delete_connected s socket p
]

-- The sequence by which a handler ends a client: Delete_in_Socket_List, Reuse_Socket.
unfoldable pub end_client : Os → Server → ℕ → Outcome Server
unfolding delete_in_socket_list reuse_socket
end_client os s socket = do s1 ← delete_in_socket_list s socket; reuse_socket os s1 socket

-- The same, and then ResetObject of the overlapped at hand.
unfoldable pub end_client_reset : Os → Server → ℕ → ℕ → Outcome Server
unfolding end_client
end_client_reset os s socket op = do s1 ← end_client os s socket; done (reset s1 op)

-- Disconnect, as built with NDEBUG.
unfoldable pub disconnect : Os → Server → ℕ → Outcome (ℕ × Server)
unfolding end_client
disconnect os s socket = do s1 ← end_client os s socket; done (logic_success, s1)
