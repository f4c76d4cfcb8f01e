-- ===== src/Client.antt =====
-- DHNetWork/DHNetWork/DHClient.h: the state of DHClient; its constructor, SetDebug, Send, Recv,
-- Connect, Safe_CloseSocket and End (DHClient.cpp).
pub mod Recv
pub mod Send
pub mod Run
pub mod Posting
pub mod Wire
use dhserver.Base.{
  ℕ, Bool, true, false, List, [], ◌∷◌, ◌++◌, Option, none, some, drop, length, ltb, ◌==◌,
  if◌then◌else◌, update,
}
use dhserver.Base.Outcome.{Outcome, done, spin, fault, ◌>>=◌}
use dhserver.Shared.{
  Overlapped, SocketStruct, Message, new_socket_struct, client_overlapped_count,
  client_thread_count, packet_header_size, packet_type_none, invalid_socket, logic_success,
  logic_fail,
}
use dhserver.Shared.Bytes.{read_le}
use dhserver.ObjectPool.{ObjectPool, new_object_pool, reset_object}
use dhserver.Server.{Call, overlapped_object}
use dhserver.Server.Send.{copy_packet}
use dhserver.Server.Recv.{recv_drain}

-- A `std::thread*`: null, a thread, or what is left of the pointer once the thread is deleted.
pub data ThreadPtr : Type 0 where
  null running dangling : ThreadPtr

-- `server_socket` is g_Server_Socket, empty after its reset; `calls` lists the calls of Windows
-- made, newest first.
pub record Client : Type 0 where
  pub port : ℕ
  pub ip : List ℕ
  pub overlapped_pool : ObjectPool Overlapped
  pub server_socket : Option SocketStruct
  pub recv_queue : List Message
  pub send_queue : List (List ℕ)
  pub connect_send_thread : ThreadPtr
  pub work_threads : ℕ
  pub is_server_connect_success : Bool
  pub iocp : Bool
  pub is_exit : Bool
  pub debug_option : ℕ
  pub calls : List Call

abbrev pub overlapped : Client → ℕ → Overlapped
overlapped c p = c.overlapped_pool.mem p

-- *p = o
abbrev pub set_overlapped : Client → ℕ → Overlapped → Client
set_overlapped c p o = record c {
  overlapped_pool = record c.overlapped_pool { mem = update c.overlapped_pool.mem p o };
}

abbrev pub emit : Client → Call → Client
emit c call = record c { calls = call ∷ c.calls }

-- ResetObject of the client's pool of overlapped structures.
abbrev pub reset : Client → ℕ → Client
reset c p = record c { overlapped_pool = reset_object overlapped_object c.overlapped_pool p }

-- g_Server_Socket->m_Socket
unfoldable pub socket_of : Client → Outcome ℕ
socket_of c = elim c.server_socket [ none ↦ fault | some x ↦ done x.socket ]

-- DHClient::DHClient, with the port and the address that the class declares; `memory` is what lies
-- in the memory that the overlapped structures are made in.
unfoldable pub new_client : (ℕ → Overlapped) → Client
new_client memory = record {
  port = 729;
  ip = 49 ∷ 50 ∷ 55 ∷ 46 ∷ 48 ∷ 46 ∷ 48 ∷ 46 ∷ 49 ∷ [];
  overlapped_pool = new_object_pool overlapped_object client_overlapped_count memory;
  server_socket = some new_socket_struct;
  recv_queue = [];
  send_queue = [];
  connect_send_thread = null;
  work_threads = client_thread_count;
  is_server_connect_success = false;
  iocp = true;
  is_exit = false;
  debug_option = 0;
  calls = [];
}

-- SetDebug
unfoldable pub set_debug : Client → ℕ → Client
set_debug c option = record c { debug_option = option }

-- Send; the type and the socket that it is given are not read.
unfoldable pub send : Client → List ℕ → ℕ → ℕ → Outcome (ℕ × Client)
unfolding socket_of
send c packet send_type socket = socket_of c >>= λ k.
    if k == invalid_socket
    then done (logic_fail, c)
    else if ltb (length packet) packet_header_size
    then fault
    else if read_le 2 (drop 8 packet) == packet_type_none
    then done (logic_fail, c)
    else (copy_packet packet >>= λ copy.
        done (logic_success, record c { send_queue = c.send_queue ++ copy ∷ [] }))

-- Recv
unfoldable pub recv : Client → List Message → ℕ × List Message × Client
recv c out = elim c.recv_queue [
  | [] ↦ (logic_fail, out, c)
  | m ∷ queue ↦ (logic_success, recv_drain (m ∷ queue) out, record c { recv_queue = [] })
]

-- Connect: the first call starts the thread, the others report.
unfoldable pub connect : Client → ℕ → List ℕ → ℕ × Client
connect c port ip = elim c.connect_send_thread [
  | null ↦ (0, record c { port = port; ip = ip; connect_send_thread = running })
  | _ ↦ (if c.is_server_connect_success then 1 else 0, c)
]

-- Safe_CloseSocket; an empty g_Server_Socket is never unique.
unfoldable pub safe_close_socket : Client → Outcome Client
safe_close_socket c = elim c.server_socket [
  | none ↦ spin
  | some x ↦ done (record (emit (emit c (Call.shutdown x.socket)) (Call.closesocket x.socket)) {
    server_socket = some (record x { socket = invalid_socket });
    is_server_connect_success = false;
  })
]

-- The end of a receive or send that failed: Safe_CloseSocket, and ResetObject of the overlapped.
unfoldable pub close_reset : Client → ℕ → Outcome Client
unfolding safe_close_socket
close_reset c op = safe_close_socket c >>= λ c1. done (reset c1 op)

-- The part of End behind the threads.
unfoldable pub release_all : Client → Outcome Client
unfolding safe_close_socket
release_all c =
    safe_close_socket (
      emit (record c { work_threads = 0; recv_queue = []; send_queue = []; iocp = false })
        Call.close_iocp)
    >>= λ c1. done (record (emit c1 Call.wsa_cleanup) {
      overlapped_pool = record c1.overlapped_pool { available_obj = []; all_object_list = [] };
      server_socket = none;
    })

-- End: it joins the thread that Connect has made, and deletes it.
unfoldable pub end : Client → Outcome (ℕ × Client)
unfolding release_all
end c = elim c.connect_send_thread [
  | running ↦
      release_all
        (record (emit c Call.post_exit) { is_exit = true; connect_send_thread = dangling })
      >>= λ c1. done (1, c1)
  | _ ↦ fault
]
