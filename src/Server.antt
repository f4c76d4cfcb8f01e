-- ===== src/Server.antt =====
-- DHNetWork/DHNetWork/DHServer.h: the state of DHServer, and what it asks of Windows.
-- The handlers of DHServer.cpp are in the modules below.
pub mod Sockets
pub mod Recv
pub mod Send
pub mod Io
pub mod Work
pub mod Start
pub mod Stop
pub mod Tables
use dhserver.Base.{ℕ, Bool, true, false, List, ◌∷◌, Option, update}
use dhserver.Shared.{
  Overlapped, SocketStruct, Message, IoType, construct_overlapped, destruct_overlapped,
}
use dhserver.ObjectPool.{Object, ObjectPool}

-- The calls of Windows that have an effect outside the process. An overlapped is its address.
-- `failed c` is the call `c` that was refused.
pub data Call : Type 0 where
  wsa_send : (socket overlapped : ℕ) (bytes : List ℕ) → Call
  wsa_recv : (socket overlapped len : ℕ) → Call
  accept_ex disconnect_ex : (socket overlapped : ℕ) → Call
  connect : (socket : ℕ) → Call
  bind listen : (socket : ℕ) → Call
  shutdown closesocket : (socket : ℕ) → Call
  associate : (socket key : ℕ) → Call
  create_iocp post_exit close_iocp wsa_cleanup : Call
  failed : Call → Call

-- Windows. What a call returns may depend on all the calls before it, newest first.
-- `pending h c`: the call `c` succeeded, or an overlapped one was left pending as it should.
-- `new_socket`: what WSASocket returns. `peer_ip`, `peer_port`: the remote address that
-- GetAcceptExSockaddrs, inet_ntop and ntohs find in the buffer of an AcceptEx.
pub record Os : Type 0 where
  pub pending : List Call → Call → Bool
  pub new_socket : List Call → ℕ
  pub peer_ip : List ℕ → List ℕ
  pub peer_port : List ℕ → ℕ

-- `socket_pool` is g_Socket_Struct_Pool and `connected` g_Connected_Client: from a socket to the
-- address of its Socket_Struct in `structs`. `calls` lists the calls made, newest first.
pub record Server : Type 0 where
  pub max_user_count : ℕ
  pub debug_option : ℕ
  pub overlapped_pool : ObjectPool Overlapped
  pub structs : ℕ → SocketStruct
  pub next_struct : ℕ
  pub socket_pool : List (ℕ × ℕ)
  pub connected : List (ℕ × ℕ)
  pub recv_queue : List Message
  pub send_queue : List (ℕ × List ℕ)
  pub recv_total_packet : ℕ
  pub send_total_packet : ℕ
  pub enter_user_count : ℕ
  pub exit_user_count : ℕ
  pub listen_socket : ℕ
  pub iocp : Bool
  pub send_thread : Bool
  pub time_thread : Bool
  pub work_threads : ℕ
  pub is_exit : Bool
  pub calls : List Call

-- Overlapped_Struct as a class that an ObjectPool can hold.
abbrev pub overlapped_object : Object Overlapped
overlapped_object = record { construct = construct_overlapped; destruct = destruct_overlapped }

abbrev pub overlapped : Server → ℕ → Overlapped
overlapped s p = s.overlapped_pool.mem p

-- *p = o
abbrev pub set_overlapped : Server → ℕ → Overlapped → Server
set_overlapped s p o = record s {
  overlapped_pool = record s.overlapped_pool { mem = update s.overlapped_pool.mem p o };
}

-- A call as it is recorded, with its result.
abbrev pub answer : Bool → Call → Call
answer true c = c
answer false c = Call.failed c

abbrev pub emit : Server → Call → Server
emit s c = record s { calls = c ∷ s.calls }
