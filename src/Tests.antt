-- ===== src/Tests.antt =====
-- Concrete servers, for the runs of the modules below.
pub mod Receiving
pub mod Sending
pub mod Serving
pub mod Wire
pub mod Roles
pub mod Connecting
pub mod Clients
pub mod Tabling
pub mod Accounts
pub mod Blocks
pub mod Pairs
pub mod Launching
pub mod Arriving
pub mod Dialogs
use dhserver.Base.{
  ℕ, ◌≤◌, ◌<◌, refl, Bool, true, false, List, [], ◌∷◌, replicate, length-replicate, arith,
}
use dhserver.Shared.{
  Overlapped, IoType, SocketStruct, invalid_socket, max_packet_size, overlapped_bufize,
}
use dhserver.Server.{Server, Os}
use dhserver.Server.Recv.Buffer.{IsValid}

-- Windows takes every call; the sockets are 100.
abbrev pub all_ok : Os
all_ok = record {
  pending = λ h c. true;
  new_socket = λ h. 100;
  peer_ip = λ b. [];
  peer_port = λ b. 0;
}

-- An overlapped that waits for the bytes of socket 5.
abbrev pub listening : Overlapped
listening = record {
  io_type = IoType.recv;
  socket = 5;
  wsabuf_len = overlapped_bufize;
  data_size = 0;
  buffer = replicate overlapped_bufize 0;
  processing_packet_size = 0;
  processing_packet_buffer = replicate max_packet_size 0;
  processed_packet_size = 0;
}

pub listening-IsValid : IsValid listening
listening-IsValid = record {
  buffer_size = length-replicate overlapped_bufize 0;
  processing_size = length-replicate max_packet_size 0;
  processed_in = omega arith;
}

-- A server with the clients on the sockets 5 and 6, of at most two, and their receives posted on
-- the overlapped structures 0 and 1.
abbrev pub serving : Server
serving = record {
  max_user_count = 2;
  debug_option = 1;
  overlapped_pool = record {
    sample_obj_count = 10;
    all_object_list = 0 ∷ 1 ∷ 2 ∷ [];
    available_obj = 2 ∷ [];
    next = 3;
    mem = λ q. listening;
  };
  structs = λ p. record { socket = p; ip = []; port = 0; is_available = true };
  next_struct = 7;
  socket_pool = (5, 5) ∷ (6, 6) ∷ [];
  connected = (5, 5) ∷ (6, 6) ∷ [];
  recv_queue = [];
  send_queue = [];
  recv_total_packet = 0;
  send_total_packet = 0;
  enter_user_count = 0;
  exit_user_count = 0;
  listen_socket = 4;
  iocp = true;
  send_thread = true;
  time_thread = true;
  work_threads = 1;
  is_exit = false;
  calls = [];
}
