-- ===== src/Tests/Connecting.antt =====
-- Runs of the client, and of Reserve_WSAReceive on both sides.
use dhserver.Base.{Bool, true, false, [], some}
use dhserver.Base.Outcome.{Outcome, done}
use dhserver.Server.{Server, Os}
use dhserver.Client.{Client, running}
use dhserver.Tests.{all_ok, serving}

-- Windows refuses every call.
abbrev all_refused : Os
all_refused = record all_ok { pending = λ h c. false }

-- A client that is connected on socket 5.
abbrev pub connected : Client
connected = record {
  port = 729;
  ip = [];
  overlapped_pool = serving.overlapped_pool;
  server_socket = some (record { socket = 5; ip = []; port = 0; is_available = false });
  recv_queue = [];
  send_queue = [];
  connect_send_thread = running;
  work_threads = 1;
  is_server_connect_success = true;
  iocp = true;
  is_exit = false;
  debug_option = 0;
  calls = [];
}

abbrev client_of : Outcome (Bool × Client) → Client
client_of (done r) = r.1
client_of _ = connected

abbrev server_of : Outcome (Bool × Server) → Server
server_of (done r) = r.1
server_of _ = serving
