-- ===== src/DhNetWork.antt =====
-- DHNetWork/DHNetWork/DHNetWork.h and DHNetWork.cpp: one object that becomes a server or a client by
-- the first call of Accept or Connect, and passes the later calls on.
pub mod Calls
pub mod Roles
pub mod Ended
use dhserver.Base.{ℕ, Bool, false, List, [], Option, none, some}
use dhserver.Base.Outcome.{Outcome, done, fault, ◌>>=◌}
use dhserver.Shared.{
  Overlapped, Message, new_socket_struct, invalid_socket, logic_success, logic_fail,
}
use dhserver.Server.{Server, Os}
use dhserver.Server.Send
use dhserver.Server.Recv
use dhserver.Server.Sockets
use dhserver.Server.Start
use dhserver.Server.Stop
use dhserver.Client.{Client}
use dhserver.Client

-- TYPE_NONSET, TYPE_DHSERVER, TYPE_DHCLIENT
pub data NetType : Type 0 where
  type_nonset type_dhserver type_dhclient : NetType

-- What a NetWorkBase* can point to.
pub data NetWork : Type 0 where
  is_server : Server → NetWork
  is_client : Client → NetWork

-- `net_work` is m_NetWork; `none` is the null pointer.
pub record DhNetWork : Type 0 where
  pub net_work : Option NetWork
  pub debug_option : ℕ
  pub current_type : NetType

-- DHNetWork::DHNetWork
unfoldable pub new_dh_net_work : DhNetWork
new_dh_net_work = record { net_work = none; debug_option = 0; current_type = type_nonset }

-- new DHServer(): the pools are made by Accept, over `memory`.
unfoldable pub new_server : (ℕ → Overlapped) → Server
new_server memory = record {
  max_user_count = 0;
  debug_option = 0;
  overlapped_pool = record {
    sample_obj_count = 0;
    all_object_list = [];
    available_obj = [];
    next = 0;
    mem = memory;
  };
  structs = λ p. new_socket_struct;
  next_struct = 1;
  socket_pool = [];
  connected = [];
  recv_queue = [];
  send_queue = [];
  recv_total_packet = 0;
  send_total_packet = 0;
  enter_user_count = 0;
  exit_user_count = 0;
  listen_socket = invalid_socket;
  iocp = false;
  send_thread = false;
  time_thread = false;
  work_threads = 0;
  is_exit = false;
  calls = [];
}

abbrev pub served : Outcome (ℕ × Server) → Outcome (ℕ × NetWork)
served m = m >>= λ (r, s). done (r, is_server s)

abbrev pub connected : Outcome (ℕ × Client) → Outcome (ℕ × NetWork)
connected m = m >>= λ (r, c). done (r, is_client c)

-- The virtual calls; Accept and Disconnect of a client and Connect of a server are those of
-- NetWorkBase.
unfoldable pub net_send : NetWork → List ℕ → ℕ → ℕ → Outcome (ℕ × NetWork)
net_send (is_server s) packet send_type socket = served (Send.send s packet send_type socket)
net_send (is_client c) packet send_type socket = connected (Client.send c packet send_type socket)

unfoldable pub net_connect : NetWork → ℕ → List ℕ → Outcome (ℕ × NetWork)
net_connect (is_server s) port ip = done (logic_fail, is_server s)
net_connect (is_client c) port ip = connected (done (Client.connect c port ip))

unfoldable pub net_accept :
    Os
    → ℕ
    → (ℕ → Overlapped)
    → NetWork
    → (max_user_count work_thread_count : ℕ) → Outcome (ℕ × NetWork)
net_accept os fuel memory (is_server s) users threads =
    served (Start.accept os fuel memory s users threads)
net_accept os fuel memory (is_client c) users threads = done (logic_fail, is_client c)

unfoldable pub net_disconnect : Os → NetWork → ℕ → Outcome (ℕ × NetWork)
net_disconnect os (is_server s) socket = served (Sockets.disconnect os s socket)
net_disconnect os (is_client c) socket = done (logic_fail, is_client c)

unfoldable pub net_recv : NetWork → List Message → ℕ × List Message × NetWork
net_recv (is_server s) out = let (r, o, s1) = Recv.recv s out in (r, o, is_server s1)
net_recv (is_client c) out = let (r, o, c1) = Client.recv c out in (r, o, is_client c1)

unfoldable pub net_end : NetWork → Outcome (ℕ × NetWork)
net_end (is_server s) = served (Stop.end s)
net_end (is_client c) = connected (Client.end c)

-- A call through m_NetWork; a null pointer is a fault.
unfoldable pub through : DhNetWork → (NetWork → Outcome (ℕ × NetWork)) → Outcome (ℕ × DhNetWork)
through f call = elim f.net_work [
  | none ↦ fault
  | some n ↦ call n >>= λ (r, n1). done (r, record f { net_work = some n1 })
]

-- Initialize
unfoldable pub initialize : DhNetWork → ℕ → ℕ × DhNetWork
initialize f option = (logic_success, record f { debug_option = option })

-- Send
unfoldable pub send : DhNetWork → List ℕ → ℕ → ℕ → Outcome (ℕ × DhNetWork)
unfolding through net_send
send f packet send_type socket = elim f.current_type [
  | type_nonset ↦ done (logic_fail, f)
  | _ ↦ through f (λ n. net_send n packet send_type socket)
]

-- Connect
unfoldable pub connect : (ℕ → Overlapped) → DhNetWork → ℕ → List ℕ → Outcome (ℕ × DhNetWork)
unfolding through net_connect
connect memory f port ip = elim f.current_type [
  | type_dhserver ↦ done (logic_fail, f)
  | type_nonset ↦
      through
        (record f {
          current_type = type_dhclient;
          net_work = some (is_client (Client.set_debug (Client.new_client memory) f.debug_option));
        })
        (λ n. net_connect n port ip)
  | type_dhclient ↦ through f (λ n. net_connect n port ip)
]

-- Accept
unfoldable pub accept :
    Os
    → ℕ
    → (ℕ → Overlapped)
    → DhNetWork
    → (max_user_count work_thread_count : ℕ) → Outcome (ℕ × DhNetWork)
unfolding through net_accept new_server
accept os fuel memory f users threads = elim f.current_type [
  | type_dhclient ↦ done (logic_fail, f)
  | type_nonset ↦
      through
        (record f {
          current_type = type_dhserver;
          net_work = some (is_server (Start.set_debug (new_server memory) f.debug_option));
        })
        (λ n. net_accept os fuel memory n users threads)
  | type_dhserver ↦ through f (λ n. net_accept os fuel memory n users threads)
]

-- Disconnect
unfoldable pub disconnect : Os → DhNetWork → ℕ → Outcome (ℕ × DhNetWork)
unfolding through net_disconnect
disconnect os f socket = elim f.current_type [
  | type_dhserver ↦ through f (λ n. net_disconnect os n socket)
  | _ ↦ done (logic_fail, f)
]

-- Recv
unfoldable pub recv : DhNetWork → List Message → Outcome (ℕ × List Message × DhNetWork)
unfolding net_recv
recv f out = elim f.current_type [
  | type_nonset ↦ done (logic_fail, out, f)
  | _ ↦ elim f.net_work [
    | none ↦ fault
    | some n ↦ let (r, o, n1) = net_recv n out in done (r, o, record f { net_work = some n1 })
  ]
]

-- End. The destructor of the deleted object calls End once more, which then does nothing.
unfoldable pub end : DhNetWork → Outcome (ℕ × DhNetWork)
unfolding net_end
end f = elim f.net_work [
  | none ↦ done (1, f)
  | some n ↦ net_end n >>= λ (r, n1). done (r, record f { net_work = none })
]
