-- ===== src/Server/Start.antt =====
-- DHServer.cpp: SetDebug, Accept and CreateWorkThread.
pub mod Rounds
pub mod Tabled
use dhserver.Base.{
  ℕ, zero, suc, ◌+◌, ◌%◌, ◌^◌, Bool, true, false, not, List, [], ◌∷◌, update, lookup, Option, none,
  some, ltb, ◌==◌, if◌then◌else◌,
}
use dhserver.Base.Outcome.{Outcome, done, spin, fault, ◌>>=◌}
use dhserver.Shared.{
  IoType, Overlapped, SocketStruct, new_socket_struct, invalid_socket, server_overlapped_count,
  dhdebug_simple, logic_success, logic_fail,
}
use dhserver.ObjectPool.{ObjectPool, get_object, new_object_pool}
use dhserver.Server.{Server, Os, Call, overlapped, set_overlapped, emit, answer, overlapped_object}

-- SetDebug
unfoldable pub set_debug : Server → ℕ → Server
set_debug s option = record s { debug_option = option }

-- `insert` of a concurrent_hash_map keeps the entry that is there.
unfoldable pub insert_struct : ℕ → ℕ → List (ℕ × ℕ) → List (ℕ × ℕ)
insert_struct socket p m = elim (lookup socket m) [ none ↦ (socket, p) ∷ m | some q ↦ m ]

-- CreateIoCompletionPort for the call `c` returns g_IOCP. It returns the port that it was given, a
-- new one where it was given none, and null where it fails; g_IOCP is null where it was not made.
unfoldable pub returns_iocp : Os → Server → Call → Bool
returns_iocp os s c = if s.iocp then os.pending s.calls c else not (os.pending s.calls c)

-- A socket that is registered: its Socket_Struct is made and stands in g_Socket_Struct_Pool.
abbrev pub registered : Server → ℕ → Call → Server
registered s socket c =
    emit
      (record s {
        structs = update s.structs s.next_struct (record new_socket_struct { socket = socket });
        next_struct = s.next_struct + 1;
        socket_pool = insert_struct socket s.next_struct s.socket_pool;
      })
      c

-- The part of a round of Accept's loop that follows the AcceptEx: the Socket_Struct of the socket
-- goes to the completion port and into g_Socket_Struct_Pool. Where the answer is not g_IOCP, the
-- structure is deleted, and the insertion reads it. (The assertion before that is for debugging.)
unfoldable pub register_socket : Os → Server → ℕ → Outcome Server
unfolding returns_iocp
register_socket os s socket =
    let c = Call.associate socket s.next_struct in
    if returns_iocp os s c
    then done (registered s socket (answer (os.pending s.calls c) c))
    else fault

-- A round of the loop: a socket, an AcceptEx on it, and its Socket_Struct.
unfoldable pub open_socket : Os → Server → Outcome (Bool × Server)
unfolding register_socket
open_socket os s = get_object overlapped_object s.overlapped_pool >>= λ (op, q).
    let s1 = record s { overlapped_pool = q } in
    let socket = os.new_socket s1.calls in
    let s2 =
      set_overlapped s1 op
        (record (overlapped s1 op) { io_type = IoType.accept; socket = socket }) in
    if socket == invalid_socket
    then done (false, s2)
    else let c = Call.accept_ex socket op in
      if os.pending s2.calls c
      then (register_socket os (emit s2 c) socket >>= λ s3. done (true, s3))
      else done (false, emit s2 (Call.failed c))

-- `for (unsigned short i = 0; i < MAX_USER_COUNT + 10; i++)` on fuel: `i` wraps at 2 ^ 16, the
-- bound is an int.
unfoldable pub open_sockets : ℕ → Os → ℕ → Server → Outcome (Bool × Server)
open_sockets zero os i s = spin
open_sockets (suc fuel) os i s = elim (ltb i (s.max_user_count + 10)) [
  | false ↦ done (true, s)
  | true ↦ open_socket os s >>= λ (opened, s1). elim opened [
    | true ↦ open_sockets fuel os ((i + 1) % 2 ^ 16) s1
    | false ↦ done (false, s1)
  ]
]

-- While there is no completion port, a call creates it, which may fail, and the pool of overlapped
-- structures; `memory` is what lies in the memory that they are made in. (The assertion that the
-- port is there is for debugging.)
unfoldable pub create_iocp : Os → (ℕ → Overlapped) → Server → Server
create_iocp os memory s =
    let c = Call.create_iocp in
    let made = os.pending s.calls c in
    if s.iocp then s else record (emit s (answer made c)) {
      iocp = made;
      overlapped_pool = new_object_pool overlapped_object server_overlapped_count memory;
    }

-- The failure of bind or listen: the socket is closed and forgotten.
unfoldable pub close_listen : Server → ℕ × Server
close_listen s = (
  logic_fail,
  record (emit s (Call.closesocket s.listen_socket)) { listen_socket = invalid_socket },
)

-- The end of Accept: the thread for sending, and the one for the time.
unfoldable pub create_threads : Bool × Server → ℕ × Server
create_threads (false, s) = (logic_fail, s)
create_threads (true, s) = (
  logic_success,
  record s {
    send_thread = true;
    time_thread = if s.debug_option == dhdebug_simple then true else s.time_thread;
  },
)

-- Accept behind listen.
unfoldable pub start_listening : Os → ℕ → Server → ℕ → Outcome (ℕ × Server)
unfolding create_threads
start_listening os fuel s work_thread_count =
    open_sockets fuel os 0 (record s { work_threads = s.work_threads + work_thread_count }) >>= λ r.
    done (create_threads r)

-- Accept behind WSASocket: bind, listen.
unfoldable pub bind_and_listen : Os → ℕ → Server → ℕ → Outcome (ℕ × Server)
unfolding close_listen start_listening
bind_and_listen os fuel s work_thread_count =
    let b = Call.bind s.listen_socket in
    let s1 = emit s (answer (os.pending s.calls b) b) in
    if not (os.pending s.calls b)
    then done (close_listen s1)
    else let l = Call.listen s.listen_socket in
      let s2 = emit s1 (answer (os.pending s1.calls l) l) in
      if not (os.pending s1.calls l)
      then done (close_listen s2)
      else start_listening os fuel s2 work_thread_count

-- Accept. `fuel` bounds the rounds of its loop.
unfoldable pub accept :
    Os
    → ℕ
    → (ℕ → Overlapped)
    → Server
    → (max_user_count work_thread_count : ℕ) → Outcome (ℕ × Server)
unfolding create_iocp bind_and_listen
accept os fuel memory s max_user_count work_thread_count =
    let s1 = create_iocp os memory (record s { max_user_count = max_user_count }) in
    let socket = os.new_socket s1.calls in
    let s2 = record s1 { listen_socket = socket } in
    if socket == invalid_socket
    then done (logic_fail, s2)
    else let c = Call.associate socket 0 in
      bind_and_listen os fuel (emit s2 (answer (os.pending s2.calls c) c)) work_thread_count
