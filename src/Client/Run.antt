-- ===== src/Client/Run.antt =====
-- DHClient.cpp: ConnectSendThread and WorkThread.
use dhserver.Base.{
  ℕ, zero, suc, Bool, true, false, List, Option, none, some, ◌==◌, if◌then◌else◌, ◌||◌,
}
use dhserver.Base.Outcome.{Outcome, done, spin, fault, ◌>>=◌}
use dhserver.Shared.{IoType, invalid_socket}
use dhserver.Server.{Os, Call}
use dhserver.Server.Work.{Entry, Next, go_on, stop}
use dhserver.Client.{Client, overlapped, emit, reset, socket_of, safe_close_socket, close_reset}
use dhserver.Client.Recv.{reserve_wsa_receive, io_recv}
use dhserver.Client.Send.{send_function, io_send}

-- What connect comes to: a connection, WSAECONNREFUSED, or another error. It may depend on all the
-- calls before it, newest first.
pub data Connection : Type 0 where
  accepted refused broken : Connection

-- The inner loop of ConnectSendThread, on fuel: it tries again as long as the server refuses.
unfoldable pub try_connect : ℕ → (List Call → Connection) → Client → ℕ → Outcome Client
try_connect zero connects c socket = spin
try_connect (suc fuel) connects c socket =
    let refused_once = emit c (Call.failed (Call.connect socket)) in
    elim c.is_exit [
      | true ↦ done c
      | false ↦ elim (connects c.calls) [
        | accepted ↦ done (emit c (Call.connect socket))
        | refused ↦ try_connect fuel connects refused_once socket
        | broken ↦ safe_close_socket refused_once
      ]
    ]

-- The first receive of a connection.
unfoldable pub first_receive : Os → Client → ℕ → Outcome Client
first_receive os c socket = reserve_wsa_receive os c socket none >>= λ (posted, c1). elim posted [
  | true ↦ done (record c1 { is_server_connect_success = true })
  | false ↦ safe_close_socket c1
]

-- ConnectSendThread behind its inner loop: the socket goes to the completion port, with the key 1.
unfoldable pub register_connection : Os → Client → Outcome Client
unfolding first_receive
register_connection os c = socket_of c >>= λ k.
    if c.is_exit || (k == invalid_socket)
    then done c
    else let call = Call.associate k 1 in
      if os.pending c.calls call
      then first_receive os (emit c call) k
      else safe_close_socket (emit c (Call.failed call))

-- ConnectSendThread with a socket, and a new socket where it has none; `false` tells that none
-- could be made, and that the thread ends.
unfoldable pub new_socket : Os → Client → Outcome (Bool × Client)
new_socket os c = elim c.server_socket [
  | none ↦ fault
  | some x ↦
      if x.socket == invalid_socket
      then done (
        if os.new_socket c.calls == invalid_socket then false else true,
        record c { server_socket = some (record x { socket = os.new_socket c.calls }) },
      )
      else done (true, c)
]

-- A round of ConnectSendThread: it sends where it is connected, and connects where it is not. The
-- result tells whether the thread goes on.
unfoldable pub connect_send_round :
    ℕ → Os → (List Call → Connection) → Client → Outcome (Bool × Client)
unfolding try_connect register_connection new_socket
connect_send_round fuel os connects c =
    if c.is_exit
    then done (false, c)
    else if c.is_server_connect_success
    then (send_function os c >>= λ c1. done (true, c1))
    else (new_socket os c >>= λ (made, c1). elim made [
      | false ↦ done (false, c1)
      | true ↦ socket_of c1 >>= λ k. try_connect fuel connects c1 k >>= λ c2.
          register_connection os c2 >>= λ c3. done (true, c3)
    ])

-- The switch of WorkThread; an overlapped of another kind is left alone.
unfoldable pub work_io : Os → Client → ℕ → ℕ → IoType → Outcome Client
work_io os c bytes op IoType.recv = io_recv os c bytes op
work_io os c bytes op IoType.send = done (io_send c op)
work_io os c bytes op _ = done c

-- An entry without bytes: the connection is closed if shutdown succeeds.
unfoldable pub work_closed : Os → Client → ℕ → Outcome Client
work_closed os c op =
    let call = Call.shutdown (overlapped c op).socket in
    if os.pending c.calls call
    then close_reset (emit c call) op
    else done (reset (emit c (Call.failed call)) op)

-- An entry of WorkThread that has a key.
unfoldable pub work_key : Os → Client → Option ℕ → ℕ → Outcome Client
unfolding work_io work_closed
work_key os c none bytes = if bytes == 0 then fault else done c
work_key os c (some op) bytes =
    if bytes == 0 then work_closed os c op else work_io os c bytes op (overlapped c op).io_type

-- One entry of WorkThread. Without a key the thread posts the end to the next thread and returns.
unfoldable pub work_entry : Os → Client → Entry → Outcome (Next × Client)
unfolding work_key
work_entry os c e = elim e.key [
  | none ↦ done (stop, emit c Call.post_exit)
  | some key ↦ work_key os c e.overlapped e.bytes >>= λ c1. done (go_on, c1)
]

-- WorkThread where GetQueuedCompletionStatusEx fails.
unfoldable pub work_failed : Client → Outcome Client
work_failed c = safe_close_socket c >>= λ c1. done (record c1 { is_server_connect_success = false })
