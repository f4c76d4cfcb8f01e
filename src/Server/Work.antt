-- ===== src/Server/Work.antt =====
-- DHServer.cpp: WorkThread, what it does with the entries that it takes from the completion port.
pub mod Keeps
pub mod Capacity
pub mod Tabled
pub mod Ending
pub mod Overflow
pub mod Race
pub mod Late
use dhserver.Base.{
  ℕ, Bool, true, false, List, [], ◌∷◌, Option, none, some, update, ◌==◌, if◌then◌else◌,
}
use dhserver.Base.Outcome.{Outcome, done, fault, ◌>>=◌}
use dhserver.Shared.{IoType, SocketStruct}
use dhserver.Server.{Server, Os, Call, overlapped, emit}
use dhserver.Server.Sockets.{reset, end_client_reset}
use dhserver.Server.Recv.{io_recv}
use dhserver.Server.Io.{io_send, io_accept, io_disconnect}

-- OVERLAPPED_ENTRY: the overlapped, the completion key and the count of bytes. A null pointer is
-- `none`.
pub record Entry : Type 0 where
  pub overlapped : Option ℕ
  pub key : Option ℕ
  pub bytes : ℕ

-- Whether the thread goes on with the next entry or ends.
pub data Next : Type 0 where
  go_on stop : Next

-- The switch on the kind of a transfer, for a socket that is available.
unfoldable pub transfer : Os → Server → ℕ → ℕ → ℕ → IoType → Outcome Server
transfer os s op sp bytes IoType.recv = io_recv os s bytes op sp
transfer os s op sp bytes IoType.send = done (io_send s bytes op)
transfer os s op sp bytes _ = done (reset s op)

-- An entry that is neither an accept nor a disconnect, with its key.
unfoldable pub work_transfer : Os → Server → ℕ → ℕ → ℕ → Outcome Server
unfolding transfer
work_transfer os s op sp bytes =
    if bytes == 0
    then end_client_reset os s (s.structs sp).socket op
    else if (s.structs sp).is_available
    then transfer os s op sp bytes (overlapped s op).io_type
    else done (reset s op)

-- The end of a disconnect: the structure of the key is made available.
unfoldable pub make_available : Server → Option ℕ → Outcome Server
make_available s none = fault
make_available s (some sp) =
    done
      (record s { structs = update s.structs sp (record (s.structs sp) { is_available = true }) })

-- An entry that is neither an accept nor a disconnect; without a key it is passed over.
unfoldable pub work_key : Os → Server → ℕ → Option ℕ → ℕ → Outcome Server
unfolding work_transfer
work_key os s op none bytes = done s
work_key os s op (some sp) bytes = work_transfer os s op sp bytes

-- The first switch of the loop, on the kind of the overlapped.
unfoldable pub work_io : Os → Server → ℕ → Option ℕ → ℕ → IoType → Outcome Server
unfolding make_available work_key
work_io os s op key bytes IoType.disconnect = make_available (io_disconnect os s op) key
work_io os s op key bytes IoType.accept = io_accept os s op
work_io os s op key bytes _ = work_key os s op key bytes

-- One entry. Without an overlapped the thread posts the end to the next thread and returns. Left out
-- is the `delete[]` of the array of entries before that, which lies on the stack and was not made by
-- `new`: what follows from it is undefined.
unfoldable pub work_entry : Os → Server → Entry → Outcome (Next × Server)
unfolding work_io
work_entry os s e = elim e.overlapped [
  | none ↦ done (stop, emit s Call.post_exit)
  | some op ↦ work_io os s op e.key e.bytes (overlapped s op).io_type >>= λ s1. done (go_on, s1)
]

-- The loop over the entries that one GetQueuedCompletionStatusEx has given.
unfoldable pub work_entries : Os → Server → List Entry → Outcome (Next × Server)
work_entries os s [] = done (go_on, s)
work_entries os s (e ∷ entries) = work_entry os s e >>= λ (next, s1). elim next [
  | stop ↦ done (stop, s1)
  | go_on ↦ work_entries os s1 entries
]
