-- ===== src/Client/Send.antt =====
-- DHClient.cpp: SendFunction and IOFunction_Send. The blocks of a packet are those of the server's
-- code, word for word.
pub mod Blocks
pub mod Streams
use dhserver.Base.{ℕ, zero, suc, ◌+◌, ◌-◌, true, false, List, [], ◌∷◌, take, ◌==◌}
use dhserver.Base.Outcome.{Outcome, done, spin, ◌>>=◌}
use dhserver.Shared.{invalid_socket}
use dhserver.ObjectPool.{get_object}
use dhserver.Server.{Os, Call, overlapped_object}
use dhserver.Server.Send.{total_size, block_size, fill}
use dhserver.Client.{Client, overlapped, set_overlapped, emit, reset, socket_of, close_reset}

-- The sending loop of a packet, on fuel: `total` bytes are left, the next block is `offset`. A
-- failed WSASend closes the connection and ends the loop.
unfoldable pub send_blocks : ℕ → Os → Client → List ℕ → ℕ → ℕ → Outcome Client
unfolding socket_of
send_blocks zero os c packet offset total = spin
send_blocks (suc fuel) os c packet offset total = elim (total == 0) [
  | true ↦ done c
  | false ↦ get_object overlapped_object c.overlapped_pool >>= λ (op, q). socket_of c >>= λ socket.
      let c1 = record c { overlapped_pool = q } in
      let o = fill (overlapped c1 op) socket packet offset (block_size total) in
      let c2 = set_overlapped c1 op o in
      let call = Call.wsa_send socket op (take o.wsabuf_len o.buffer) in
      elim (os.pending c2.calls call) [
        | true ↦ send_blocks fuel os (emit c2 call) packet (offset + 1) (total - block_size total)
        | false ↦ close_reset (emit c2 (Call.failed call)) op
      ]
]

-- The loop over Send_Data_Queue; it ends where the socket is closed, and leaves the rest queued.
unfoldable pub send_queued : Os → List (List ℕ) → Client → Outcome Client
unfolding send_blocks
send_queued os [] c = done c
send_queued os (packet ∷ packets) c = socket_of c >>= λ k. elim (k == invalid_socket) [
  | true ↦ done c
  | false ↦
      send_blocks (suc (total_size packet)) os (record c { send_queue = packets }) packet 0
        (total_size packet)
      >>= λ c1. send_queued os packets c1
]

-- SendFunction
unfoldable pub send_function : Os → Client → Outcome Client
unfolding send_queued
send_function os c = send_queued os c.send_queue c

-- IOFunction_Send
unfoldable pub io_send : Client → ℕ → Client
io_send c op = reset c op
