-- ===== src/Client/Recv.antt =====
-- DHClient.cpp, the receiving side: BackUp_Overlapped, Reserve_WSAReceive, Push_RecvData and
-- IOFunction_Recv. The moves within the buffer are those of the server's code, word for word.
pub mod Loop
pub mod Stream
use dhserver.Base.{
  ℕ, zero, suc, Bool, true, false, List, [], ◌∷◌, ◌++◌, Option, none, some, take, drop, length, ltb,
  ◌==◌, if◌then◌else◌,
}
use dhserver.Base.Outcome.{Outcome, done, spin, fault, ◌>>=◌}
use dhserver.Shared.{
  IoType, Overlapped, max_packet_size, overlapped_bufize, packet_header_size, add_size,
  packet_type_none,
}
use dhserver.Shared.Bytes.{read_le}
use dhserver.ObjectPool.{get_object}
use dhserver.Server.{Os, Call, overlapped_object}
use dhserver.Server.Recv.{waiting, complete, head, append_received, pull}
use dhserver.Client.{Client, overlapped, set_overlapped, emit, reset, socket_of, close_reset}

-- BackUp_Overlapped, as built with NDEBUG; `none` is the refusal.
unfoldable pub back_up_overlapped : Overlapped → Option Overlapped
back_up_overlapped o =
    if ltb max_packet_size (add_size o.processed_packet_size o.data_size)
    then none
    else some (append_received o)

-- WSARecv on an overlapped; where it fails, an overlapped that was got for it goes back.
unfoldable pub post_receive : Os → Client → ℕ → ℕ → Bool → Bool × Client
post_receive os c socket op recycled =
    let c1 = set_overlapped c op (record (overlapped c op) {
      io_type = IoType.recv;
      socket = socket;
      wsabuf_len = overlapped_bufize;
    }) in
    let call = Call.wsa_recv socket op overlapped_bufize in
    if os.pending c1.calls call
    then (true, emit c1 call)
    else let c2 = emit c1 (Call.failed call) in (false, if recycled then c2 else reset c2 op)

-- Reserve_WSAReceive
unfoldable pub reserve_wsa_receive : Os → Client → ℕ → Option ℕ → Outcome (Bool × Client)
unfolding post_receive
reserve_wsa_receive os c socket (some op) = done (post_receive os c socket op true)
reserve_wsa_receive os c socket none = get_object overlapped_object c.overlapped_pool >>= λ (op, q).
    done (post_receive os (record c { overlapped_pool = q }) socket op false)

-- Push_RecvData. `packet` is the block that was allocated; to read its type behind the block is a
-- fault.
unfoldable pub push_recv_data : Client → List ℕ → ℕ → ℕ → Outcome (Bool × Client)
push_recv_data c packet op size =
    if ltb (length packet) packet_header_size
    then fault
    else if read_le 2 (drop 8 packet) == packet_type_none
    then (close_reset c op >>= λ c1. done (false, c1))
    else (socket_of c >>= λ k. done (
      true,
      set_overlapped
          (record c { recv_queue = c.recv_queue ++ record { socket = k; packet = packet } ∷ [] }) op
          (pull (overlapped c op) size),
    ))

-- The receive loop on fuel; the result tells whether it ended by its tests.
unfoldable pub recv_loop : ℕ → Client → ℕ → Outcome (Bool × Client)
unfolding push_recv_data
recv_loop zero c op = spin
recv_loop (suc fuel) c op = elim (head (overlapped c op)) [
  | waiting ↦ done (true, c)
  | complete total ↦
      push_recv_data c (take total (overlapped c op).processing_packet_buffer) op total
      >>= λ (going, c1). elim going [ true ↦ recv_loop fuel c1 op | false ↦ done (false, c1) ]
]

-- The receive is posted again on the same overlapped, or the connection is closed.
unfoldable pub receive_again : Os → Client → ℕ → Outcome Client
unfolding reserve_wsa_receive
receive_again os c op =
    reserve_wsa_receive os c (overlapped c op).socket (some op) >>= λ (posted, c1). elim posted [
      | true ↦ done c1
      | false ↦ close_reset c1 op
    ]

-- IOFunction_Recv behind BackUp_Overlapped.
unfoldable pub process : Os → Client → ℕ → Outcome Client
unfolding recv_loop receive_again
process os c op = recv_loop (suc (overlapped c op).processed_packet_size) c op >>= λ (going, c1).
    elim going [ true ↦ receive_again os c1 op | false ↦ done c1 ]

-- IOFunction_Recv from BackUp_Overlapped on; `o` is the overlapped with the size of the transfer.
unfoldable pub take_received : Os → Client → Overlapped → ℕ → Outcome Client
take_received os c o op = elim (back_up_overlapped o) [
  | none ↦ close_reset (set_overlapped c op o) op
  | some o' ↦ process os (set_overlapped c op o') op
]

-- IOFunction_Recv. The received bytes are in the overlapped's buffer.
unfoldable pub io_recv : Os → Client → ℕ → ℕ → Outcome Client
unfolding take_received
io_recv os c bytes op =
    if bytes == 0
    then receive_again os c op
    else take_received os c (record (overlapped c op) { data_size = bytes }) op
