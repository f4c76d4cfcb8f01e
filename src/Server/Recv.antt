-- ===== src/Server/Recv.antt =====
-- DHServer.cpp, the receiving side: Reserve_WSAReceive, BackUp_Overlapped, Push_RecvData,
-- IOFunction_Recv and Recv.
pub mod Buffer
pub mod Loop
pub mod Deliveries
pub mod Transfers
pub mod Stream
pub mod Keeps
use dhserver.Base.{
  ℕ, zero, suc, ◌+◌, ◌-◌, ◌%◌, ◌^◌, Bool, true, false, List, [], ◌∷◌, ◌++◌, Option, none, some,
  take, drop, length, ltb, leb, ◌==◌, if◌then◌else◌,
}
use dhserver.Base.Outcome.{Outcome, done, spin, fault, ◌>>=◌}
use dhserver.Shared.{
  IoType, Overlapped, Message, max_packet_size, overlapped_bufize, packet_header_size, add_size,
  packet_type_none, dhdebug_simple, add_int, logic_success, logic_fail,
}
use dhserver.Shared.Bytes.{read_le, memcpy_s}
use dhserver.ObjectPool.{get_object}
use dhserver.Server.{Server, Os, Call, overlapped, set_overlapped, emit, answer, overlapped_object}
use dhserver.Server.Sockets.{end_client_reset}

-- size_t subtraction
abbrev pub sub_size : ℕ → ℕ → ℕ
sub_size a b = (a + 2 ^ 64 - b) % 2 ^ 64

-- The overlapped that Reserve_WSAReceive works on: the given one, or one of the pool.
unfoldable pub receive_overlapped : Server → Option ℕ → Outcome (ℕ × Server)
receive_overlapped s (some op) = done (op, s)
receive_overlapped s none = do
  (op, q) ← get_object overlapped_object s.overlapped_pool
  done (op, record s { overlapped_pool = q })

-- Reserve_WSAReceive
unfoldable pub reserve_wsa_receive : Os → Server → ℕ → Option ℕ → Outcome (Bool × Server)
unfolding receive_overlapped
reserve_wsa_receive os s socket given = do
  (op, s1) ← receive_overlapped s given
  let o = overlapped s1 op
  let s2 =
      set_overlapped s1 op
        (record o { io_type = IoType.recv; socket = socket; wsabuf_len = overlapped_bufize })
  let c = Call.wsa_recv socket op overlapped_bufize
  done (os.pending s2.calls c, emit s2 (answer (os.pending s2.calls c) c))

-- The copy of BackUp_Overlapped: the new bytes go behind those that wait in the buffer.
unfoldable pub append_received : Overlapped → Overlapped
append_received o = record o {
  processing_packet_buffer =
      take o.processed_packet_size o.processing_packet_buffer
      ++ memcpy_s (drop o.processed_packet_size o.processing_packet_buffer)
          (sub_size max_packet_size o.processed_packet_size) o.buffer o.data_size;
  processed_packet_size = add_size o.processed_packet_size o.data_size;
}

-- BackUp_Overlapped, as built with NDEBUG; `none` is the refusal.
unfoldable pub back_up_overlapped : Overlapped → Option Overlapped
unfolding append_received
back_up_overlapped o =
    if ltb max_packet_size (add_size o.processed_packet_size o.data_size)
    then none
    else some (append_received o)

-- The last part of Push_RecvData: the buffer moves up by a packet's size. The two regions of the
-- copy overlap; it is taken to move the bytes.
unfoldable pub pull : Overlapped → ℕ → Overlapped
pull o size = record o {
  processing_packet_buffer =
      memcpy_s o.processing_packet_buffer max_packet_size (drop size o.processing_packet_buffer)
        (sub_size max_packet_size size);
  processed_packet_size = sub_size o.processed_packet_size size;
}

-- Push_RecvData. `packet` is the block that was allocated; to read its type behind the block is
-- a fault.
unfoldable pub push_recv_data : Os → Server → List ℕ → ℕ → ℕ → ℕ → Outcome (Bool × Server)
push_recv_data os s packet sp op size =
    if ltb (length packet) packet_header_size
    then fault
    else if read_le 2 (drop 8 packet) == packet_type_none
    then (end_client_reset os s (s.structs sp).socket op >>= λ s1. done (false, s1))
    else done (
      true,
      set_overlapped
          (record s {
            recv_queue =
                s.recv_queue ++ record { socket = (s.structs sp).socket; packet = packet } ∷ [];
          })
          op (pull (overlapped s op) size),
    )

-- What the receive loop finds at the head of the buffer: not yet a whole packet, or one with its
-- size.
pub data Head : Type 0 where
  waiting : Head
  complete : ℕ → Head

-- The tests of a round of the loop; `>` on size_t.
unfoldable pub head : Overlapped → Head
head o =
    if o.processed_packet_size == 0
    then waiting
    else if ltb o.processed_packet_size packet_header_size
    then waiting
    else let total = add_size packet_header_size (read_le 8 o.processing_packet_buffer) in
      if ltb o.processed_packet_size total then waiting else complete total

-- The receive loop on fuel; the result tells whether it ended by its tests.
unfoldable pub recv_loop : ℕ → Os → Server → ℕ → ℕ → Outcome (Bool × Server)
recv_loop zero os s sp op = spin
recv_loop (suc fuel) os s sp op = elim (head (overlapped s op)) [
  | waiting ↦ done (true, s)
  | complete total ↦
      push_recv_data os s (take total (overlapped s op).processing_packet_buffer) sp op total
      >>= λ (more, s1). elim more [ true ↦ recv_loop fuel os s1 sp op | false ↦ done (false, s1) ]
]

-- The end of IOFunction_Recv, and its branch for no data: the receive is posted again.
unfoldable pub receive_again : Os → Server → ℕ → ℕ → Outcome Server
unfolding reserve_wsa_receive
receive_again os s sp op = do
  (posted, s1) ← reserve_wsa_receive os s (overlapped s op).socket (some op)
  if posted then done s1 else end_client_reset os s1 (s1.structs sp).socket op

-- IOFunction_Recv behind BackUp_Overlapped.
unfoldable pub process : Os → Server → ℕ → ℕ → Outcome Server
process os s sp op = do
  (more, s1) ← recv_loop (suc (overlapped s op).processed_packet_size) os s sp op
  if more then receive_again os s1 sp op else done s1

-- The counter of received bytes.
unfoldable pub count_received : Server → ℕ → Server
count_received s bytes =
    if s.debug_option == dhdebug_simple
    then record s { recv_total_packet = add_int s.recv_total_packet bytes }
    else s

-- IOFunction_Recv from BackUp_Overlapped on; `o` is the overlapped with the size of the transfer.
unfoldable pub take_received : Os → Server → Overlapped → ℕ → ℕ → Outcome Server
take_received os s o op sp = elim (back_up_overlapped o) [
  | none ↦ end_client_reset os (set_overlapped s op o) (s.structs sp).socket op
  | some o' ↦ process os (set_overlapped s op o') sp op
]

-- IOFunction_Recv. The received bytes are in the overlapped's buffer.
unfoldable pub io_recv : Os → Server → ℕ → ℕ → ℕ → Outcome Server
unfolding count_received take_received
io_recv os s bytes op sp =
    if bytes == 0
    then receive_again os s sp op
    else let s1 = count_received s bytes in
      take_received os s1 (record (overlapped s1 op) { data_size = bytes }) op sp

-- Recv: the loop pops every message; the vector is given in the order of the pushes.
unfoldable pub recv_drain : List Message → List Message → List Message
recv_drain [] out = out
recv_drain (m ∷ queue) out = recv_drain queue (out ++ m ∷ [])

unfoldable pub recv : Server → List Message → ℕ × List Message × Server
unfolding recv_drain
recv s out = elim s.recv_queue [
  | [] ↦ (logic_fail, out, s)
  | m ∷ queue ↦ (logic_success, recv_drain (m ∷ queue) out, record s { recv_queue = [] })
]
