-- ===== src/Server/Send.antt =====
-- DHServer.cpp, the sending side: Send, BroadCastMessage, Target_Message, Except_Target_Message
-- and SendThread.
pub mod Audience
pub mod Blocks
pub mod Streams
use dhserver.Base.{
  ℕ, zero, suc, ◌+◌, ◌-◌, ◌*◌, Bool, true, false, List, [], ◌∷◌, ◌++◌, Option, none, some, take,
  drop, length, lookup, ltb, leb, ◌==◌, if◌then◌else◌,
}
use dhserver.Base.Outcome.{Outcome, done, spin, fault, ◌>>=◌}
use dhserver.Shared.{
  IoType, Overlapped, overlapped_bufize, packet_header_size, add_size, packet_type_none,
  logic_success, logic_fail, send_type_broadcast, send_type_target, send_type_except_target,
}
use dhserver.Shared.Bytes.{read_le, memcpy_s}
use dhserver.ObjectPool.{get_object}
use dhserver.Server.{Server, Os, Call, overlapped, set_overlapped, emit, overlapped_object}
use dhserver.Server.Sockets.{reset}

-- Send_Packet_Total_Size, at the memory that the packet pointer points to.
unfoldable pub total_size : List ℕ → ℕ
total_size packet = add_size packet_header_size (read_le 8 packet)

-- malloc and memcpy_s of a whole packet; to copy behind the caller's memory is a fault.
unfoldable pub copy_packet : List ℕ → Outcome (List ℕ)
unfolding total_size
copy_packet packet =
    if ltb (length packet) (total_size packet)
    then fault
    else done (take (total_size packet) packet)

unfoldable pub push_send : Server → ℕ → List ℕ → Server
push_send s socket packet = record s { send_queue = s.send_queue ++ (socket, packet) ∷ [] }

-- The loop of BroadCastMessage over the entries of g_Connected_Client; the result is the count of
-- copies.
unfoldable pub broadcast_loop : List (ℕ × ℕ) → List ℕ → ℕ → Server → Outcome (ℕ × Server)
unfolding push_send
broadcast_loop [] packet count s = done (count, s)
broadcast_loop ((socket, p) ∷ clients) packet count s = copy_packet packet >>= λ copy.
    elim (lookup socket s.connected) [
      | none ↦ done (logic_fail, s)
      | some q ↦ broadcast_loop clients packet (count + 1) (push_send s socket copy)
    ]

-- BroadCastMessage
unfoldable pub broad_cast_message : Server → List ℕ → Outcome (ℕ × Server)
broad_cast_message s packet = broadcast_loop s.connected packet 0 s

-- Target_Message
unfoldable pub target_message : Server → ℕ → List ℕ → Outcome (ℕ × Server)
unfolding push_send
target_message s target packet = copy_packet packet >>= λ copy. elim (lookup target s.connected) [
  | none ↦ done (logic_fail, s)
  | some p ↦ done (logic_success, push_send s (s.structs p).socket copy)
]

-- The loop of Except_Target_Message.
unfoldable pub except_loop : List (ℕ × ℕ) → ℕ → List ℕ → ℕ → Server → Outcome (ℕ × Server)
unfolding push_send
except_loop [] target packet count s = done (count, s)
except_loop ((socket, p) ∷ clients) target packet count s = elim (lookup socket s.connected) [
  | none ↦ done (logic_fail, s)
  | some q ↦ elim (socket == target) [
    | true ↦ except_loop clients target packet count s
    | false ↦ copy_packet packet >>= λ copy.
        except_loop clients target packet (count + 1) (push_send s socket copy)
  ]
]

-- Except_Target_Message
unfoldable pub except_target_message : Server → ℕ → List ℕ → Outcome (ℕ × Server)
except_target_message s target packet = except_loop s.connected target packet 0 s

-- Send; to read the type behind the caller's memory is a fault.
unfoldable pub send : Server → List ℕ → ℕ → ℕ → Outcome (ℕ × Server)
send s packet send_type socket =
    if ltb (length packet) packet_header_size
    then fault
    else if read_le 2 (drop 8 packet) == packet_type_none
    then done (logic_fail, s)
    else if send_type == send_type_broadcast
    then broad_cast_message s packet
    else if send_type == send_type_target
    then target_message s socket packet
    else if send_type == send_type_except_target
    then except_target_message s socket packet
    else done (logic_fail, s)

-- The bytes of a round of the sending loop: `size` of them from block `offset` on.
unfoldable pub block : List ℕ → ℕ → ℕ → List ℕ
block packet offset size = take size (drop (offset * overlapped_bufize) packet)

-- A round's share of what is left to send.
unfoldable pub block_size : ℕ → ℕ
block_size total = if leb overlapped_bufize total then overlapped_bufize else total

-- The overlapped of a round: its buffer holds the block.
unfoldable pub fill : Overlapped → ℕ → List ℕ → ℕ → ℕ → Overlapped
unfolding block
fill o socket packet offset size = record o {
  io_type = IoType.send;
  socket = socket;
  data_size = size;
  buffer = memcpy_s o.buffer overlapped_bufize (block packet offset size) size;
  wsabuf_len = size;
}

-- The sending loop of SendThread for a packet, on fuel: `total` bytes are left, the next block is
-- `offset`. A failed WSASend gives the overlapped back and ends the loop.
unfoldable pub send_blocks : ℕ → Os → Server → ℕ → List ℕ → ℕ → ℕ → Outcome Server
unfolding block_size fill
send_blocks zero os s socket packet offset total = spin
send_blocks (suc fuel) os s socket packet offset total = elim (total == 0) [
  | true ↦ done s
  | false ↦ get_object overlapped_object s.overlapped_pool >>= λ (op, q).
      let s1 = record s { overlapped_pool = q } in
      let o = fill (overlapped s1 op) socket packet offset (block_size total) in
      let s2 = set_overlapped s1 op o in
      let c = Call.wsa_send socket op (take o.wsabuf_len o.buffer) in
      elim (os.pending s2.calls c) [
        | true ↦
            send_blocks fuel os (emit s2 c) socket packet (offset + 1) (total - block_size total)
        | false ↦ done (reset (emit s2 (Call.failed c)) op)
      ]
]

-- SendThread, for one entry of the queue. The packet is dropped if the socket is not connected.
unfoldable pub send_one : Os → Server → ℕ × List ℕ → Outcome Server
send_one os s (socket, packet) = elim (lookup socket s.connected) [
  | none ↦ done s
  | some p ↦ send_blocks (suc (total_size packet)) os s socket packet 0 (total_size packet)
]

-- The inner loop of SendThread over the queue that it finds.
unfoldable pub send_all : Os → List (ℕ × List ℕ) → Server → Outcome Server
send_all os [] s = done s
send_all os (entry ∷ entries) s = send_one os s entry >>= λ s1. send_all os entries s1

-- SendThread between two calls of Sleep.
unfoldable pub send_thread_pass : Os → Server → Outcome Server
send_thread_pass os s = send_all os s.send_queue (record s { send_queue = [] })
