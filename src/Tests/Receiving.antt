-- ===== src/Tests/Receiving.antt =====
-- Runs of the receiving side.
use dhserver.Base.{ℕ, ◌≡◌, refl, List, [], ◌∷◌, arith, replicate, length-replicate}
use dhserver.Base.Outcome.{done}
use dhserver.Shared.{Overlapped, overlapped_bufize}
use dhserver.Shared.Bytes.{read_le, write_le}
use dhserver.Shared.Packet.{Packet, encode, IsSendable}
use dhserver.Shared.Reassembly.{front, cut}
use dhserver.Server.{Server}
use dhserver.Server.Recv.{recv_loop}
use dhserver.Server.Recv.Buffer.{IsValid, unprocessed}
use dhserver.Server.Recv.Loop.{absorb, conclude, recv_loop-cut}
use dhserver.Receiver.{messages}
use dhserver.Server.Recv.Deliveries.{transfer, Delivered}
use dhserver.Server.Recv.Transfers.{transfer-Delivered}
use dhserver.Tests.{all_ok, listening, listening-IsValid, serving}

-- A packet with the type 1 and the body 7.
abbrev seven : Packet
seven = record { kind = 1; body = 7 ∷ [] }

seven-IsSendable : IsSendable seven
seven-IsSendable = record {
  has_kind = omega arith;
  kind_fits = omega arith;
  size_fits = omega arith;
}

-- Its bytes in two transfers, cut within the size.
abbrev halves : List (List ℕ)
halves = (1 ∷ 0 ∷ 0 ∷ []) ∷ (0 ∷ 0 ∷ 0 ∷ 0 ∷ 0 ∷ 1 ∷ 0 ∷ 7 ∷ []) ∷ []

-- The overlapped with the whole packet at the front of its buffer.
abbrev pub loaded : Overlapped
loaded = record listening {
  processing_packet_buffer = 1 ∷ 0 ∷ 0 ∷ 0 ∷ 0 ∷ 0 ∷ 0 ∷ 0 ∷ 1 ∷ 0 ∷ 7 ∷ replicate 20469 0;
  processed_packet_size = 11;
}

pub loaded-IsValid : IsValid loaded
loaded-IsValid = record {
  buffer_size = length-replicate overlapped_bufize 0;
  processing_size = omega (arith, length-replicate {A = ℕ} 20469 0);
  processed_in = omega arith;
}

recv_loop-cut_example :
    let c = cut 12 (unprocessed loaded) in
    (o' : Overlapped) × IsValid o'
    × (unprocessed o' ≡ c.rest)
    × (o'.socket ≡ 5)
    × (recv_loop 12 all_ok (absorb serving 0 [] loaded) 5 0
        ≡ conclude all_ok c.verdict (absorb serving 0 (messages 5 c.packets) o') 5 0)
recv_loop-cut_example = recv_loop-cut all_ok serving 5 0 12 [] loaded loaded-IsValid (omega arith)

transfer-Delivered_example :
    let c = cut 12 (encode seven) in
    (s' : Server) × (transfer all_ok serving 5 0 (encode seven) ≡ done s')
    × Delivered serving 5 0 c.packets c.rest s'
unfolding write_le cut front read_le
transfer-Delivered_example =
    transfer-Delivered all_ok serving 5 0 (encode seven) (omega arith) listening-IsValid
      (omega arith) (λ h socket op n. refl) (omega arith) refl
