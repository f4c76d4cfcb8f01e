-- ===== src/Tests/Wire.antt =====
-- A run from the send queue of one server to the receive queue of another.
use dhserver.Base.{◌≡◌, ◌++◌, refl, sym, [], ◌∷◌, lookup, arith}
use dhserver.Base.Outcome.{done}
use dhserver.Shared.Bytes.{write_le}
use dhserver.Shared.Packet.{Packet, stream, IsSendable}
use dhserver.Server.{Server}
use dhserver.Server.Send.{send_thread_pass}
use dhserver.Sender.{sent}
use dhserver.Server.Send.Streams.{entries, send_thread_pass_streams, sent_then-Received}
use dhserver.Server.Recv.Stream.{transfers, Received}
use dhserver.Tests.{all_ok, listening-IsValid, serving}

abbrev pub seven : Packet
seven = record { kind = 1; body = 7 ∷ [] }

pub seven-IsSendable : IsSendable seven
seven-IsSendable = record {
  has_kind = omega arith;
  kind_fits = omega arith;
  size_fits = omega arith;
}

-- A server with the packet in its send queue, for the client on socket 5.
abbrev pub sender : Server
sender = record serving { send_queue = entries 5 (seven ∷ []) }

-- The same pass, for the run to the other end.
pub passes :
    (s' : Server) × (send_thread_pass all_ok sender ≡ done s')
    × (sent 5 s'.calls ≡ sent 5 [] ++ stream (seven ∷ []))
    × (s'.connected ≡ serving.connected)
unfolding lookup
passes =
    send_thread_pass_streams all_ok 5 (λ h socket op bytes. refl) sender (seven ∷ []) 5
      (omega arith) (seven-IsSendable, tt) refl refl

sent_then-Received_example :
    (r' : Server) × (transfers all_ok serving 5 0
        ((1 ∷ 0 ∷ 0 ∷ []) ∷ (0 ∷ 0 ∷ 0 ∷ 0 ∷ 0 ∷ 1 ∷ 0 ∷ 7 ∷ []) ∷ [])
      ≡ done r')
    × Received serving 5 0 (seven ∷ []) r'
unfolding lookup sent write_le
sent_then-Received_example =
    sent_then-Received all_ok 5 (λ h socket op bytes. refl) sender passes.0 (seven ∷ []) 5 all_ok
      serving 5 0 ((1 ∷ 0 ∷ 0 ∷ []) ∷ (0 ∷ 0 ∷ 0 ∷ 0 ∷ 0 ∷ 1 ∷ 0 ∷ 7 ∷ []) ∷ []) (omega arith)
      (seven-IsSendable, tt) (omega arith, tt) refl refl refl passes.1 (λ h socket op n. refl)
      listening-IsValid refl (omega arith, omega arith, (omega arith, omega arith, tt))
      (sym passes.2)
