-- ===== src/Tests/Clients.antt =====
-- Runs of the client's receiving side.
use dhserver.Base.{◌++◌, ◌≡◌, refl, sym, [], ◌∷◌, arith, lookup}
use dhserver.Base.Outcome.{done}
use dhserver.Shared.Bytes.{write_le}
use dhserver.Shared.Packet.{encode, stream}
use dhserver.Server.{Server}
use dhserver.Server.Recv.Stream
use dhserver.Server.Recv.Stream.{Received}
use dhserver.Client.Send.{send_function}
use dhserver.Client.Send.Streams.{send_function_streams, function_then_server-Received}
use dhserver.Server.Recv.Buffer.{IsValid, unprocessed}
use dhserver.Sender.{sent}
use dhserver.Receiver.{messages}
use dhserver.Client.{Client, overlapped}
use dhserver.Client.Recv.Stream.{transfers, Same}
use dhserver.Client.Wire.{pass_then_client_received}
use dhserver.Tests.{all_ok, listening-IsValid, serving}
use dhserver.Tests.Connecting.{connected}
use dhserver.Tests.Wire.{seven, seven-IsSendable, sender, passes}

pass_then_client_received_example :
    (c' : Client) × (transfers all_ok 0 connected
        ((1 ∷ 0 ∷ 0 ∷ []) ∷ (0 ∷ 0 ∷ 0 ∷ 0 ∷ 0 ∷ 1 ∷ 0 ∷ 7 ∷ []) ∷ [])
      ≡ done c')
    × (c'.recv_queue ≡ messages 5 (encode seven ∷ []))
    × (unprocessed (overlapped c' 0) ≡ [])
    × IsValid (overlapped c' 0)
    × Same connected c'
unfolding lookup sent write_le
pass_then_client_received_example =
    pass_then_client_received all_ok all_ok (λ h socket op bytes. refl) (λ h socket op n. refl)
      sender passes.0 5 5 (seven ∷ []) connected 0
      ((1 ∷ 0 ∷ 0 ∷ []) ∷ (0 ∷ 0 ∷ 0 ∷ 0 ∷ 0 ∷ 1 ∷ 0 ∷ 7 ∷ []) ∷ []) (omega arith)
      (seven-IsSendable, tt) (omega arith, tt) refl refl refl passes.1 (_, refl) listening-IsValid
      refl (omega arith, omega arith, (omega arith, omega arith, tt)) (sym passes.2)

-- The client with the packet in its send queue.
abbrev asking : Client
asking = record connected { send_queue = encode seven ∷ [] }

-- The same run, for the way to the server.
asks :
    (c' : Client) × (send_function all_ok asking ≡ done c')
    × (sent 5 c'.calls ≡ sent 5 [] ++ stream (seven ∷ []))
    × (c'.send_queue ≡ [])
    × (c'.server_socket ≡ connected.server_socket)
    × (c'.recv_queue ≡ [])
asks =
    send_function_streams all_ok 5 (λ h socket op bytes. refl) (λ e. omega (arith, e)) asking
      (seven ∷ []) (omega arith, _, refl, refl) (seven-IsSendable, tt) refl

function_then_server-Received_example :
    (r' : Server) × (Stream.transfers all_ok serving 5 0
        ((1 ∷ 0 ∷ 0 ∷ []) ∷ (0 ∷ 0 ∷ 0 ∷ 0 ∷ 0 ∷ 1 ∷ 0 ∷ 7 ∷ []) ∷ [])
      ≡ done r')
    × Received serving 5 0 (seven ∷ []) r'
unfolding sent write_le
function_then_server-Received_example =
    function_then_server-Received all_ok 5 (λ h socket op bytes. refl) (λ e. omega (arith, e))
      asking asks.0 (seven ∷ []) all_ok serving 5 0
      ((1 ∷ 0 ∷ 0 ∷ []) ∷ (0 ∷ 0 ∷ 0 ∷ 0 ∷ 0 ∷ 1 ∷ 0 ∷ 7 ∷ []) ∷ []) (omega arith, _, refl, refl)
      (seven-IsSendable, tt) (omega arith, tt) refl refl asks.1 (λ h socket op n. refl)
      listening-IsValid refl (omega arith, omega arith, (omega arith, omega arith, tt)) (sym asks.2)
