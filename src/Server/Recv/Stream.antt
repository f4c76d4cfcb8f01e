-- ===== src/Server/Recv/Stream.antt =====
-- From packets to messages: a connection's stream, cut into transfers in any way, comes out of
-- IOFunction_Recv (DHServer.cpp) as its packets.
use dhserver.Base.{ℕ, ◌≡◌, refl, ap, ◌∙◌, List, [], ◌++◌, map}
use dhserver.Base.Outcome.{Outcome, done}
use dhserver.Shared.{SocketStruct}
use dhserver.Shared.Packet.{Packet, encode, stream, AllSendable}
use dhserver.Shared.Reassembly.Prefix.{AllFit}
use dhserver.Server.{Server, Os, overlapped}
use dhserver.Server.Recv.Buffer.{IsValid, unprocessed}
use dhserver.Server.Recv.Deliveries.{AcceptsReceives, transfer}
use dhserver.Server.Recv.Transfers.{transfer-Delivered}
use dhserver.Receiver.{messages}
use dhserver.Receiver.Line.{joined, AllTransfers, each, Side, Line, stream-Whole}

-- The transfers of a connection in their order.
unfoldable pub transfers : Os → Server → ℕ → ℕ → List (List ℕ) → Outcome Server
transfers os s sp op chunks = each (λ x c. transfer os x sp op c) s chunks

-- What the server has done with packets that have arrived whole.
pub record Received (s : Server) (sp op : ℕ) (ps : List Packet) (s' : Server) : Type 0 where
  pub queued : s'.recv_queue ≡ s.recv_queue ++ messages (s.structs sp).socket (map encode ps)
  pub emptied : unprocessed (overlapped s' op) ≡ []
  pub valid : IsValid (overlapped s' op)
  pub same_connected : s'.connected ≡ s.connected

module _ (os : Os) (accepts : AcceptsReceives os) (sp op : ℕ) where
  abbrev side : Side Server
  side = record {
    transfer = λ s c. transfer os s sp op c;
    overlapped = λ s. overlapped s op;
    queue = λ s. s.recv_queue;
    socket = λ s. (s.structs sp).socket;
  }

  -- Receiving connects nobody and ends nobody.
  abbrev Same : Server → Server → Type 0
  Same s s' = s'.connected ≡ s.connected

  line : Line (λ _. Unit {0}) Same side
  line = record {
    same_ready = λ s t h r. tt;
    same_self = λ s. refl;
    same_trans = λ s t u h k. k ∙ h;
    delivers = λ s bytes r some_bytes small v fits fine.
        let (s', run, d) =
          transfer-Delivered os s sp op bytes some_bytes v small accepts fits fine in
        (
          s',
          run,
          record {
            queued = d.queued;
            valid = d.valid;
            left = d.left;
            same_socket = ap (λ (m : ℕ → SocketStruct). (m sp).socket) d.same_structs;
          },
          d.same_connected,
        );
  }

  -- A client sends packets that have a type and that, with their headers, leave room in the buffer
  -- for one more transfer. Its overlapped is well formed and empty, and Windows accepts each posted
  -- receive. However the stream is cut into transfers of 1 to 2048 bytes, IOFunction_Recv returns
  -- from all of them; the receive queue then has exactly these packets behind the earlier messages,
  -- in their order and with the client's socket, nothing is left in the buffer, the overlapped is
  -- well formed, and the connected clients are as before.
  pub stream-Received :
      (s : Server) (ps : List Packet) (chunks : List (List ℕ))
      → IsValid (overlapped s op)
      → (overlapped s op).processed_packet_size ≡ 0
      → AllTransfers chunks
      → AllSendable ps
      → AllFit ps
      → joined chunks ≡ stream ps
      → (s' : Server) × (transfers os s sp op chunks ≡ done s') × Received s sp op ps s'
  unfolding transfers
  stream-Received s ps chunks valid empty t v f e =
      let (s', run, (queued, emptied, valid', same)) =
        stream-Whole (λ _. Unit {0}) Same side line s ps chunks tt valid empty t v f e in
      (
        s',
        run,
        record { queued = queued; emptied = emptied; valid = valid'; same_connected = same },
      )
