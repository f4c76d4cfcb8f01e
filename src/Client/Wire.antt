-- ===== src/Client/Wire.antt =====
-- From the send queue of a server (SendThread, DHServer.cpp) to the receive queue of a client
-- (IOFunction_Recv, DHClient.cpp).
use dhserver.Base.{ℕ, ◌≤◌, ◌≡◌, ◌∙◌, List, [], ◌++◌, map, some, lookup}
use dhserver.Base.Outcome.{done}
use dhserver.Shared.Packet.{Packet, encode, AllSendable}
use dhserver.Shared.Reassembly.Prefix.{AllFit}
use dhserver.Server.{Server, Os}
use dhserver.Server.Send.{send_thread_pass}
use dhserver.Sender.{sent, AcceptsSends}
use dhserver.Server.Send.Streams.{entries, sent_then_stream}
use dhserver.Server.Recv.Buffer.{IsValid, unprocessed}
use dhserver.Server.Recv.Deliveries.{AcceptsReceives}
use dhserver.Receiver.{messages}
use dhserver.Receiver.Line.{joined, AllTransfers}
use dhserver.Client.{Client, overlapped}
use dhserver.Client.Recv.Stream.{transfers, Same, HasSocket, socket_number, client_stream_received}

module _ (os os' : Os) (accepts : AcceptsSends os) (accepts' : AcceptsReceives os') where
  -- Windows accepts each WSASend of the server and each receive of the client. A pass of SendThread
  -- has returned, for a server that had sent nothing on a client's socket, whose send queue held
  -- packets for this client only, which have a type and leave room in a receive buffer for one more
  -- transfer, and whose pool was made with ten objects or more. However the bytes that it has sent on
  -- the socket are cut into transfers of 1 to 2048 bytes, IOFunction_Recv of the client, with its
  -- socket structure and a well-formed empty overlapped, returns from all of them: its receive queue
  -- has exactly the packets of the server's send queue behind the earlier messages, in their order
  -- and with the client's number of the socket, nothing is left in the buffer, the overlapped is well
  -- formed, and the socket, the flag of the connection and the send queue of the client are as
  -- before.
  pub pass_then_client_received :
      (s s' : Server) (socket q : ℕ) (ps : List Packet) (c : Client) (op : ℕ)
      (chunks : List (List ℕ))
      → 10 ≤ s.overlapped_pool.sample_obj_count
      → AllSendable ps
      → AllFit ps
      → lookup socket s.connected ≡ some q
      → s.send_queue ≡ entries socket ps
      → sent socket s.calls ≡ []
      → send_thread_pass os s ≡ done s'
      → HasSocket c
      → IsValid (overlapped c op)
      → (overlapped c op).processed_packet_size ≡ 0
      → AllTransfers chunks
      → joined chunks ≡ sent socket s'.calls
      → (c' : Client) × (transfers os' op c chunks ≡ done c')
        × (c'.recv_queue ≡ c.recv_queue ++ messages (socket_number c) (map encode ps))
        × (unprocessed (overlapped c' op) ≡ [])
        × IsValid (overlapped c' op)
        × Same c c'
  pass_then_client_received s s' socket q ps c op chunks a v f e k z run h valid empty t j =
      client_stream_received os' accepts' op c ps chunks h valid empty t v f
        (j ∙ sent_then_stream os socket accepts s s' ps q a v e k z run)
