-- ===== src/Client/Recv/Stream.antt =====
-- From packets to messages: the server's stream, cut into transfers in any way, comes out of the
-- client's IOFunction_Recv (DHClient.cpp) as its packets.
use dhserver.Base.{
  ℕ, suc, ◌+◌, ◌≤◌, ◌<◌, ◌≡◌, refl, sym, ap, ◌∙◌, subst, true, false, List, [], ◌++◌, map, some,
  none, arith, length, update_self, update_twice, ◌==◌,
}
use dhserver.Base.Outcome.{Outcome, done}
use dhserver.Shared.{Overlapped, SocketStruct, max_packet_size, overlapped_bufize, invalid_socket}
use dhserver.Shared.Packet.{Packet, encode, stream, AllSendable}
use dhserver.Shared.Reassembly.{more, Cut, cut}
use dhserver.Shared.Reassembly.Prefix.{AllFit}
use dhserver.Server.{Os, Call}
use dhserver.Server.Recv
use dhserver.Server.Recv.Buffer.{IsValid, unprocessed}
use dhserver.Server.Recv.Deliveries.{AcceptsReceives}
use dhserver.Receiver.{messages, settle}
use dhserver.Receiver.Stored.{
  written, posted, posted-IsValid, loaded, stored, stored-IsValid, unprocessed-stored, stored_fits,
  processed-stored,
}
use dhserver.Receiver.Line.{joined, AllTransfers, each, Side, Delivery, Line, stream-Whole}
use dhserver.Client.{Client, overlapped, set_overlapped, emit}
use dhserver.Client.Recv.{
  back_up_overlapped, receive_again, recv_loop, process, take_received, io_recv,
}
use dhserver.Client.Recv.Loop.{absorb, conclude, client_loop-cut}

-- A transfer of `bytes` to the overlapped `op` of the client.
abbrev pub transfer : Os → ℕ → Client → List ℕ → Outcome Client
transfer os op c bytes =
    io_recv os (set_overlapped c op (written (overlapped c op) bytes)) (length bytes) op

-- The transfers of the connection in their order.
unfoldable pub transfers : Os → ℕ → Client → List (List ℕ) → Outcome Client
transfers os op c chunks = each (transfer os op) c chunks

-- The socket, the flag of the connection and the send queue.
abbrev pub Same : Client → Client → Type 0
Same c c' =
    (c'.server_socket ≡ c.server_socket)
    × (c'.is_server_connect_success ≡ c.is_server_connect_success)
    × (c'.send_queue ≡ c.send_queue)

abbrev pub HasSocket : Client → Type 0
HasSocket c = (x : SocketStruct) × (c.server_socket ≡ some x)

-- The socket of the connection, as a number.
abbrev pub socket_number : Client → ℕ
socket_number c = elim c.server_socket [ none ↦ invalid_socket | some x ↦ x.socket ]

socket_number-some :
    (c : Client) (x : SocketStruct) → c.server_socket ≡ some x → socket_number c ≡ x.socket
socket_number-some c x e = rw e

module _ (os : Os) (accepts : AcceptsReceives os) (op : ℕ) where
  abbrev side : Side Client
  side = record {
    transfer = transfer os op;
    overlapped = λ c. overlapped c op;
    queue = λ c. c.recv_queue;
    socket = socket_number;
  }

  again :
      (c : Client)
      → receive_again os c op
        ≡ done (
            emit
              (set_overlapped c op (posted (overlapped c op)))
              (Call.wsa_recv (overlapped c op).socket op overlapped_bufize))
  unfolding receive_again
  again c = rw (accepts c.calls (overlapped c op).socket op overlapped_bufize) refl

  process_ended :
      (c c1 : Client) (n : ℕ)
      → (overlapped c op).processed_packet_size ≡ n
      → recv_loop (suc n) c op ≡ done (true, c1)
      → process os c op ≡ receive_again os c1 op
  unfolding process
  process_ended c c1 n e run = rw (e, run) refl

  process-Delivery :
      (c : Client) (x : SocketStruct) (o : Overlapped)
      → c.server_socket ≡ some x
      → IsValid o
      → (cut (suc o.processed_packet_size) (unprocessed o)).verdict ≡ more
      → (c' : Client) × (process os (absorb c op c.recv_queue o) op ≡ done c')
        × Delivery side c
            (cut (suc o.processed_packet_size) (unprocessed o)).packets
            (cut (suc o.processed_packet_size) (unprocessed o)).rest
            c'
        × Same c c'
  unfolding conclude settle
  process-Delivery c x o e v fine =
      let r = cut (suc o.processed_packet_size) (unprocessed o) in
      let (o', v', rest, sock, run) =
        client_loop-cut c x e op (suc o.processed_packet_size) c.recv_queue o v (omega arith) in
      let c1 = absorb c op (c.recv_queue ++ messages x.socket r.packets) o' in
      let k : overlapped c1 op ≡ o' = update_self c.overlapped_pool.mem op o' in
      let c2 = set_overlapped c1 op (posted (overlapped c1 op)) in
      let k2 : overlapped c2 op ≡ posted o' =
        update_self c1.overlapped_pool.mem op (posted (overlapped c1 op)) ∙ ap posted k in
      (
        emit c2 (Call.wsa_recv (overlapped c1 op).socket op overlapped_bufize),
        process_ended (absorb c op c.recv_queue o) c1 o.processed_packet_size
              (ap (λ (y : Overlapped). y.processed_packet_size)
                (update_self c.overlapped_pool.mem op o))
              (run ∙ ap (λ w. conclude w c1 op) fine)
            ∙ again c1,
        record {
          queued = ap (λ n. c.recv_queue ++ messages n r.packets) (sym (socket_number-some c x e));
          valid = subst IsValid (sym k2) (posted-IsValid v');
          left = ap unprocessed k2 ∙ rest;
          same_socket = refl;
        },
        (refl, refl, refl),
      )

  set_twice :
      (c : Client) (o o' : Overlapped)
      → set_overlapped (set_overlapped c op o) op o' ≡ set_overlapped c op o'
  set_twice c o o' =
      ap (λ m. record c { overlapped_pool = record c.overlapped_pool { mem = m } })
        (update_twice c.overlapped_pool.mem op o o')

  -- BackUp_Overlapped of the client is that of the server.
  back_up-eq : (o : Overlapped) → back_up_overlapped o ≡ Recv.back_up_overlapped o
  unfolding back_up_overlapped Recv.back_up_overlapped
  back_up-eq o = refl

  take_received-some :
      (c : Client) (o o' : Overlapped)
      → back_up_overlapped o ≡ some o'
      → take_received os c o op ≡ process os (set_overlapped c op o') op
  unfolding take_received
  take_received-some c o o' b = rw (b, take_received)

  io_recv_taken :
      (c : Client) (bytes : ℕ) (o o' : Overlapped)
      → bytes == 0 ≡ false
      → record (overlapped c op) { data_size = bytes } ≡ o
      → back_up_overlapped o ≡ some o'
      → io_recv os c bytes op ≡ process os (set_overlapped c op o') op
  unfolding io_recv
  io_recv_taken c bytes o o' z e b =
      rw z (ap (λ y. take_received os c y op) e ∙ take_received-some c o o' b)

  delivers :
      (c : Client) (bytes : List ℕ)
      → HasSocket c
      → 0 < length bytes
      → length bytes ≤ overlapped_bufize
      → IsValid (overlapped c op)
      → (overlapped c op).processed_packet_size + length bytes ≤ max_packet_size
      → let r =
          cut
            (suc ((overlapped c op).processed_packet_size + length bytes))
            (unprocessed (overlapped c op) ++ bytes) in
        r.verdict ≡ more
        → (c' : Client) × (transfer os op c bytes ≡ done c')
          × Delivery side c r.packets r.rest c'
          × Same c c'
  delivers c bytes (x, e) some_bytes small v fits fine =
      let old = overlapped c op in
      let o = stored old bytes in
      let k : cut (suc o.processed_packet_size) (unprocessed o)
          ≡ cut (suc (old.processed_packet_size + length bytes)) (unprocessed old ++ bytes) =
        ap (λ n. cut (suc n) (unprocessed o)) (processed-stored old bytes v small fits)
        ∙ ap (cut (suc (old.processed_packet_size + length bytes)))
            (unprocessed-stored old bytes v small fits) in
      let (c', run, d, same) =
        process-Delivery c x o e (stored-IsValid old bytes v small fits)
          (ap (λ (y : Cut). y.verdict) k ∙ fine) in
      (
        c',
        io_recv_taken (set_overlapped c op (written old bytes)) (length bytes) (loaded old bytes) o
              (ground arith)
              (ap (λ (y : Overlapped). record y { data_size = length bytes })
                (update_self c.overlapped_pool.mem op (written old bytes)))
              (back_up-eq (loaded old bytes) ∙ stored_fits old bytes v small fits)
            ∙ ap (λ y. process os y op) (set_twice c (written old bytes) o)
            ∙ run,
        subst (λ (y : Cut). Delivery side c y.packets y.rest c') k d,
        same,
      )

  line : Line HasSocket Same side
  line = record {
    same_ready = λ c c' s h. (h.0, s.0 ∙ h.1);
    same_self = λ c. (refl, refl, refl);
    same_trans = λ a b c s t. (t.0 ∙ s.0, t.1 ∙ s.1, t.2 ∙ s.2);
    delivers = delivers;
  }

  -- The server sends packets that have a type and that, with their headers, leave room in the buffer
  -- for one more transfer, to a client that has its socket structure and a well-formed empty
  -- overlapped, and Windows accepts each posted receive. However the stream is cut into transfers of
  -- 1 to 2048 bytes, IOFunction_Recv of the client returns from all of them; the receive queue then
  -- has exactly these packets behind the earlier messages, in their order and with the socket of the
  -- connection, nothing is left in the buffer, the overlapped is well formed, and the socket, the flag
  -- of the connection and the send queue are as before.
  pub client_stream_received :
      (c : Client) (ps : List Packet) (chunks : List (List ℕ))
      → HasSocket c
      → IsValid (overlapped c op)
      → (overlapped c op).processed_packet_size ≡ 0
      → AllTransfers chunks
      → AllSendable ps
      → AllFit ps
      → joined chunks ≡ stream ps
      → (c' : Client) × (transfers os op c chunks ≡ done c')
        × (c'.recv_queue ≡ c.recv_queue ++ messages (socket_number c) (map encode ps))
        × (unprocessed (overlapped c' op) ≡ [])
        × IsValid (overlapped c' op)
        × Same c c'
  unfolding transfers
  client_stream_received c ps chunks h valid empty t v f e =
      let (c', run, (queued, emptied, valid', same)) =
        stream-Whole HasSocket Same side line c ps chunks h valid empty t v f e in
      (c', run, queued, emptied, valid', same)
