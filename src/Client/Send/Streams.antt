-- ===== src/Client/Send/Streams.antt =====
-- What SendFunction (DHClient.cpp) puts on the wire for its queue of packets, and what
-- IOFunction_Recv of the server makes of it.
use dhserver.Base.{
  ℕ, suc, ◌≡◌, ◌≢◌, refl, sym, ap, ◌∙◌, false, List, [], ◌∷◌, ◌++◌, map, arith, take_all,
  append-nil, append_assoc, ◌==◌,
}
use dhserver.Base.Outcome.{done, ◌>>=◌}
use dhserver.Shared.{invalid_socket}
use dhserver.Shared.Packet.{Packet, encode, stream, IsSendable, AllSendable}
use dhserver.Shared.Reassembly.Prefix.{AllFit}
use dhserver.Server.{Server, Os, overlapped}
use dhserver.Server.Send.{total_size}
use dhserver.Server.Send.Streams.{total_size-encode}
use dhserver.Server.Recv.Buffer.{IsValid}
use dhserver.Server.Recv.Deliveries.{AcceptsReceives}
use dhserver.Server.Recv.Stream.{transfers, Received, stream-Received}
use dhserver.Receiver.Line.{joined, AllTransfers}
use dhserver.Sender.{sent, AcceptsSends}
use dhserver.Client.{Client, socket_of}
use dhserver.Client.Send.{send_blocks, send_queued, send_function}
use dhserver.Client.Send.Blocks.{IsReady, client_blocks_from}

pub number_of : (c : Client) (socket : ℕ) → IsReady socket c → socket_of c ≡ done socket
unfolding socket_of
number_of c socket (a, x, e, n) = rw (e, socket_of) (ap done n)

module _ (os : Os) (socket : ℕ) (accepts : AcceptsSends os)
    (open_socket : socket ≢ invalid_socket) where
  -- The client behind some sends: `bytes` more have gone out.
  abbrev SentBehind : Client → List ℕ → Client → Type 0
  SentBehind c bytes c' =
      (sent socket c'.calls ≡ sent socket c.calls ++ bytes)
      × (c'.server_socket ≡ c.server_socket)
      × (c'.recv_queue ≡ c.recv_queue)

  send_one :
      (c : Client) (p : Packet)
      → IsReady socket c
      → IsSendable p
      → (c' : Client) × (send_blocks
            (suc (total_size (encode p)))
            os
            c
            (encode p)
            0
            (total_size (encode p))
          ≡ done c')
        × SentBehind c (encode p) c'
        × (c'.send_queue ≡ c.send_queue)
        × IsReady socket c'
  send_one c p a v =
      let t = total_size-encode p v in
      let (c', run, r) =
        client_blocks_from os socket c (encode p) (total_size (encode p)) a (omega (arith, t)) in
      let (all, kept) = r.all_sent accepts in
      let (size, x, e, n) = a in
      (
        c',
        run,
        (
          r.bytes
              ∙ ap (λ b. sent socket c.calls ++ b)
                  (take_all r.count (encode p) (omega (arith, all, t))),
          kept.0,
          r.keeps.same_recv_queue,
        ),
        r.keeps.same_send_queue,
        (omega (arith, r.keeps.same_sample), x, kept.0 ∙ e, n),
      )

  queued_round :
      (c c1 : Client) (packet : List ℕ) (packets : List (List ℕ))
      → IsReady socket c
      → send_blocks
          (suc (total_size packet))
          os
          (record c { send_queue = packets })
          packet
          0
          (total_size packet)
        ≡ done c1
      → send_queued os (packet ∷ packets) c ≡ send_queued os packets c1
  unfolding send_queued
  queued_round c c1 packet packets a run =
      let z : socket == invalid_socket ≡ false = ground arith in
      rw (number_of c socket a) (rw (z, ◌>>=◌) (rw run refl))

  send_queued-stream :
      (ps : List Packet) (c : Client)
      → c.send_queue ≡ map encode ps
      → IsReady socket c
      → AllSendable ps
      → (c' : Client) × (send_queued os (map encode ps) c ≡ done c')
        × SentBehind c (stream ps) c'
        × (c'.send_queue ≡ [])
  unfolding send_queued
  send_queued-stream [] c q a v = (c, refl, (sym (append-nil _), refl, refl), q)
  send_queued-stream (p ∷ ps) c q a v =
      let (c1, run1, (b1, s1, r1), q1, a1) =
        send_one (record c { send_queue = map encode ps }) p a v.0 in
      let (c2, run2, (b2, s2, r2), q2) = send_queued-stream ps c1 q1 a1 v.1 in
      (
        c2,
        queued_round c c1 (encode p) (map encode ps) a run1 ∙ run2,
        (
          b2
              ∙ ap (λ b. b ++ stream ps) b1
              ∙ append_assoc (sent socket c.calls) (encode p) (stream ps),
          s2 ∙ s1,
          r2 ∙ r1,
        ),
        q2,
      )

  -- The client has its socket structure with an open socket and a pool of overlapped structures that
  -- was made with ten or more, its send queue holds packets that have a type, and Windows accepts each
  -- WSASend: SendFunction returns, has sent exactly the stream of these packets on the socket behind
  -- the earlier bytes, and has emptied the send queue; the socket structure and the receive queue are
  -- as before.
  pub send_function_streams :
      (c : Client) (ps : List Packet)
      → IsReady socket c
      → AllSendable ps
      → c.send_queue ≡ map encode ps
      → (c' : Client) × (send_function os c ≡ done c')
        × (sent socket c'.calls ≡ sent socket c.calls ++ stream ps)
        × (c'.send_queue ≡ [])
        × (c'.server_socket ≡ c.server_socket)
        × (c'.recv_queue ≡ c.recv_queue)
  unfolding send_function
  send_function_streams c ps a v e =
      let (c', run, (b, s, r), q) = send_queued-stream ps c e a v in
      (c', ap (λ l. send_queued os l c) e ∙ run, b, q, s, r)

  -- SendFunction has returned for such a client, which had sent nothing on the socket before. The
  -- packets leave room in a receive buffer for one more transfer. If the bytes sent reach a server in
  -- transfers of 1 to 2048 bytes, cut in any way, for a client whose overlapped is well formed and
  -- empty, and Windows accepts that server's receives, then its IOFunction_Recv returns from all of
  -- them, and its receive queue has exactly the packets of the client's send queue behind the earlier
  -- messages, in their order.
  pub function_then_server-Received :
      (c c' : Client) (ps : List Packet) (os' : Os) (r : Server) (sp op : ℕ)
      (chunks : List (List ℕ))
      → IsReady socket c
      → AllSendable ps
      → AllFit ps
      → c.send_queue ≡ map encode ps
      → sent socket c.calls ≡ []
      → send_function os c ≡ done c'
      → AcceptsReceives os'
      → IsValid (overlapped r op)
      → (overlapped r op).processed_packet_size ≡ 0
      → AllTransfers chunks
      → joined chunks ≡ sent socket c'.calls
      → (r' : Server) × (transfers os' r sp op chunks ≡ done r') × Received r sp op ps r'
  function_then_server-Received c c' ps os' r sp op chunks a v f e z run acc valid empty t j =
      let (c1, run1, b, q, s, k) = send_function_streams c ps a v e in
      let same : c1 ≡ c' = done-injective (sym run1 ∙ run) in
      stream-Received os' acc sp op r ps chunks valid empty t v f
        (j ∙ ap (λ (x : Client). sent socket x.calls) (sym same) ∙ b ∙ ap (λ l. l ++ stream ps) z)
    where
      done-injective : {x y : Client} → done x ≡ done y → x ≡ y
      done-injective h = cc
