-- ===== src/Server/Send/Streams.antt =====
-- What a pass of SendThread (DHServer.cpp) puts on the wire for a queue of packets to one client, and
-- what IOFunction_Recv makes of it at the other end.
use dhserver.Base.{
  ℕ, suc, ◌≤◌, ◌≡◌, refl, sym, ap, ◌∙◌, subst, List, [], ◌∷◌, ◌++◌, some, arith, length, take_all,
  lookup, append-nil, append_assoc,
}
use dhserver.Base.Outcome.{done}
use dhserver.Shared.Bytes.{read_le}
use dhserver.Shared.Packet.{
  Packet, encode, stream, IsSendable, AllSendable, length-encode, size-encode,
}
use dhserver.Shared.Reassembly.Prefix.{AllFit}
use dhserver.Server.{Server, Os, overlapped}
use dhserver.Server.Send.{total_size, send_one, send_all, send_thread_pass}
use dhserver.Sender.{sent, AcceptsSends}
use dhserver.Server.Send.Blocks.{send_blocks_from}
use dhserver.Server.Recv.Buffer.{IsValid}
use dhserver.Server.Recv.Deliveries.{AcceptsReceives}
use dhserver.Receiver.Line.{joined, AllTransfers}
use dhserver.Server.Recv.Stream.{transfers, Received, stream-Received}

pub total_size-encode : (p : Packet) → IsSendable p → total_size (encode p) ≡ length (encode p)
unfolding total_size
total_size-encode p v =
    let s : read_le 8 (encode p) ≡ length p.body =
      subst (λ x. read_le 8 x ≡ length p.body) (append-nil (encode p)) (size-encode p [] v) in
    rw s (omega (arith, length-encode p, v.size_fits))

-- The entries of the send queue for the packets to one socket.
abbrev pub entries : ℕ → List Packet → List (ℕ × List ℕ)
entries socket [] = []
entries socket (p ∷ ps) = (socket, encode p) ∷ entries socket ps

module _ (os : Os) (socket : ℕ) (accepts : AcceptsSends os) where
  -- The server behind some sends: `bytes` more have gone out.
  abbrev pub SentBehind : Server → List ℕ → Server → Type 0
  SentBehind s bytes s' =
      (sent socket s'.calls ≡ sent socket s.calls ++ bytes)
      × (s'.connected ≡ s.connected)
      × (s'.overlapped_pool.sample_obj_count ≡ s.overlapped_pool.sample_obj_count)

  send_one-encode :
      (s : Server) (p : Packet) (q : ℕ)
      → 10 ≤ s.overlapped_pool.sample_obj_count
      → IsSendable p
      → lookup socket s.connected ≡ some q
      → (s' : Server) × (send_one os s (socket, encode p) ≡ done s') × SentBehind s (encode p) s'
  unfolding send_one
  send_one-encode s p q a v e =
      let t = total_size-encode p v in
      let (s', run, r) =
        send_blocks_from os socket (encode p) (suc (total_size (encode p))) s 0
          (total_size (encode p)) a (omega arith) (λ z. omega (arith, t)) in
      let all : r.count ≡ length (encode p) = (r.all_sent accepts).0 ∙ t in
      (
        s',
        rw (e, send_one) run,
        (
          r.bytes
              ∙ ap (λ b. sent socket s.calls ++ b)
                  (take_all r.count (encode p) (omega (arith, all))),
          r.keeps.same_connected,
          r.keeps.same_sample,
        ),
      )

  send_all-stream :
      (ps : List Packet) (s : Server) (q : ℕ)
      → 10 ≤ s.overlapped_pool.sample_obj_count
      → AllSendable ps
      → lookup socket s.connected ≡ some q
      → (s' : Server) × (send_all os (entries socket ps) s ≡ done s') × SentBehind s (stream ps) s'
  unfolding send_all
  send_all-stream [] s q a v e = (s, refl, (sym (append-nil _), refl, refl))
  send_all-stream (p ∷ ps) s q a v e =
      let (s1, run1, (b1, c1, m1)) = send_one-encode s p q a v.0 e in
      let (s2, run2, (b2, c2, m2)) =
        send_all-stream ps s1 q (omega (arith, m1)) v.1 (ap (lookup socket) c1 ∙ e) in
      (
        s2,
        rw run1 run2,
        (
          b2
              ∙ ap (λ b. b ++ stream ps) b1
              ∙ append_assoc (sent socket s.calls) (encode p) (stream ps),
          c2 ∙ c1,
          m2 ∙ m1,
        ),
      )

  -- The send queue holds packets that have a type, all for one connected client, the pool was made
  -- with ten objects or more, and Windows accepts each WSASend: a pass of SendThread returns, and has
  -- sent exactly the stream of these packets on the client's socket behind the earlier bytes; the
  -- connected clients are as before.
  pub send_thread_pass_streams :
      (s : Server) (ps : List Packet) (q : ℕ)
      → 10 ≤ s.overlapped_pool.sample_obj_count
      → AllSendable ps
      → lookup socket s.connected ≡ some q
      → s.send_queue ≡ entries socket ps
      → (s' : Server) × (send_thread_pass os s ≡ done s')
        × (sent socket s'.calls ≡ sent socket s.calls ++ stream ps)
        × (s'.connected ≡ s.connected)
  unfolding send_thread_pass
  send_thread_pass_streams s ps q a v e k =
      let (s', run, (b, c, m)) = send_all-stream ps (record s { send_queue = [] }) q a v e in
      (s', ap (λ l. send_all os l (record s { send_queue = [] })) k ∙ run, b, c)

  -- A pass that has returned, where nothing was sent on the socket before.
  pub sent_then_stream :
      (s s' : Server) (ps : List Packet) (q : ℕ)
      → 10 ≤ s.overlapped_pool.sample_obj_count
      → AllSendable ps
      → lookup socket s.connected ≡ some q
      → s.send_queue ≡ entries socket ps
      → sent socket s.calls ≡ []
      → send_thread_pass os s ≡ done s'
      → sent socket s'.calls ≡ stream ps
  sent_then_stream s s' ps q a v e k z run =
      let (s1, run1, b, c) = send_thread_pass_streams s ps q a v e k in
      let same : s1 ≡ s' = done-injective (sym run1 ∙ run) in
      ap (λ (x : Server). sent socket x.calls) (sym same) ∙ b ∙ ap (λ l. l ++ stream ps) z
    where
      done-injective : {x y : Server} → done x ≡ done y → x ≡ y
      done-injective h = cc

  -- A pass of SendThread over such a queue, before which nothing was sent on the socket, has
  -- returned. The packets leave room in a receive buffer for one more transfer. If the bytes sent on
  -- the socket reach a server in transfers of 1 to 2048 bytes, cut in any way, for a client whose
  -- overlapped is well formed and empty, and Windows accepts that server's receives, then its
  -- IOFunction_Recv returns from all of them, and its receive queue has exactly the packets of the
  -- send queue behind the earlier messages, in their order.
  pub sent_then-Received :
      (s s' : Server) (ps : List Packet) (q : ℕ) (os' : Os) (r : Server) (sp op : ℕ)
      (chunks : List (List ℕ))
      → 10 ≤ s.overlapped_pool.sample_obj_count
      → AllSendable ps
      → AllFit ps
      → lookup socket s.connected ≡ some q
      → s.send_queue ≡ entries socket ps
      → sent socket s.calls ≡ []
      → send_thread_pass os s ≡ done s'
      → AcceptsReceives os'
      → IsValid (overlapped r op)
      → (overlapped r op).processed_packet_size ≡ 0
      → AllTransfers chunks
      → joined chunks ≡ sent socket s'.calls
      → (r' : Server) × (transfers os' r sp op chunks ≡ done r') × Received r sp op ps r'
  sent_then-Received s s' ps q os' r sp op chunks a v f e k z run acc valid empty t j =
      stream-Received os' acc sp op r ps chunks valid empty t v f
        (j ∙ sent_then_stream s s' ps q a v e k z run)
