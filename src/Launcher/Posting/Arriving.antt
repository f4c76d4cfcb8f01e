-- ===== src/Launcher/Posting/Arriving.antt =====
-- An answer to a request of friendship, from the button of the launcher (GamePlayLauncher.cpp) through
-- its client (DHClient.cpp) to a server (DHServer.cpp).
use dhserver.Base.{
  ℕ, ◌+◌, ◌≤◌, ◌≡◌, ◌≢◌, ap, sym, ◌∙◌, Bool, List, [], ◌∷◌, ◌++◌, some, arith, length, append-nil,
}
use dhserver.Base.Outcome.{done}
use dhserver.Shared.{invalid_socket, max_packet_size, overlapped_bufize}
use dhserver.Shared.Packet.{encode, stream, length-encode}
use dhserver.Server.{Server, Os, overlapped}
use dhserver.Server.Recv.Buffer.{IsValid}
use dhserver.Server.Recv.Deliveries.{AcceptsReceives}
use dhserver.Server.Recv.Stream.{transfers, Received, stream-Received}
use dhserver.Receiver.Line.{joined, AllTransfers}
use dhserver.Sender.{sent, AcceptsSends}
use dhserver.Client.{Client}
use dhserver.Client.Send.{send_function}
use dhserver.Client.Send.Blocks.{IsReady}
use dhserver.Client.Send.Streams.{number_of, send_function_streams}
use dhserver.DhNetWork.{DhNetWork}
use dhserver.Launcher.{Toolkit, accept_friend}
use dhserver.Launcher.Requests.{Panel, push_answer_button}
use dhserver.Launcher.Requests.Shown.{IsShowing, entry_at, delete_at, push_answer_shows}
use dhserver.Launcher.Posting.{packet_of, asked, client_api, packet_of-IsSendable, post_queues}

-- The panel shows at most three requests, of which one has the number `k`; the network is a client with
-- its socket structure, an open socket, an empty send queue and a pool made with ten overlapped
-- structures or more, which has sent nothing on the socket; the table of the answer leaves room in a
-- receive buffer for one more transfer, and Windows accepts each WSASend of the client and each receive
-- of the server. Then a push of the button `k` puts the answer in the send queue and takes the request
-- from the panel, SendFunction of the client returns, and, cut in any way into transfers of 1 to 2048
-- bytes, what it has sent makes IOFunction_Recv of a server, with a well-formed empty overlapped, queue
-- exactly the packet of the answer behind its earlier messages.
pub answer_arrives :
    (tk : Toolkit) (f : DhNetWork) (c : Client) (socket : ℕ) (user : List ℕ) (p : Panel)
    (rs : List (List ℕ)) (k : ℕ) (name : List ℕ) (b : Bool) (os os' : Os) (r : Server) (sp op : ℕ)
    (chunks : List (List ℕ))
    → IsShowing tk rs p
    → entry_at k rs ≡ some name
    → 10 + length (tk.build (accept_friend user name b)) + overlapped_bufize ≤ max_packet_size + 1
    → AcceptsSends os
    → socket ≢ invalid_socket
    → IsReady socket c
    → c.send_queue ≡ []
    → sent socket c.calls ≡ []
    → AcceptsReceives os'
    → IsValid (overlapped r op)
    → (overlapped r op).processed_packet_size ≡ 0
    → AllTransfers chunks
    → joined chunks ≡ encode (packet_of tk (accept_friend user name b))
    → let answer = packet_of tk (accept_friend user name b) in
      (p1 : Panel) × (c1 : Client) × (r1 : Server) × (push_answer_button tk
          (client_api f c)
          user
          p
          k
          b
        ≡ done (client_api f (asked c answer), p1))
      × IsShowing tk (delete_at k rs) p1
      × (send_function os (asked c answer) ≡ done c1)
      × (sent socket c1.calls ≡ joined chunks)
      × (transfers os' r sp op chunks ≡ done r1)
      × Received r sp op (answer ∷ []) r1
answer_arrives tk f c socket user p rs k name b os os' r sp op chunks shows entry room accepts
      open_socket ready empty nothing receives valid clear cut whole =
    let q = accept_friend user name b in
    let small : length (tk.build q) ≤ max_packet_size = omega arith in
    let sendable = packet_of-IsSendable tk q small in
    let (p1, pushed, shown, h) =
      push_answer_shows tk (client_api f c) (client_api f (asked c (packet_of tk q))) user p rs k
        name b shows entry
        (post_queues tk f c socket q (number_of c socket ready) open_socket small) in
    let queue : c.send_queue ++ encode (packet_of tk q) ∷ [] ≡ encode (packet_of tk q) ∷ [] =
      ap (λ l. l ++ encode (packet_of tk q) ∷ []) empty in
    let (c1, run, bytes, emptied, same, others) =
      send_function_streams os socket accepts open_socket (asked c (packet_of tk q))
        (packet_of tk q ∷ []) ready (sendable, tt) queue in
    let (r1, came, received) =
      stream-Received os' receives sp op r (packet_of tk q ∷ []) chunks valid clear cut
        (sendable, tt) (omega (arith, length-encode (packet_of tk q)), tt)
        (whole ∙ sym (append-nil (encode (packet_of tk q)))) in
    (
      p1,
      c1,
      r1,
      pushed,
      shown,
      run,
      bytes ∙ ap (λ l. l ++ stream (packet_of tk q ∷ [])) nothing ∙ append-nil _ ∙ sym whole,
      came,
      received,
    )
