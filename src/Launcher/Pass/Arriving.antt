-- ===== src/Launcher/Pass/Arriving.antt =====
-- The state of a user's friends, from the send queue of a server (DHServer.cpp) through the client
-- (DHClient.cpp) to the launcher (GamePlayLauncher.cpp).
use dhserver.Base.{
  ℕ, ◌≤◌, ◌<◌, ◌≡◌, refl, ap, sym, subst, ◌∙◌, Bool, false, List, [], ◌∷◌, ◌++◌, map, some, arith,
  length, drop, append-nil, append_assoc, lookup, ◌==◌, ◌&&◌, if◌then◌else◌,
}
use dhserver.Base.Outcome.{done}
use dhserver.Shared.{Message, logic_success}
use dhserver.Shared.Bytes.{read_le, write_le}
use dhserver.Shared.Packet.{Packet, encode, IsSendable, AllSendable, kind-encode}
use dhserver.Shared.Reassembly.Prefix.{AllFit}
use dhserver.Server.{Server, Os}
use dhserver.Server.Send.{send_thread_pass}
use dhserver.Server.Send.Streams.{entries}
use dhserver.Server.Recv.{recv_drain}
use dhserver.Server.Recv.Buffer.{IsValid}
use dhserver.Server.Recv.Deliveries.{AcceptsReceives}
use dhserver.Sender.{sent, AcceptsSends}
use dhserver.Receiver.{messages}
use dhserver.Receiver.Line.{joined, AllTransfers}
use dhserver.Client.{Client, overlapped}
use dhserver.Client
use dhserver.Client.Recv.Stream.{transfers, HasSocket, socket_number}
use dhserver.Client.Wire.{pass_then_client_received}
use dhserver.DhNetWork.{DhNetWork, net_recv}
use dhserver.DhNetWork
use dhserver.DhNetWorkApi
use dhserver.Launcher.{Toolkit}
use dhserver.Launcher.Requests.Overrun.{IsWide}
use dhserver.Launcher.Friends.Listed.{KeepsTexts}
use dhserver.Launcher.Answer.{check_line}
use dhserver.Launcher.Playing.{watch_process, post_if}
use dhserver.Launcher.Login.{type_of, buffer_of}
use dhserver.Launcher.Pass.{GamePlayLauncher, take_messages, pass, s2c_current_user_state}
use dhserver.Launcher.Pass.Current.{IsCurrent, NoState, AllNarrow, take_messages_shows}
use dhserver.Launcher.Posting.{client_api}

abbrev message : ℕ → Packet → Message
message socket p = record { socket = socket; packet = encode p }

type_of-encode : (socket : ℕ) (p : Packet) → IsSendable p → type_of (message socket p) ≡ p.kind
unfolding type_of
type_of-encode socket p v =
    subst (λ b. read_le 2 (drop 8 b) ≡ p.kind) (append-nil (encode p)) (kind-encode p [] v)

buffer_of-encode : (socket : ℕ) (p : Packet) → buffer_of (message socket p) ≡ p.body
unfolding buffer_of write_le
buffer_of-encode socket p = refl

recv_drain-append : (queue out : List Message) → recv_drain queue out ≡ out ++ queue
unfolding recv_drain
recv_drain-append [] out = sym (append-nil out)
recv_drain-append (m ∷ queue) out =
    recv_drain-append queue (out ++ m ∷ []) ∙ append_assoc out (m ∷ []) queue

-- Recv of a client with messages, into an empty vector.
recv_all :
    (c : Client) (msgs : List Message)
    → c.recv_queue ≡ msgs
    → 0 < length msgs
    → Client.recv c [] ≡ (logic_success, msgs, record c { recv_queue = [] })
unfolding Client.recv
recv_all c [] e l = absurd (omega arith)
recv_all c (m ∷ msgs) e l = rw (e, Client.recv) (rw (recv_drain-append (m ∷ msgs) []) refl)

-- A pass of RecvServerPacket that receives these messages, while the game does not end.
pass_takes :
    (tk : Toolkit) (f : DhNetWork) (c : Client) (over : Bool) (now : ℕ) (g g1 : GamePlayLauncher)
    (msgs : List Message)
    → c.recv_queue ≡ msgs
    → 0 < length msgs
    → (g.game.process && over) ≡ false
    → take_messages tk msgs (record g { line = check_line now g.line }) ≡ done g1
    → pass tk (client_api f c) over now g ≡ done (client_api f (record c { recv_queue = [] }), g1)
unfolding pass watch_process post_if DhNetWorkApi.recv DhNetWork.recv net_recv
pass_takes tk f c over now g g1 msgs e l n run =
    rw n (rw (recv_all c msgs e l, DhNetWorkApi.recv, DhNetWork.recv, net_recv) (rw run refl))

-- Packets none of which carries a state.
abbrev pub NoStatePackets : List Packet → Type 0
NoStatePackets [] = Unit {0}
NoStatePackets (p ∷ ps) = (p.kind == s2c_current_user_state ≡ false) × NoStatePackets ps

-- Packets whose states have at most three requests.
abbrev pub AllNarrowPackets : Toolkit → List Packet → Type 0
AllNarrowPackets tk [] = Unit {0}
AllNarrowPackets tk (p ∷ ps) =
    (if p.kind == s2c_current_user_state
      then (length (tk.read_real_time p.body).friend_request ≤ 3)
      else Unit {0})
    × AllNarrowPackets tk ps

messages-NoState :
    (socket : ℕ) (ps : List Packet)
    → AllSendable ps
    → NoStatePackets ps
    → NoState (messages socket (map encode ps))
messages-NoState socket [] v n = tt
messages-NoState socket (p ∷ ps) v n =
    (rw (type_of-encode socket p v.0) n.0, messages-NoState socket ps v.1 n.1)

messages-AllNarrow :
    (tk : Toolkit) (socket : ℕ) (ps : List Packet)
    → AllSendable ps
    → AllNarrowPackets tk ps
    → AllNarrow tk (messages socket (map encode ps))
unfolding buffer_of write_le
messages-AllNarrow tk socket [] v n = tt
messages-AllNarrow tk socket (p ∷ ps) v n =
    (rw (type_of-encode socket p v.0) n.0, messages-AllNarrow tk socket ps v.1 n.1)

messages-append :
    (socket : ℕ) (front behind : List Packet) (p : Packet)
    → messages socket (map encode (front ++ p ∷ behind))
      ≡ messages socket (map encode front) ++ message socket p ∷ messages socket (map encode behind)
messages-append socket [] behind p = refl
messages-append socket (x ∷ front) behind p =
    ap (λ ms. message socket x ∷ ms) (messages-append socket front behind p)

last-IsSendable :
    (front behind : List Packet) (p : Packet)
    → AllSendable (front ++ p ∷ behind)
    → IsSendable p × AllSendable behind
last-IsSendable [] behind p v = v
last-IsSendable (x ∷ front) behind p v = last-IsSendable front behind p v.1

not_empty : (before behind : List Message) (m : Message) → 0 < length (before ++ m ∷ behind)
not_empty [] behind m = omega arith
not_empty (x ∷ before) behind m = omega arith

-- What a pass shows of packets that the client has received whole.
pass_shows :
    (tk : Toolkit) (f : DhNetWork) (c : Client) (over : Bool) (now socket : ℕ)
    (g : GamePlayLauncher) (front behind : List Packet) (p : Packet)
    → c.recv_queue ≡ messages socket (map encode (front ++ p ∷ behind))
    → AllSendable (front ++ p ∷ behind)
    → KeepsTexts tk
    → IsWide g.panel
    → (g.game.process && over) ≡ false
    → p.kind ≡ s2c_current_user_state
    → NoStatePackets behind
    → AllNarrowPackets tk (front ++ p ∷ behind)
    → (g1 : GamePlayLauncher) × (pass tk (client_api f c) over now g
        ≡ done (client_api f (record c { recv_queue = [] }), g1))
      × IsWide g1.panel
      × IsCurrent tk (tk.read_real_time p.body) g1
pass_shows tk f c over now socket g front behind p q v keeps w idle k n narrow =
    let (vp, vb) = last-IsSendable front behind p v in
    let before = messages socket (map encode front) in
    let after = messages socket (map encode behind) in
    let m = message socket p in
    let e = messages-append socket front behind p in
    let narrow' : AllNarrow tk (before ++ m ∷ after) =
      subst (AllNarrow tk) e (messages-AllNarrow tk socket (front ++ p ∷ behind) v narrow) in
    let (g1, run, w1, current) =
      take_messages_shows tk before after m (record g { line = check_line now g.line }) keeps w
        narrow' (type_of-encode socket p vp ∙ k) (messages-NoState socket behind vb n) in
    (
      g1,
      pass_takes tk f c over now g g1 (before ++ m ∷ after) (q ∙ e) (not_empty before after m) idle
          run,
      w1,
      subst (λ b. IsCurrent tk (tk.read_real_time b) g1) (buffer_of-encode socket p) current,
    )

module _ (os os' : Os) (accepts : AcceptsSends os) (accepts' : AcceptsReceives os') where
  -- A pass of SendThread has returned, for a server that had sent nothing on a client's socket and
  -- whose send queue held packets for this client only, which have a type and leave room in a receive
  -- buffer for one more transfer; the last of them that carries a state of a user's friends is `p`, and
  -- no state has more than three requests. The server's pool was made with ten objects or more, and
  -- Windows accepts each WSASend of the server and each receive of the client. However the bytes sent
  -- are cut into transfers of 1 to 2048 bytes, IOFunction_Recv of the client, with its socket structure,
  -- an empty receive queue and a well-formed empty overlapped, returns from all of them, and the next
  -- pass of RecvServerPacket of a launcher on this client, with its three places, a sorting of Qt that
  -- keeps the texts and a game that does not end, returns and makes it show the state that `p` carries.
  pub state_arrives :
      (s s' : Server) (socket q : ℕ) (front behind : List Packet) (p : Packet) (c : Client) (op : ℕ)
      (chunks : List (List ℕ)) (tk : Toolkit) (f : DhNetWork) (over : Bool) (now : ℕ)
      (g : GamePlayLauncher)
      → 10 ≤ s.overlapped_pool.sample_obj_count
      → AllSendable (front ++ p ∷ behind)
      → AllFit (front ++ p ∷ behind)
      → lookup socket s.connected ≡ some q
      → s.send_queue ≡ entries socket (front ++ p ∷ behind)
      → sent socket s.calls ≡ []
      → send_thread_pass os s ≡ done s'
      → HasSocket c
      → c.recv_queue ≡ []
      → IsValid (overlapped c op)
      → (overlapped c op).processed_packet_size ≡ 0
      → AllTransfers chunks
      → joined chunks ≡ sent socket s'.calls
      → KeepsTexts tk
      → IsWide g.panel
      → (g.game.process && over) ≡ false
      → p.kind ≡ s2c_current_user_state
      → NoStatePackets behind
      → AllNarrowPackets tk (front ++ p ∷ behind)
      → (c1 : Client) × (g1 : GamePlayLauncher) × (transfers os' op c chunks ≡ done c1)
        × (pass tk (client_api f c1) over now g
            ≡ done (client_api f (record c1 { recv_queue = [] }), g1))
        × IsWide g1.panel
        × IsCurrent tk (tk.read_real_time p.body) g1
  state_arrives s s' socket q front behind p c op chunks tk f over now g a v fit e k z run h empty
        valid clear t j keeps w idle kind n narrow =
      let (c1, came, queue, emptied, sound, same) =
        pass_then_client_received os os' accepts accepts' s s' socket q (front ++ p ∷ behind) c op
          chunks a v fit e k z run h valid clear t j in
      let (g1, shown, w1, current) =
        pass_shows tk f c1 over now (socket_number c) g front behind p
          (queue
            ∙ ap (λ l. l ++ messages (socket_number c) (map encode (front ++ p ∷ behind))) empty)
          v keeps w idle kind n narrow in
      (c1, g1, came, shown, w1, current)
