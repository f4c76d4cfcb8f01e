-- ===== src/Receiver/Line.antt =====
-- From packets to messages: a stream of packets, cut into transfers in any way, comes out of a
-- receiving side as its packets. The two IOFunction_Recv (DHServer.cpp, DHClient.cpp) fill the
-- interface.
use dhserver.Base.{
  ℕ, suc, ◌+◌, ◌≤◌, ◌<◌, ◌≡◌, refl, sym, ap, ◌∙◌, List, [], ◌∷◌, ◌++◌, map, arith, length,
  append_assoc, append-nil, take, length-append,
}
use mathlib.Core.List.{map-append}
use dhserver.Base.Outcome.{Outcome, done, ◌>>=◌}
use dhserver.Shared.{Overlapped, Message, max_packet_size, overlapped_bufize}
use dhserver.Shared.Packet.{Packet, encode, stream, AllSendable}
use dhserver.Shared.Reassembly.{part, front, more, cut}
use dhserver.Shared.Reassembly.Prefix.{AllFit, cut-Arrived, stream_waits, front-nil}
use dhserver.Server.Recv.Buffer.{IsValid, unprocessed, length-unprocessed}
use dhserver.Receiver.{messages}

-- The bytes of several transfers.
abbrev pub joined : List (List ℕ) → List ℕ
joined [] = []
joined (c ∷ cs) = c ++ joined cs

-- A transfer is neither empty nor larger than the buffer that was given to WSARecv.
abbrev pub AllTransfers : List (List ℕ) → Type 0
AllTransfers [] = Unit {0}
AllTransfers (c ∷ cs) = (0 < length c) × (length c ≤ overlapped_bufize) × AllTransfers cs

-- The transfers of a connection in their order.
unfoldable pub each {ℓ} : {S : Type ℓ} → (S → List ℕ → Outcome S) → S → List (List ℕ) → Outcome S
each step s [] = done s
each step s (c ∷ cs) = step s c >>= λ s1. each step s1 cs

each-cons {ℓ} :
    {S : Type ℓ} (step : S → List ℕ → Outcome S) (s s1 : S) (c : List ℕ) (cs : List (List ℕ))
    → step s c ≡ done s1
    → each step s (c ∷ cs) ≡ each step s1 cs
unfolding each
each-cons step s s1 c cs e = rw e

-- A side of a connection: what takes a transfer, its overlapped, its queue and its socket.
pub record Side (S : Type 0) : Type 0 where
  pub transfer : S → List ℕ → Outcome S
  pub overlapped : S → Overlapped
  pub queue : S → List Message
  pub socket : S → ℕ

-- A transfer has added the messages of the packets to the queue, and leaves `rest` in the buffer.
pub record Delivery {S : Type 0} (l : Side S) (s : S) (packets : List (List ℕ)) (rest : List ℕ)
    (s' : S) : Type 0 where
  pub queued : l.queue s' ≡ l.queue s ++ messages (l.socket s) packets
  pub valid : IsValid (l.overlapped s')
  pub left : unprocessed (l.overlapped s') ≡ rest
  pub same_socket : l.socket s' ≡ l.socket s

-- A side that delivers where it is ready, and keeps what `Same` says.
pub record Line {S : Type 0} (Ready : S → Type 0) (Same : S → S → Type 0) (l : Side S)
    : Type 0 where
  pub same_ready : (s t : S) → Same s t → Ready s → Ready t
  pub same_self : (s : S) → Same s s
  pub same_trans : (s t u : S) → Same s t → Same t u → Same s u
  pub delivers :
      (s : S) (bytes : List ℕ)
      → Ready s
      → 0 < length bytes
      → length bytes ≤ overlapped_bufize
      → IsValid (l.overlapped s)
      → (l.overlapped s).processed_packet_size + length bytes ≤ max_packet_size
      → let c =
          cut
            (suc ((l.overlapped s).processed_packet_size + length bytes))
            (unprocessed (l.overlapped s) ++ bytes) in
        c.verdict ≡ more
        → (s' : S) × (l.transfer s bytes ≡ done s') × Delivery l s c.packets c.rest s' × Same s s'

-- The messages of the packets at the front, and then those of the others.
join_queues :
    (q q1 q2 : List Message) (socket socket1 : ℕ) (packets : List (List ℕ))
    (taken left ps : List Packet)
    → q1 ≡ q ++ messages socket packets
    → socket1 ≡ socket
    → packets ≡ map encode taken
    → ps ≡ taken ++ left
    → q2 ≡ q1 ++ messages socket1 (map encode left)
    → q2 ≡ q ++ messages socket (map encode ps)
join_queues q q1 q2 socket socket1 packets taken left ps a b c d e =
    rw (e, a, b, c, d, map-append, map-append, append_assoc) refl

-- Packets that have arrived whole: their messages are in the queue, and nothing is left.
abbrev pub Whole : {S : Type 0} → (S → S → Type 0) → Side S → S → List Packet → S → Type 0
Whole Same l s ps s' =
    (l.queue s' ≡ l.queue s ++ messages (l.socket s) (map encode ps))
    × (unprocessed (l.overlapped s') ≡ [])
    × IsValid (l.overlapped s')
    × Same s s'

module _ {S : Type 0} (Ready : S → Type 0) (Same : S → S → Type 0) (l : Side S)
    (line : Line Ready Same l) where
  from_waiting :
      (chunks : List (List ℕ)) (s : S) (ps : List Packet)
      → Ready s
      → AllTransfers chunks
      → AllSendable ps
      → AllFit ps
      → IsValid (l.overlapped s)
      → front (unprocessed (l.overlapped s)) ≡ part
      → (l.overlapped s).processed_packet_size + overlapped_bufize ≤ max_packet_size
      → unprocessed (l.overlapped s) ++ joined chunks ≡ stream ps
      → (s' : S) × (each l.transfer s chunks ≡ done s') × Whole Same l s ps s'
  unfolding each
  from_waiting [] s ps ready t v f valid waits room e =
      let u : unprocessed (l.overlapped s) ≡ stream ps = sym (append-nil _) ∙ e in
      let z : ps ≡ [] = stream_waits ps v (ap front (sym u) ∙ waits) in
      (
        s,
        refl,
        (
          sym (ap (λ xs. l.queue s ++ messages (l.socket s) (map encode xs)) z ∙ append-nil _),
          u ∙ ap stream z,
          valid,
          line.same_self s,
        ),
      )
  from_waiting (c ∷ cs) s ps ready t v f valid waits room e =
      let o = l.overlapped s in
      let n = length-unprocessed o valid in
      let a =
        cut-Arrived (suc (o.processed_packet_size + length c)) (unprocessed o ++ c) (joined cs) ps v
          f (append_assoc (unprocessed o) c (joined cs) ∙ e)
          (omega (arith, length-append (unprocessed o) c)) in
      let (s1, run, d, same1) = line.delivers s c ready t.0 t.1 valid (omega arith) a.fine in
      let (s2, run2, (queued, emptied, valid2, same2)) =
        from_waiting cs s1 a.left (line.same_ready s s1 same1 ready) t.2 a.left_sendable a.left_fit
          d.valid (ap front d.left ∙ a.waits)
          (omega (arith, length-unprocessed (l.overlapped s1) d.valid, ap length d.left, a.short))
          (ap (λ x. x ++ joined cs) d.left ∙ a.rest) in
      (
        s2,
        each-cons l.transfer s s1 c cs run ∙ run2,
        (
          join_queues (l.queue s) (l.queue s1) (l.queue s2) (l.socket s) (l.socket s1) _ a.taken
              a.left ps d.queued d.same_socket a.packets a.split queued,
          emptied,
          valid2,
          line.same_trans s s1 s2 same1 same2,
        ),
      )

  -- The stream of packets that fit, from an empty buffer on.
  pub stream-Whole :
      (s : S) (ps : List Packet) (chunks : List (List ℕ))
      → Ready s
      → IsValid (l.overlapped s)
      → (l.overlapped s).processed_packet_size ≡ 0
      → AllTransfers chunks
      → AllSendable ps
      → AllFit ps
      → joined chunks ≡ stream ps
      → (s' : S) × (each l.transfer s chunks ≡ done s') × Whole Same l s ps s'
  stream-Whole s ps chunks ready valid empty t v f e =
      let u : unprocessed (l.overlapped s) ≡ [] =
        ap (λ n. take n (l.overlapped s).processing_packet_buffer) empty in
      from_waiting chunks s ps ready t v f valid (ap front u ∙ front-nil) (omega arith)
        (ap (λ x. x ++ joined chunks) u ∙ e)
