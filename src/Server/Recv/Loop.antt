-- ===== src/Server/Recv/Loop.antt =====
-- The receive loop of IOFunction_Recv (DHServer.cpp) cuts what is in the buffer into packets as
-- Shared.Reassembly does.
use dhserver.Base.{
  ℕ, suc, ◌≤◌, ◌<◌, ◌≡◌, ap, ◌∙◌, Bool, true, false, List, [], ◌∷◌, ◌++◌, length, take, drop,
  update_self, update_twice, ◌==◌, lt→ltb, le→ltb,
}
use dhserver.Base.Outcome.{Outcome, done, fault}
use dhserver.Shared.{Overlapped, Message, packet_header_size, packet_type_none}
use dhserver.Shared.Reassembly.{Verdict, cut}
use dhserver.Shared.Bytes.{read_le}
use dhserver.Server.{Server, Os, overlapped, set_overlapped}
use dhserver.Server.Sockets.{end_client_reset}
use dhserver.Server.Recv.{waiting, complete, head, pull, push_recv_data, recv_loop}
use dhserver.Server.Recv.Buffer.{IsValid, unprocessed}
use dhserver.Receiver.{Receiver, messages, ended, go_on, settle, loop-Cuts}

-- The server once the handler has filled the queue up to `queue` and left `o` at `op`.
abbrev pub absorb : Server → ℕ → List Message → Overlapped → Server
absorb s op queue o = set_overlapped (record s { recv_queue = queue }) op o

-- How the loop ends, by the verdict: it goes on to post a receive, it ends the client, or the
-- read of a packet's type runs over its block.
unfoldable pub conclude : Os → Verdict → Server → ℕ → ℕ → Outcome (Bool × Server)
unfolding settle
conclude os verdict s sp op = settle (λ x. end_client_reset os x (x.structs sp).socket op) verdict s

-- The branches of Push_RecvData.
push_typed :
    (os : Os) (s : Server) (packet : List ℕ) (sp op n : ℕ)
    → packet_header_size ≤ length packet
    → read_le 2 (drop 8 packet) == packet_type_none ≡ false
    → push_recv_data os s packet sp op n
      ≡ done (
        true,
        set_overlapped
            (record s { recv_queue = s.recv_queue ++ messages (s.structs sp).socket (packet ∷ []) })
            op
            (pull (overlapped s op) n),
      )
unfolding push_recv_data
push_typed os s packet sp op n h e = rw (le→ltb _ _ h, e)

push_untyped :
    (os : Os) (s : Server) (packet : List ℕ) (sp op n : ℕ)
    → packet_header_size ≤ length packet
    → read_le 2 (drop 8 packet) == packet_type_none ≡ true
    → push_recv_data os s packet sp op n ≡ ended (end_client_reset os s (s.structs sp).socket op)
unfolding push_recv_data
push_untyped os s packet sp op n h e = rw (le→ltb _ _ h, e)

push_short :
    (os : Os) (s : Server) (packet : List ℕ) (sp op n : ℕ)
    → length packet < packet_header_size
    → push_recv_data os s packet sp op n ≡ fault
unfolding push_recv_data
push_short os s packet sp op n h = rw (lt→ltb _ _ h)

-- A round of the loop.
round_waiting :
    (fuel : ℕ) (os : Os) (s : Server) (sp op : ℕ)
    → head (overlapped s op) ≡ waiting
    → recv_loop (suc fuel) os s sp op ≡ done (true, s)
unfolding recv_loop
round_waiting fuel os s sp op e = rw (e, recv_loop)

round_complete :
    (fuel : ℕ) (os : Os) (s : Server) (sp op n : ℕ) (o : Outcome (Bool × Server))
    → head (overlapped s op) ≡ complete n
    → push_recv_data os s (take n (overlapped s op).processing_packet_buffer) sp op n ≡ o
    → recv_loop (suc fuel) os s sp op ≡ go_on o (λ s1. recv_loop fuel os s1 sp op)
unfolding recv_loop
round_complete fuel os s sp op n o e p = rw (e, recv_loop) (rw p)

module _ (os : Os) (s : Server) (sp op : ℕ) where
  abbrev at : List Message → Overlapped → Server
  at queue o = absorb s op queue o

  overlapped-at : (queue : List Message) (o : Overlapped) → overlapped (at queue o) op ≡ o
  overlapped-at queue o = update_self s.overlapped_pool.mem op o

  -- A second write to the overlapped and the queue replaces the first.
  set_at :
      (queue queue' : List Message) (o o' : Overlapped)
      → set_overlapped (record (at queue o) { recv_queue = queue' }) op o' ≡ at queue' o'
  set_at queue queue' o o' =
      ap
        (λ m. record s {
          recv_queue = queue';
          overlapped_pool = record s.overlapped_pool { mem = m };
        })
        (update_twice s.overlapped_pool.mem op o o')

  abbrev client : ℕ
  client = (s.structs sp).socket

  -- The loop as a receiver.
  abbrev receiver : Receiver Server
  receiver = record {
    at = at;
    socket = client;
    closes = λ x. end_client_reset os x (x.structs sp).socket op;
    push = λ x packet n. push_recv_data os x packet sp op n;
    loop = λ fuel x. recv_loop fuel os x sp op;
    waits = λ fuel queue o e.
        round_waiting fuel os (at queue o) sp op (ap head (overlapped-at queue o) ∙ e);
    completes = λ fuel queue o n r e p.
        round_complete fuel os (at queue o) sp op n r (ap head (overlapped-at queue o) ∙ e) (
          ap
            (λ (x : Overlapped).
              push_recv_data os (at queue o) (take n x.processing_packet_buffer) sp op n)
            (overlapped-at queue o)
          ∙ p);
    typed = λ queue o packet n h e.
        push_typed os (at queue o) packet sp op n h e
        ∙ ap (λ t. done (true, t)) (rw (overlapped-at queue o) (set_at queue _ o (pull o n)));
    typeless = λ queue o packet n h e. push_untyped os (at queue o) packet sp op n h e;
    short = λ queue o packet n h. push_short os (at queue o) packet sp op n h;
  }

  -- What the loop does from the buffer of `o`, told by the cutting of the bytes `xs`.
  abbrev Cuts : ℕ → List Message → Overlapped → List ℕ → Type 0
  Cuts fuel queue o xs =
      let c = cut fuel xs in
      (o' : Overlapped) × IsValid o'
      × (unprocessed o' ≡ c.rest)
      × (o'.socket ≡ o.socket)
      × (recv_loop fuel os (at queue o) sp op
          ≡ conclude os c.verdict (at (queue ++ messages client c.packets) o') sp op)

  -- From a well-formed overlapped, and with more fuel than bytes to process, the receive loop of
  -- IOFunction_Recv ends as cutting the unprocessed bytes into packets says. It adds these packets to
  -- the queue as messages of the client, and leaves the overlapped well formed, on the same socket,
  -- with the rest of the cut unprocessed. Then it goes on to post a receive where the cut waits for
  -- more, ends the client where a packet has no type, and reads behind a block where a size wraps.
  pub recv_loop-cut :
      (fuel : ℕ) (queue : List Message) (o : Overlapped)
      → IsValid o
      → o.processed_packet_size < fuel
      → Cuts fuel queue o (unprocessed o)
  unfolding conclude
  recv_loop-cut fuel queue o v h = loop-Cuts receiver fuel queue o v h
