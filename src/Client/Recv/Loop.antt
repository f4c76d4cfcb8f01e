-- ===== src/Client/Recv/Loop.antt =====
-- The receive loop of IOFunction_Recv (DHClient.cpp) cuts what is in the buffer into packets as
-- Shared.Reassembly does.
use dhserver.Base.{
  ℕ, suc, ◌≤◌, ◌<◌, ◌≡◌, ap, ◌∙◌, Bool, true, false, List, [], ◌∷◌, ◌++◌, some, length, take, drop,
  update_self, update_twice, ◌==◌, lt→ltb, le→ltb,
}
use dhserver.Base.Outcome.{Outcome, done, fault}
use dhserver.Shared.{Overlapped, SocketStruct, Message, packet_header_size, packet_type_none}
use dhserver.Shared.Reassembly.{Verdict, cut}
use dhserver.Shared.Bytes.{read_le}
use dhserver.Server.Recv.{waiting, complete, head, pull}
use dhserver.Server.Recv.Buffer.{IsValid, unprocessed}
use dhserver.Receiver.{Receiver, messages, ended, go_on, settle, loop-Cuts}
use dhserver.Client.{Client, overlapped, set_overlapped, socket_of, close_reset}
use dhserver.Client.Recv.{push_recv_data, recv_loop}

-- The client once the handler has filled the queue up to `queue` and left `o` at `op`.
abbrev pub absorb : Client → ℕ → List Message → Overlapped → Client
absorb c op queue o = set_overlapped (record c { recv_queue = queue }) op o

-- How the loop ends, by the verdict: it goes on to post a receive, it closes the connection, or the
-- read of a packet's type runs over its block.
unfoldable pub conclude : Verdict → Client → ℕ → Outcome (Bool × Client)
unfolding settle
conclude verdict c op = settle (λ x. close_reset x op) verdict c

socket_of-some :
    (c : Client) (x : SocketStruct) → c.server_socket ≡ some x → socket_of c ≡ done x.socket
unfolding socket_of
socket_of-some c x e = rw e

-- The branches of Push_RecvData.
push_typed :
    (c : Client) (packet : List ℕ) (op n k : ℕ)
    → socket_of c ≡ done k
    → packet_header_size ≤ length packet
    → read_le 2 (drop 8 packet) == packet_type_none ≡ false
    → push_recv_data c packet op n
      ≡ done (
        true,
        set_overlapped
            (record c { recv_queue = c.recv_queue ++ messages k (packet ∷ []) })
            op
            (pull (overlapped c op) n),
      )
unfolding push_recv_data
push_typed c packet op n k s h e = rw (le→ltb _ _ h, e, s)

push_typeless :
    (c : Client) (packet : List ℕ) (op n : ℕ)
    → packet_header_size ≤ length packet
    → read_le 2 (drop 8 packet) == packet_type_none ≡ true
    → push_recv_data c packet op n ≡ ended (close_reset c op)
unfolding push_recv_data
push_typeless c packet op n h e = rw (le→ltb _ _ h, e)

push_short :
    (c : Client) (packet : List ℕ) (op n : ℕ)
    → length packet < packet_header_size
    → push_recv_data c packet op n ≡ fault
unfolding push_recv_data
push_short c packet op n h = rw (lt→ltb _ _ h)

-- A round of the loop.
round_waiting :
    (fuel : ℕ) (c : Client) (op : ℕ)
    → head (overlapped c op) ≡ waiting
    → recv_loop (suc fuel) c op ≡ done (true, c)
unfolding recv_loop
round_waiting fuel c op e = rw (e, recv_loop)

round_complete :
    (fuel : ℕ) (c : Client) (op n : ℕ) (r : Outcome (Bool × Client))
    → head (overlapped c op) ≡ complete n
    → push_recv_data c (take n (overlapped c op).processing_packet_buffer) op n ≡ r
    → recv_loop (suc fuel) c op ≡ go_on r (λ c1. recv_loop fuel c1 op)
unfolding recv_loop
round_complete fuel c op n r e p = rw (e, recv_loop) (rw p)

module _ (c : Client) (x : SocketStruct) (open_socket : c.server_socket ≡ some x) (op : ℕ) where
  abbrev at : List Message → Overlapped → Client
  at queue o = absorb c op queue o

  overlapped-at : (queue : List Message) (o : Overlapped) → overlapped (at queue o) op ≡ o
  overlapped-at queue o = update_self c.overlapped_pool.mem op o

  -- A second write to the overlapped and the queue replaces the first.
  set_at :
      (queue queue' : List Message) (o o' : Overlapped)
      → set_overlapped (record (at queue o) { recv_queue = queue' }) op o' ≡ at queue' o'
  set_at queue queue' o o' =
      ap
        (λ m. record c {
          recv_queue = queue';
          overlapped_pool = record c.overlapped_pool { mem = m };
        })
        (update_twice c.overlapped_pool.mem op o o')

  -- The loop as a receiver.
  abbrev receiver : Receiver Client
  receiver = record {
    at = at;
    socket = x.socket;
    closes = λ y. close_reset y op;
    push = λ y packet n. push_recv_data y packet op n;
    loop = λ fuel y. recv_loop fuel y op;
    waits =
        λ fuel queue o e. round_waiting fuel (at queue o) op (ap head (overlapped-at queue o) ∙ e);
    completes = λ fuel queue o n r e p.
        round_complete fuel (at queue o) op n r (ap head (overlapped-at queue o) ∙ e) (
          ap
            (λ (y : Overlapped).
              push_recv_data (at queue o) (take n y.processing_packet_buffer) op n)
            (overlapped-at queue o)
          ∙ p);
    typed = λ queue o packet n h e.
        push_typed (at queue o) packet op n x.socket (socket_of-some (at queue o) x open_socket) h e
        ∙ ap (λ t. done (true, t)) (rw (overlapped-at queue o) (set_at queue _ o (pull o n)));
    typeless = λ queue o packet n h e. push_typeless (at queue o) packet op n h e;
    short = λ queue o packet n h. push_short (at queue o) packet op n h;
  }

  -- The client has its socket structure. From a well-formed overlapped, and with more fuel than bytes
  -- to process, the receive loop of the client's IOFunction_Recv ends as cutting the unprocessed
  -- bytes into packets says, by the same cut as the server's. It adds these packets to the queue as
  -- messages of the socket, and leaves the overlapped well formed, on the same socket, with the rest
  -- of the cut unprocessed. Then it goes on to post a receive where the cut waits for more, closes
  -- the connection where a packet has no type, and reads behind a block where a size wraps.
  pub client_loop-cut :
      (fuel : ℕ) (queue : List Message) (o : Overlapped)
      → IsValid o
      → o.processed_packet_size < fuel
      → let r = cut fuel (unprocessed o) in
        (o' : Overlapped) × IsValid o'
        × (unprocessed o' ≡ r.rest)
        × (o'.socket ≡ o.socket)
        × (recv_loop fuel (at queue o) op
            ≡ conclude r.verdict (at (queue ++ messages x.socket r.packets) o') op)
  unfolding conclude
  client_loop-cut fuel queue o v h = loop-Cuts receiver fuel queue o v h
