-- ===== src/Client/Send/Blocks.antt =====
-- The sending loop of SendFunction (DHClient.cpp): what goes out on the socket.
use dhserver.Base.{
  ℕ, suc, ◌+◌, ◌-◌, ◌*◌, ◌≤◌, ◌<◌, ◌≡◌, refl, ap, ◌∙◌, ◌⊎◌, inl, inr, true, false, List, ◌∷◌, ◌++◌,
  some, arith, length, take, ◌==◌, Bool-cases,
}
use dhserver.Base.Outcome.{done}
use dhserver.Shared.{Overlapped, SocketStruct, overlapped_bufize, invalid_socket}
use dhserver.ObjectPool.{reset_object}
use dhserver.ObjectPool.Lending.{Lent, get_object-Lent}
use dhserver.Server.{Os, Call, overlapped_object}
use dhserver.Server.Send.{block, block_size, fill}
use dhserver.Sender.{sent, BlocksFit, RefusesOne, filled, size_bounds}
use dhserver.Sender.Loop.{Sender, Sent, loop-Sends}
use dhserver.Client.{
  Client, overlapped, set_overlapped, emit, reset, socket_of, safe_close_socket, close_reset,
}
use dhserver.Client.Send.{send_blocks}

-- What sending leaves as it is, also where it closes the socket.
pub record SameQueues (c c' : Client) : Type 0 where
  pub same_sample : c'.overlapped_pool.sample_obj_count ≡ c.overlapped_pool.sample_obj_count
  pub same_recv_queue : c'.recv_queue ≡ c.recv_queue
  pub same_send_queue : c'.send_queue ≡ c.send_queue

pub SameQueues-trans : (s t u : Client) → SameQueues s t → SameQueues t u → SameQueues s u
SameQueues-trans s t u a b = record {
  same_sample = b.same_sample ∙ a.same_sample;
  same_recv_queue = b.same_recv_queue ∙ a.same_recv_queue;
  same_send_queue = b.same_send_queue ∙ a.same_send_queue;
}

-- The same, and the socket structure.
abbrev pub SameSocket : Client → Client → Type 0
SameSocket c c' = (c'.server_socket ≡ c.server_socket) × SameQueues c c'

pub SameSocket-self : (c : Client) → SameSocket c c
SameSocket-self c =
    (refl, record { same_sample = refl; same_recv_queue = refl; same_send_queue = refl })

-- The pool was made with ten or more, and the socket structure has the socket.
abbrev pub IsReady : ℕ → Client → Type 0
IsReady socket c =
    (10 ≤ c.overlapped_pool.sample_obj_count)
    × (x : SocketStruct) × (c.server_socket ≡ some x)
    × (x.socket ≡ socket)

module _ (os : Os) (socket : ℕ) where
  pub nothing_left :
      (fuel : ℕ) (c : Client) (packet : List ℕ) (offset : ℕ)
      → send_blocks (suc fuel) os c packet offset 0 ≡ done c
  unfolding send_blocks
  nothing_left fuel c packet offset = refl

  module _ (fuel : ℕ) (c : Client) (packet : List ℕ) (offset total : ℕ)
      (l : Lent overlapped_object c.overlapped_pool) (x : SocketStruct)
      (has : c.server_socket ≡ some x) (number : x.socket ≡ socket) (some_left : 0 < total)
      (within : offset * overlapped_bufize + total ≤ length packet) where
    abbrev c1 : Client
    c1 = record c { overlapped_pool = l.left }

    abbrev o : Overlapped
    o = fill (overlapped c1 l.object_at) socket packet offset (block_size total)

    abbrev c2 : Client
    c2 = set_overlapped c1 l.object_at o

    abbrev call : Call
    call = Call.wsa_send socket l.object_at (take o.wsabuf_len o.buffer)

    call-block : call ≡ Call.wsa_send socket l.object_at (block packet offset (block_size total))
    call-block =
        let b = size_bounds total some_left in
        ap (Call.wsa_send socket l.object_at) (
          filled (overlapped c1 l.object_at) socket packet offset (block_size total) b.0
            (omega (arith, b)))

    number_of : socket_of c ≡ done socket
    unfolding socket_of
    number_of = rw (has, socket_of) (ap done number)

    -- The client whose socket is closed behind the refused call.
    abbrev closed : Client
    closed =
        reset
          (record (emit (emit (emit c2 (Call.failed call)) (Call.shutdown x.socket))
            (Call.closesocket x.socket)) {
              server_socket = some (record x { socket = invalid_socket });
              is_server_connect_success = false;
            })
          l.object_at

    closes : close_reset (emit c2 (Call.failed call)) l.object_at ≡ done closed
    unfolding close_reset safe_close_socket
    closes = rw (has, safe_close_socket) refl

    round_refused :
        os.pending c2.calls call ≡ false
        → send_blocks (suc fuel) os c packet offset total ≡ done closed
    unfolding send_blocks
    round_refused e =
        let z : total == 0 ≡ false = ground arith in
        rw (z, send_blocks) (rw l.got (rw number_of (rw e closes)))

    round_taken :
        os.pending c2.calls call ≡ true
        → send_blocks (suc fuel) os c packet offset total
          ≡ send_blocks fuel os (emit c2 call) packet (offset + 1) (total - block_size total)
    unfolding send_blocks
    round_taken e =
        let z : total == 0 ≡ false = ground arith in
        rw (z, send_blocks) (rw l.got (rw number_of (rw e refl)))

    kept : SameSocket c (emit c2 call)
    kept = (
      refl,
      record { same_sample = l.same_sample; same_recv_queue = refl; same_send_queue = refl },
    )

    kept_refused : SameQueues c closed
    unfolding reset_object
    kept_refused = record {
      same_sample = l.same_sample;
      same_recv_queue = refl;
      same_send_queue = refl;
    }

    -- The round, by what Windows answers.
    pub round :
        ((t : Client) × (op : ℕ) × (send_blocks (suc fuel) os c packet offset total
            ≡ send_blocks fuel os t packet (offset + 1) (total - block_size total))
          × (t.calls ≡ Call.wsa_send socket op (block packet offset (block_size total)) ∷ c.calls)
          × SameSocket c t)
        ⊎ ((t : Client) × (send_blocks (suc fuel) os c packet offset total ≡ done t)
            × (sent socket t.calls ≡ sent socket c.calls)
            × (BlocksFit c.calls → BlocksFit t.calls)
            × RefusesOne os
            × SameQueues c t)
    unfolding sent BlocksFit
    round = elim (Bool-cases (os.pending c2.calls call)) [
      | inl e ↦
          inl (emit c2 call, l.object_at, round_taken e, ap (λ y. y ∷ c.calls) call-block, kept)
      | inr e ↦ inr (
        closed,
        round_refused e,
        refl,
        (λ f. f),
        (c2.calls, socket, l.object_at, take o.wsabuf_len o.buffer, e),
        kept_refused,
      )
    ]

  -- The loop of SendFunction as a sender.
  abbrev pub sender : Sender Client os
  sender = record {
    socket = socket;
    calls = λ c. c.calls;
    Ready = IsReady socket;
    Kept = SameSocket;
    Weak = SameQueues;
    loop = λ fuel c packet offset total. send_blocks fuel os c packet offset total;
    kept_ready = λ s t k (a, x, e, n). (omega (arith, k.1.same_sample), x, k.0 ∙ e, n);
    kept_self = SameSocket-self;
    kept_trans = λ s t u a b. (b.0 ∙ a.0, SameQueues-trans s t u a.1 b.1);
    weak = λ s t k. k.1;
    weak_trans = SameQueues-trans;
    ends = nothing_left;
    round = λ fuel c packet offset total (a, x, e, n) z w.
        round fuel c packet offset total (get_object-Lent overlapped_object c.overlapped_pool a) x e
          n z w;
  }

  pub client_blocks_from :
      (c : Client) (packet : List ℕ) (total : ℕ)
      → IsReady socket c
      → total ≤ length packet
      → (c' : Client) × (send_blocks (suc total) os c packet 0 total ≡ done c')
        × Sent os sender c packet 0 total c'
  client_blocks_from c packet total a h =
      loop-Sends os sender (suc total) c packet 0 total a (omega arith) (λ z. omega arith)

  -- The client has its socket structure and a pool of overlapped structures that was made with ten
  -- or more, and the packet lies whole in memory: whatever Windows answers, the sending loop of
  -- SendFunction ends, and what it has sent on the socket behind the earlier bytes are the first
  -- `count` bytes of the packet, in order. The queues are as before.
  pub client_blocks-sent :
      (c : Client) (packet : List ℕ) (total : ℕ)
      → IsReady socket c
      → total ≤ length packet
      → (c' : Client) × (count : ℕ) × (send_blocks (suc total) os c packet 0 total ≡ done c')
        × (count ≤ total)
        × (sent socket c'.calls ≡ sent socket c.calls ++ take count packet)
        × (c'.recv_queue ≡ c.recv_queue)
        × (c'.send_queue ≡ c.send_queue)
  client_blocks-sent c packet total a h =
      let (c', run, r) = client_blocks_from c packet total a h in
      (c', r.count, run, r.within, r.bytes, r.keeps.same_recv_queue, r.keeps.same_send_queue)
