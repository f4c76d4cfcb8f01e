-- ===== src/Server/Send/Blocks.antt =====
-- The sending loop of SendThread (DHServer.cpp): what goes out on a socket.
use dhserver.Base.{
  ℕ, suc, ◌+◌, ◌-◌, ◌*◌, ◌≤◌, ◌<◌, ◌≡◌, refl, ap, ◌∙◌, ◌⊎◌, inl, inr, true, false, List, ◌∷◌, ◌++◌,
  arith, length, take, ◌==◌, Bool-cases, subst,
}
use dhserver.Base.Outcome.{done}
use dhserver.Shared.{Overlapped, overlapped_bufize}
use dhserver.ObjectPool.{reset_object}
use dhserver.ObjectPool.Lending.{Lent, get_object-Lent}
use dhserver.Server.{Server, Os, Call, overlapped, set_overlapped, emit, overlapped_object}
use dhserver.Server.Sockets.{reset}
use dhserver.Server.Send.{block, block_size, fill, send_blocks}
use dhserver.Sender.{sent, BlocksFit, AcceptsSends, RefusesOne, filled, size_bounds}
use dhserver.Sender.Loop.{Sender, Sent, loop-Sends}

-- What sending leaves as it is.
pub record Same (s s' : Server) : Type 0 where
  pub same_sample : s'.overlapped_pool.sample_obj_count ≡ s.overlapped_pool.sample_obj_count
  pub same_recv_queue : s'.recv_queue ≡ s.recv_queue
  pub same_connected : s'.connected ≡ s.connected
  pub same_structs : s'.structs ≡ s.structs

pub Same-self : (s : Server) → Same s s
Same-self s = record {
  same_sample = refl;
  same_recv_queue = refl;
  same_connected = refl;
  same_structs = refl;
}

pub Same-trans : (s t u : Server) → Same s t → Same t u → Same s u
Same-trans s t u a b = record {
  same_sample = b.same_sample ∙ a.same_sample;
  same_recv_queue = b.same_recv_queue ∙ a.same_recv_queue;
  same_connected = b.same_connected ∙ a.same_connected;
  same_structs = b.same_structs ∙ a.same_structs;
}

-- The pool of overlapped structures was made with ten or more.
abbrev IsReady : Server → Type 0
IsReady s = 10 ≤ s.overlapped_pool.sample_obj_count

module _ (os : Os) (socket : ℕ) where
  pub nothing_left :
      (fuel : ℕ) (s : Server) (packet : List ℕ) (offset : ℕ)
      → send_blocks (suc fuel) os s socket packet offset 0 ≡ done s
  unfolding send_blocks
  nothing_left fuel s packet offset = refl

  module _ (fuel : ℕ) (s : Server) (packet : List ℕ) (offset total : ℕ)
      (l : Lent overlapped_object s.overlapped_pool) (some_left : 0 < total)
      (within : offset * overlapped_bufize + total ≤ length packet) where
    abbrev s1 : Server
    s1 = record s { overlapped_pool = l.left }

    abbrev o : Overlapped
    o = fill (overlapped s1 l.object_at) socket packet offset (block_size total)

    abbrev s2 : Server
    s2 = set_overlapped s1 l.object_at o

    abbrev c : Call
    c = Call.wsa_send socket l.object_at (take o.wsabuf_len o.buffer)

    c-block : c ≡ Call.wsa_send socket l.object_at (block packet offset (block_size total))
    c-block =
        let b = size_bounds total some_left in
        ap (Call.wsa_send socket l.object_at) (
          filled (overlapped s1 l.object_at) socket packet offset (block_size total) b.0
            (omega (arith, b)))

    round_refused :
        os.pending s2.calls c ≡ false
        → send_blocks (suc fuel) os s socket packet offset total
          ≡ done (reset (emit s2 (Call.failed c)) l.object_at)
    unfolding send_blocks
    round_refused e =
        let z : total == 0 ≡ false = ground arith in rw (z, send_blocks) (rw l.got (rw e refl))

    round_taken :
        os.pending s2.calls c ≡ true
        → send_blocks (suc fuel) os s socket packet offset total
          ≡ send_blocks fuel os (emit s2 c) socket packet (offset + 1) (total - block_size total)
    unfolding send_blocks
    round_taken e =
        let z : total == 0 ≡ false = ground arith in rw (z, send_blocks) (rw l.got (rw e refl))

    kept : Same s (emit s2 c)
    kept = record {
      same_sample = l.same_sample;
      same_recv_queue = refl;
      same_connected = refl;
      same_structs = refl;
    }

    kept_refused : Same s (reset (emit s2 (Call.failed c)) l.object_at)
    unfolding reset_object
    kept_refused = record {
      same_sample = l.same_sample;
      same_recv_queue = refl;
      same_connected = refl;
      same_structs = refl;
    }

    -- The round, by what Windows answers.
    pub round :
        ((t : Server) × (op : ℕ) × (send_blocks (suc fuel) os s socket packet offset total
            ≡ send_blocks fuel os t socket packet (offset + 1) (total - block_size total))
          × (t.calls ≡ Call.wsa_send socket op (block packet offset (block_size total)) ∷ s.calls)
          × Same s t)
        ⊎ ((t : Server) × (send_blocks (suc fuel) os s socket packet offset total ≡ done t)
            × (sent socket t.calls ≡ sent socket s.calls)
            × (BlocksFit s.calls → BlocksFit t.calls)
            × RefusesOne os
            × Same s t)
    unfolding sent BlocksFit
    round = elim (Bool-cases (os.pending s2.calls c)) [
      | inl e ↦ inl (emit s2 c, l.object_at, round_taken e, ap (λ x. x ∷ s.calls) c-block, kept)
      | inr e ↦ inr (
        reset (emit s2 (Call.failed c)) l.object_at,
        round_refused e,
        refl,
        (λ f. f),
        (s2.calls, socket, l.object_at, take o.wsabuf_len o.buffer, e),
        kept_refused,
      )
    ]

  -- The loop of SendThread as a sender.
  abbrev pub sender : Sender Server os
  sender = record {
    socket = socket;
    calls = λ s. s.calls;
    Ready = IsReady;
    Kept = Same;
    Weak = Same;
    loop = λ fuel s packet offset total. send_blocks fuel os s socket packet offset total;
    kept_ready = λ s t k a. omega (arith, k.same_sample);
    kept_self = Same-self;
    kept_trans = Same-trans;
    weak = λ s t k. k;
    weak_trans = Same-trans;
    ends = nothing_left;
    round = λ fuel s packet offset total a z w.
        round fuel s packet offset total (get_object-Lent overlapped_object s.overlapped_pool a) z
          w;
  }

module _ (os : Os) (socket : ℕ) (packet : List ℕ) where
  -- The loop ends, whatever Windows answers.
  pub send_blocks_from :
      (fuel : ℕ) (s : Server) (offset total : ℕ)
      → 10 ≤ s.overlapped_pool.sample_obj_count
      → total < fuel
      → (0 < total → offset * overlapped_bufize + total ≤ length packet)
      → (s' : Server) × (send_blocks fuel os s socket packet offset total ≡ done s')
        × Sent os (sender os socket) s packet offset total s'
  send_blocks_from fuel s offset total a h w =
      loop-Sends os (sender os socket) fuel s packet offset total a h w

  -- A packet that lies whole in memory, and a pool of overlapped structures that was made with ten
  -- or more: whatever Windows answers, the sending loop of SendThread ends, and what it has sent on
  -- the socket behind the earlier bytes are the first `count` bytes of the packet, in order. All
  -- blocks sent are as large as a buffer at most, if the earlier ones were.
  pub send_blocks-sent :
      (s : Server) (total : ℕ)
      → 10 ≤ s.overlapped_pool.sample_obj_count
      → total ≤ length packet
      → BlocksFit s.calls
      → (s' : Server) × (count : ℕ) × (send_blocks (suc total) os s socket packet 0 total ≡ done s')
        × (count ≤ total)
        × (sent socket s'.calls ≡ sent socket s.calls ++ take count packet)
        × BlocksFit s'.calls
  send_blocks-sent s total a h f =
      let (s', run, r) =
        send_blocks_from (suc total) s 0 total a (omega arith) (λ z. omega arith) in
      (s', r.count, run, r.within, r.bytes, r.fit f)

  -- A packet that lies whole in memory, a pool of overlapped structures that was made with ten or
  -- more, and Windows accepts every WSASend: the loop ends and has sent all of the packet on the
  -- socket behind the earlier bytes, and the receive queue, the connected clients and the structures
  -- of the sockets are as before.
  pub send_blocks_all :
      (s : Server) (total : ℕ)
      → 10 ≤ s.overlapped_pool.sample_obj_count
      → total ≤ length packet
      → AcceptsSends os
      → (s' : Server) × (send_blocks (suc total) os s socket packet 0 total ≡ done s')
        × (sent socket s'.calls ≡ sent socket s.calls ++ take total packet)
        × (s'.recv_queue ≡ s.recv_queue)
        × (s'.connected ≡ s.connected)
        × (s'.structs ≡ s.structs)
  send_blocks_all s total a h g =
      let (s', run, r) =
        send_blocks_from (suc total) s 0 total a (omega arith) (λ z. omega arith) in
      (
        s',
        run,
        subst (λ n. sent socket s'.calls ≡ sent socket s.calls ++ take n packet) (r.all_sent g).0
            r.bytes,
        r.keeps.same_recv_queue,
        r.keeps.same_connected,
        r.keeps.same_structs,
      )
