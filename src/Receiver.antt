-- ===== src/Receiver.antt =====
-- What the receive loops of DHServer.cpp and DHClient.cpp have in common: a loop over the buffer of an
-- overlapped that hands each packet to a Push_RecvData. It cuts the buffer's bytes into packets as
-- Shared.Reassembly does. The loops of the two classes fill the interface.
pub mod Line
pub mod Stored
use dhserver.Base.{
  ℕ, zero, suc, ◌≤◌, ◌<◌, ◌≡◌, refl, sym, ap, ◌∙◌, Bool, true, false, List, [], ◌∷◌, ◌++◌, map,
  arith, length, take, drop, append_assoc, append-nil, subst, take-take, ◌==◌, length-take,
}
use dhserver.Base.Outcome.{Outcome, done, fault, spin, ◌>>=◌}
use dhserver.Shared.{Overlapped, Message, packet_header_size, packet_type_none}
use dhserver.Shared.Reassembly.{
  Front, part, whole, untyped, wrapped, front, Verdict, more, bad_type, overread, cut, cut-part,
  cut-whole, cut-untyped, cut-wrapped,
}
use dhserver.Shared.Bytes.{read_le}
use dhserver.Server.Recv.{Head, waiting, complete, head, pull}
use dhserver.Server.Recv.Buffer.{
  IsValid, unprocessed, length-unprocessed, head-part, head-whole, head-untyped, head-wrapped,
  whole_bounds, pull-IsValid, kind-take, whole_kind, untyped_kind, unprocessed-pull, length-pulled,
}

-- The messages of a client's packets.
abbrev pub messages : ℕ → List (List ℕ) → List Message
messages socket = map λ p. record { socket = socket; packet = p }

module _ {S : Type 0} where
  -- The end of a connection in the loop.
  abbrev pub ended : Outcome S → Outcome (Bool × S)
  ended m = m >>= λ s. done (false, s)

  -- A round goes on with the loop unless the connection has ended.
  abbrev pub go_on : Outcome (Bool × S) → (S → Outcome (Bool × S)) → Outcome (Bool × S)
  go_on m k = m >>= λ (going, s). elim going [ true ↦ k s | false ↦ done (false, s) ]

  -- How a loop ends, by the verdict: it goes on to post a receive, it closes the connection, or the
  -- read of a packet's type runs over its block.
  unfoldable pub settle : (S → Outcome S) → Verdict → S → Outcome (Bool × S)
  settle closes more s = done (true, s)
  settle closes bad_type s = ended (closes s)
  settle closes overread s = fault

  -- A connection that is closed ends the loop.
  go_on-ended : (m : Outcome S) (k : S → Outcome (Bool × S)) → go_on (ended m) k ≡ ended m
  go_on-ended (done s) k = refl
  go_on-ended spin k = refl
  go_on-ended fault k = refl

-- A receiving side: its states while the loop runs, its Push_RecvData, and its loop on fuel.
pub record Receiver (S : Type 0) : Type 0 where
  pub at : List Message → Overlapped → S
  pub socket : ℕ
  pub closes : S → Outcome S
  pub push : S → List ℕ → ℕ → Outcome (Bool × S)
  pub loop : ℕ → S → Outcome (Bool × S)
  pub waits :
      (fuel : ℕ) (queue : List Message) (o : Overlapped)
      → head o ≡ waiting
      → loop (suc fuel) (at queue o) ≡ done (true, at queue o)
  pub completes :
      (fuel : ℕ) (queue : List Message) (o : Overlapped) (n : ℕ) (r : Outcome (Bool × S))
      → head o ≡ complete n
      → push (at queue o) (take n o.processing_packet_buffer) n ≡ r
      → loop (suc fuel) (at queue o) ≡ go_on r (loop fuel)
  pub typed :
      (queue : List Message) (o : Overlapped) (packet : List ℕ) (n : ℕ)
      → packet_header_size ≤ length packet
      → read_le 2 (drop 8 packet) == packet_type_none ≡ false
      → push (at queue o) packet n
        ≡ done (true, at (queue ++ messages socket (packet ∷ [])) (pull o n))
  pub typeless :
      (queue : List Message) (o : Overlapped) (packet : List ℕ) (n : ℕ)
      → packet_header_size ≤ length packet
      → read_le 2 (drop 8 packet) == packet_type_none ≡ true
      → push (at queue o) packet n ≡ ended (closes (at queue o))
  pub short :
      (queue : List Message) (o : Overlapped) (packet : List ℕ) (n : ℕ)
      → length packet < packet_header_size
      → push (at queue o) packet n ≡ fault

module _ {S : Type 0} (r : Receiver S) where
  -- A packet that the buffer holds, cut from its bytes.
  packet_lem :
      (o : Overlapped) (n : ℕ)
      → IsValid o
      → front (unprocessed o) ≡ whole n
      → take n o.processing_packet_buffer ≡ take n (unprocessed o)
  packet_lem o n v e = sym (
      take-take n o.processed_packet_size o.processing_packet_buffer
        (omega (arith, whole_bounds (unprocessed o) n e, length-unprocessed o v)))

  -- One packet more in the queue.
  push_whole :
      (queue : List Message) (o : Overlapped) (n : ℕ)
      → IsValid o
      → front (unprocessed o) ≡ whole n
      → r.push (r.at queue o) (take n o.processing_packet_buffer) n
        ≡ done (true, r.at (queue ++ messages r.socket (take n (unprocessed o) ∷ [])) (pull o n))
  push_whole queue o n v e =
      let b = whole_bounds (unprocessed o) n e in
      rw (packet_lem o n v e) (
        r.typed queue o (take n (unprocessed o)) n (omega (arith, length-take n (unprocessed o)))
          (rw (kind-take n (unprocessed o) b.0) (whole_kind (unprocessed o) n e)))

  -- What the loop does from the buffer of `o`, told by the cutting of the bytes `xs`.
  abbrev pub Cuts : ℕ → List Message → Overlapped → List ℕ → Type 0
  Cuts fuel queue o xs =
      let c = cut fuel xs in
      (o' : Overlapped) × IsValid o'
      × (unprocessed o' ≡ c.rest)
      × (o'.socket ≡ o.socket)
      × (r.loop fuel (r.at queue o)
          ≡ settle r.closes c.verdict (r.at (queue ++ messages r.socket c.packets) o'))

  module _ (fuel : ℕ) (queue : List Message) (o : Overlapped) (v : IsValid o) where
    Cuts-part : front (unprocessed o) ≡ part → Cuts (suc fuel) queue o (unprocessed o)
    unfolding settle
    Cuts-part e =
        rw (cut-part fuel (unprocessed o) e)
          (o, v, refl, refl, rw append-nil (r.waits fuel queue o (head-part o v e)))

    Cuts-whole :
        (n : ℕ)
        → front (unprocessed o) ≡ whole n
        → Cuts fuel
            (queue ++ messages r.socket (take n (unprocessed o) ∷ []))
            (pull o n)
            (drop n (unprocessed o))
        → Cuts (suc fuel) queue o (unprocessed o)
    unfolding pull
    Cuts-whole n e (o', v', rest, sock, run) = rw (cut-whole fuel (unprocessed o) n e) (
      o',
      v',
      rest,
      sock,
      r.completes fuel queue o n _ (head-whole o n v e) (push_whole queue o n v e)
          ∙ run
          ∙ ap (λ q. settle r.closes (cut fuel (drop n (unprocessed o))).verdict (r.at q o'))
              (append_assoc queue _ _),
    )

    Cuts-untyped : front (unprocessed o) ≡ untyped → Cuts (suc fuel) queue o (unprocessed o)
    unfolding settle
    Cuts-untyped e =
        let (n, h, b, l) = head-untyped o v e in
        let k : read_le 2 (drop 8 (take n o.processing_packet_buffer)) == packet_type_none ≡ true =
          rw
            (
              kind-take n o.processing_packet_buffer b,
              ← kind-take o.processed_packet_size o.processing_packet_buffer (omega arith),
            )
            (untyped_kind (unprocessed o) e) in
        rw (cut-untyped fuel (unprocessed o) e) (
          o,
          v,
          refl,
          refl,
          rw append-nil (
              r.completes fuel queue o n _ h
                (r.typeless queue o _ n (omega (arith, length-take n o.processing_packet_buffer)) k)
              ∙ go_on-ended (r.closes (r.at queue o)) (r.loop fuel)),
        )

    Cuts-wrapped : front (unprocessed o) ≡ wrapped → Cuts (suc fuel) queue o (unprocessed o)
    unfolding settle
    Cuts-wrapped e =
        let (n, h, b) = head-wrapped o v e in
        rw (cut-wrapped fuel (unprocessed o) e) (
          o,
          v,
          refl,
          refl,
          r.completes fuel queue o n _ h
              (r.short queue o _ n (omega (arith, length-take n o.processing_packet_buffer))),
        )

  loop_step :
      (fuel : ℕ) (queue : List Message) (o : Overlapped) (f : Front)
      → IsValid o
      → o.processed_packet_size < suc fuel
      → ((queue' : List Message) (o' : Overlapped)
          → IsValid o'
          → o'.processed_packet_size < fuel
          → Cuts fuel queue' o' (unprocessed o'))
      → front (unprocessed o) ≡ f
      → Cuts (suc fuel) queue o (unprocessed o)
  loop_step fuel queue o part v h ih e = Cuts-part fuel queue o v e
  loop_step fuel queue o (whole n) v h ih e =
      let b = whole_bounds (unprocessed o) n e in
      let l = length-unprocessed o v in
      let k : n ≤ o.processed_packet_size = omega arith in
      Cuts-whole fuel queue o v n e (
        subst (Cuts fuel _ (pull o n)) (unprocessed-pull o n v k)
          (ih _ (pull o n) (pull-IsValid o n v k) (omega (arith, length-pulled o n v k))))
  loop_step fuel queue o untyped v h ih e = Cuts-untyped fuel queue o v e
  loop_step fuel queue o wrapped v h ih e = Cuts-wrapped fuel queue o v e

  -- With more fuel than bytes to process, the loop ends as the cut says.
  pub loop-Cuts :
      (fuel : ℕ) (queue : List Message) (o : Overlapped)
      → IsValid o
      → o.processed_packet_size < fuel
      → Cuts fuel queue o (unprocessed o)
  loop-Cuts zero queue o v h = absurd (omega arith)
  loop-Cuts (suc fuel) queue o v h =
      loop_step fuel queue o (front (unprocessed o)) v h (loop-Cuts fuel) refl
