-- ===== src/Server/Recv/Deliveries.antt =====
-- IOFunction_Recv (DHServer.cpp) behind BackUp_Overlapped: what it delivers of the bytes that wait in
-- the buffer.
use dhserver.Base.{
  ℕ, suc, ◌≡◌, refl, sym, ap, ◌∙◌, subst, true, List, ◌++◌, none, some, arith, length, update_self,
  ◌==◌, Bool-cases, inl, inr,
}
use dhserver.Base.Outcome.{Outcome, done}
use dhserver.Shared.{Overlapped, overlapped_bufize, dhdebug_simple, add_int}
use dhserver.Shared.Reassembly.{more, cut}
use dhserver.Server.{Server, Os, Call, overlapped, set_overlapped, emit}
use dhserver.Server.Recv.{
  io_recv, process, receive_again, recv_loop, back_up_overlapped, count_received, take_received,
}
use dhserver.Server.Sockets.{end_client_reset}
use dhserver.Server.Recv.Buffer.{IsValid, unprocessed}
use dhserver.Server.Recv.Loop.{absorb, conclude, recv_loop-cut}
use dhserver.Receiver.{messages}
use dhserver.Receiver.Stored.{written, posted, posted-IsValid}

-- A transfer of `bytes` to the overlapped `op` of the client `sp`.
abbrev pub transfer : Os → Server → ℕ → ℕ → List ℕ → Outcome Server
transfer os s sp op bytes =
    io_recv os (set_overlapped s op (written (overlapped s op) bytes)) (length bytes) op sp

-- Windows takes every receive.
abbrev pub AcceptsReceives : Os → Type 0
AcceptsReceives os =
    (h : List Call) (socket op n : ℕ) → os.pending h (Call.wsa_recv socket op n) ≡ true

-- Receiving once more.
pub again :
    (os : Os) (s : Server) (sp op : ℕ)
    → AcceptsReceives os
    → receive_again os s sp op
      ≡ done (
          emit
            (set_overlapped s op (posted (overlapped s op)))
            (Call.wsa_recv (overlapped s op).socket op overlapped_bufize))
unfolding receive_again
again os s sp op accepts = rw (accepts s.calls (overlapped s op).socket op overlapped_bufize) refl

-- What a transfer does to the server: it adds messages to the queue, and leaves `rest` in the
-- buffer of the overlapped, on which the next receive is posted.
pub record Delivered (s : Server) (sp op : ℕ) (packets : List (List ℕ)) (rest : List ℕ)
    (s' : Server) : Type 0 where
  pub queued : s'.recv_queue ≡ s.recv_queue ++ messages (s.structs sp).socket packets
  pub valid : IsValid (overlapped s' op)
  pub left : unprocessed (overlapped s' op) ≡ rest
  pub same_socket : (overlapped s' op).socket ≡ (overlapped s op).socket
  pub same_structs : s'.structs ≡ s.structs
  pub same_connected : s'.connected ≡ s.connected
  pub same_send_queue : s'.send_queue ≡ s.send_queue

-- IOFunction_Recv once its loop has ended.
pub process_ended :
    (os : Os) (s s1 : Server) (sp op n : ℕ)
    → (overlapped s op).processed_packet_size ≡ n
    → recv_loop (suc n) os s sp op ≡ done (true, s1)
    → process os s sp op ≡ receive_again os s1 sp op
unfolding process
process_ended os s s1 sp op n e run = rw (e, run) refl

module _ (os : Os) (accepts : AcceptsReceives os) (s : Server) (sp op : ℕ) where
  abbrev fuel_of : Overlapped → ℕ
  fuel_of o = suc o.processed_packet_size

  pub process-Delivered :
      (o : Overlapped)
      → IsValid o
      → o.socket ≡ (overlapped s op).socket
      → (cut (fuel_of o) (unprocessed o)).verdict ≡ more
      → (s' : Server) × (process os (absorb s op s.recv_queue o) sp op ≡ done s')
        × Delivered s sp op
            (cut (fuel_of o) (unprocessed o)).packets
            (cut (fuel_of o) (unprocessed o)).rest
            s'
  unfolding conclude
  process-Delivered o v sock fine =
      let c = cut (fuel_of o) (unprocessed o) in
      let (o', v', rest, same, run) =
        recv_loop-cut os s sp op (fuel_of o) s.recv_queue o v (omega arith) in
      let s1 = absorb s op (s.recv_queue ++ messages (s.structs sp).socket c.packets) o' in
      let k : overlapped s1 op ≡ o' = update_self s.overlapped_pool.mem op o' in
      let s2 = set_overlapped s1 op (posted (overlapped s1 op)) in
      let k2 : overlapped s2 op ≡ posted o' =
        update_self s1.overlapped_pool.mem op (posted (overlapped s1 op)) ∙ ap posted k in
      (
        emit s2 (Call.wsa_recv (overlapped s1 op).socket op overlapped_bufize),
        process_ended os _ s1 sp op o.processed_packet_size
              (ap (λ (x : Overlapped). x.processed_packet_size)
                (update_self s.overlapped_pool.mem op o))
              (run ∙ ap (λ w. conclude os w s1 sp op) fine)
            ∙ again os s1 sp op accepts,
        record {
          queued = refl;
          valid = subst IsValid (sym k2) (posted-IsValid v');
          left = ap unprocessed k2 ∙ rest;
          same_socket = ap (λ (x : Overlapped). x.socket) k2 ∙ same ∙ sock;
          same_structs = refl;
          same_connected = refl;
          same_send_queue = refl;
        },
      )

-- Counting touches only the counter.
pub count_received-set :
    (s : Server) (n op : ℕ) (o : Overlapped)
    → count_received (set_overlapped s op o) n ≡ set_overlapped (count_received s n) op o
unfolding count_received
count_received-set s n op o = elim (Bool-cases (s.debug_option == dhdebug_simple)) [
  | inl e ↦ rw e
  | inr e ↦ rw e
]

pub take_received-some :
    (os : Os) (s : Server) (o o' : Overlapped) (op sp : ℕ)
    → back_up_overlapped o ≡ some o'
    → take_received os s o op sp ≡ process os (set_overlapped s op o') sp op
unfolding take_received
take_received-some os s o o' op sp e = rw (e, take_received)

pub take_received-none :
    (os : Os) (s : Server) (o : Overlapped) (op sp : ℕ)
    → back_up_overlapped o ≡ none
    → take_received os s o op sp
      ≡ end_client_reset os (set_overlapped s op o) (s.structs sp).socket op
unfolding take_received
take_received-none os s o op sp e = rw (e, take_received)

pub count_received-eq :
    (s : Server) (n : ℕ) → (t : ℕ) × (count_received s n ≡ record s { recv_total_packet = t })
unfolding count_received
count_received-eq s n = elim (Bool-cases (s.debug_option == dhdebug_simple)) [
  | inl e ↦ (add_int s.recv_total_packet n, rw e)
  | inr e ↦ (s.recv_total_packet, rw e)
]
