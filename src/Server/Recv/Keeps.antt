-- ===== src/Server/Recv/Keeps.antt =====
-- What receiving (DHServer.cpp: IOFunction_Recv and what it calls) keeps of the tables.
use dhserver.Base.{
  ℕ, zero, suc, ◌≡◌, refl, Bool, true, false, List, Option, none, some, length, take, ◌==◌,
  if◌then◌else◌, Bool-cases, Option-cases, inl, inr, ltb, drop,
}
use dhserver.Base.Outcome.{
  Outcome, done, ◌>>=◌, Ensures, Ensures-done, Ensures-spin, Ensures-fault, Ensures-bind,
}
use dhserver.Shared.{Overlapped, packet_header_size, packet_type_none, dhdebug_simple}
use dhserver.Shared.Bytes.{read_le}
use dhserver.ObjectPool.{get_object}
use dhserver.Server.{Server, Os, overlapped, overlapped_object}
use dhserver.Server.Sockets.{end_client_reset}
use dhserver.Server.Tables.{Tables, Holds, HoldsAfter, Keeps}
use dhserver.Server.Sockets.Keeps.{end_client_reset-Holds}
use dhserver.Server.Recv.{
  receive_overlapped, reserve_wsa_receive, push_recv_data, Head, waiting, complete, head, recv_loop,
  receive_again, process, count_received, take_received, io_recv, back_up_overlapped,
}

module _ (P : Tables → Type 0) (keeps : Keeps P) where
  receive_overlapped-Holds :
      (s : Server) (given : Option ℕ)
      → Holds P s
      → Ensures (HoldsAfter P) (receive_overlapped s given)
  unfolding receive_overlapped
  receive_overlapped-Holds s (some op) h = Ensures-done (HoldsAfter P) _ h
  receive_overlapped-Holds s none h =
      Ensures-bind (λ _. Unit {0}) (HoldsAfter P) (get_object overlapped_object s.overlapped_pool) _
        (record { result = λ a e. tt }) λ (op, q) _. Ensures-done (HoldsAfter P) _ h

  pub reserve_wsa_receive-Holds :
      (os : Os) (s : Server) (socket : ℕ) (given : Option ℕ)
      → Holds P s
      → Ensures (HoldsAfter P) (reserve_wsa_receive os s socket given)
  unfolding reserve_wsa_receive
  reserve_wsa_receive-Holds os s socket given h =
      Ensures-bind (HoldsAfter P) (HoldsAfter P) (receive_overlapped s given) _
        (receive_overlapped-Holds s given h) λ (op, s1) h1. Ensures-done (HoldsAfter P) _ h1

  ended-Holds :
      (os : Os) (s : Server) (socket op : ℕ)
      → Holds P s
      → Ensures (HoldsAfter P) (end_client_reset os s socket op >>= λ s1. done (false, s1))
  ended-Holds os s socket op h =
      Ensures-bind (Holds P) (HoldsAfter P) (end_client_reset os s socket op) _
        (end_client_reset-Holds P keeps os s socket op h) λ s1 h1. Ensures-done (HoldsAfter P) _ h1

  push_recv_data-Holds :
      (os : Os) (s : Server) (packet : List ℕ) (sp op size : ℕ)
      → Holds P s
      → Ensures (HoldsAfter P) (push_recv_data os s packet sp op size)
  unfolding push_recv_data
  push_recv_data-Holds os s packet sp op size h =
      elim (Bool-cases (ltb (length packet) packet_header_size)) [
        | inl e ↦ rw e (Ensures-fault (HoldsAfter P))
        | inr e ↦ rw e (elim (Bool-cases (read_le 2 (drop 8 packet) == packet_type_none)) [
          | inl z ↦ rw z (ended-Holds os s (s.structs sp).socket op h)
          | inr z ↦ rw z (Ensures-done (HoldsAfter P) _ h)
        ])
      ]

  loop_branch-Holds :
      (m : Outcome (Bool × Server)) (k : Server → Outcome (Bool × Server))
      → Ensures (HoldsAfter P) m
      → ((s : Server) → Holds P s → Ensures (HoldsAfter P) (k s))
      → Ensures
          (HoldsAfter P)
          (m >>= λ (more, s1). elim more [ true ↦ k s1 | false ↦ done (false, s1) ])
  loop_branch-Holds m k h r =
      Ensures-bind (HoldsAfter P) (HoldsAfter P) m _ h λ (more, s1) h1. branch more s1 h1
    where
      branch :
          (b : Bool) (s1 : Server)
          → Holds P s1
          → Ensures (HoldsAfter P) (elim b [ true ↦ k s1 | false ↦ done (false, s1) ])
      branch true s1 h1 = r s1 h1
      branch false s1 h1 = Ensures-done (HoldsAfter P) _ h1

  loop_head-Holds :
      (fuel : ℕ) (os : Os) (s : Server) (sp op : ℕ) (x : Head)
      → Holds P s
      → ((s1 : Server) → Holds P s1 → Ensures (HoldsAfter P) (recv_loop fuel os s1 sp op))
      → head (overlapped s op) ≡ x
      → Ensures (HoldsAfter P) (recv_loop (suc fuel) os s sp op)
  unfolding recv_loop
  loop_head-Holds fuel os s sp op waiting h r e =
      rw (e, recv_loop) (Ensures-done (HoldsAfter P) _ h)
  loop_head-Holds fuel os s sp op (complete size) h r e =
      rw (e, recv_loop)
        (loop_branch-Holds _ (λ s1. recv_loop fuel os s1 sp op)
          (push_recv_data-Holds os s (take size (overlapped s op).processing_packet_buffer) sp op
            size h)
          r)

  recv_loop-Holds :
      (fuel : ℕ) (os : Os) (s : Server) (sp op : ℕ)
      → Holds P s
      → Ensures (HoldsAfter P) (recv_loop fuel os s sp op)
  unfolding recv_loop
  recv_loop-Holds zero os s sp op h = Ensures-spin (HoldsAfter P)
  recv_loop-Holds (suc fuel) os s sp op h =
      loop_head-Holds fuel os s sp op (head (overlapped s op)) h
        (λ s1 h1. recv_loop-Holds fuel os s1 sp op h1) refl

  receive_again-Holds :
      (os : Os) (s : Server) (sp op : ℕ) → Holds P s → Ensures (Holds P) (receive_again os s sp op)
  unfolding receive_again
  receive_again-Holds os s sp op h =
      Ensures-bind (HoldsAfter P) (Holds P)
        (reserve_wsa_receive os s (overlapped s op).socket (some op)) _
        (reserve_wsa_receive-Holds os s (overlapped s op).socket (some op) h)
        λ (posted, s1) h1. branch posted s1 h1
    where
      branch :
          (b : Bool) (s1 : Server)
          → Holds P s1
          → Ensures
              (Holds P)
              (if b then done s1 else end_client_reset os s1 (s1.structs sp).socket op)
      branch true s1 h1 = Ensures-done (Holds P) _ h1
      branch false s1 h1 = end_client_reset-Holds P keeps os s1 (s1.structs sp).socket op h1

  process-Holds :
      (os : Os) (s : Server) (sp op : ℕ) → Holds P s → Ensures (Holds P) (process os s sp op)
  unfolding process
  process-Holds os s sp op h =
      Ensures-bind (HoldsAfter P) (Holds P)
        (recv_loop (suc (overlapped s op).processed_packet_size) os s sp op) _
        (recv_loop-Holds (suc (overlapped s op).processed_packet_size) os s sp op h)
        λ (more, s1) h1. branch more s1 h1
    where
      branch :
          (b : Bool) (s1 : Server)
          → Holds P s1
          → Ensures (Holds P) (if b then receive_again os s1 sp op else done s1)
      branch true s1 h1 = receive_again-Holds os s1 sp op h1
      branch false s1 h1 = Ensures-done (Holds P) _ h1

  take_received-Holds :
      (os : Os) (s : Server) (o : Overlapped) (op sp : ℕ)
      → Holds P s
      → Ensures (Holds P) (take_received os s o op sp)
  unfolding take_received
  take_received-Holds os s o op sp h = elim (Option-cases (back_up_overlapped o)) [
    | inl e ↦ rw (e, take_received) (end_client_reset-Holds P keeps os _ (s.structs sp).socket op h)
    | inr (o', e) ↦ rw (e, take_received) (process-Holds os _ sp op h)
  ]

  count_received-Holds : (s : Server) (bytes : ℕ) → Holds P s → Holds P (count_received s bytes)
  unfolding count_received
  count_received-Holds s bytes h = elim (Bool-cases (s.debug_option == dhdebug_simple)) [
    | inl e ↦ rw e h
    | inr e ↦ rw e h
  ]

  pub io_recv-Holds :
      (os : Os) (s : Server) (bytes op sp : ℕ)
      → Holds P s
      → Ensures (Holds P) (io_recv os s bytes op sp)
  unfolding io_recv
  io_recv-Holds os s bytes op sp h = elim (Bool-cases (bytes == 0)) [
    | inl e ↦ rw e (receive_again-Holds os s sp op h)
    | inr e ↦
        rw e
          (take_received-Holds os (count_received s bytes) _ op sp (count_received-Holds s bytes h))
  ]
