-- ===== src/Server/Work/Keeps.antt =====
-- What WorkThread and its handlers (DHServer.cpp: IOFunction_Accept, IOFunction_Send,
-- IOFunction_Disconnect) keep of the tables, where one entry is handled at a time.
use dhserver.Base.{
  ℕ, ◌≡◌, refl, Bool, true, false, List, [], ◌∷◌, Option, none, some, length, lookup, update, ◌==◌,
  if◌then◌else◌, Bool-cases, Option-cases, inl, inr,
}
use dhserver.Base.Outcome.{
  done, Outcome, Ensures, Ensures-done, Ensures-spin, Ensures-fault, Ensures-bind,
}
use dhserver.Shared.{IoType, dhdebug_simple}
use dhserver.Server.{Server, Os, Call, overlapped}
use dhserver.Server.Tables.{Tables, tables, Holds, HoldsAfter, Keeps}
use dhserver.Server.Sockets.{reset, find_socket_on_client, end_client_reset, reuse_socket}
use dhserver.Server.Sockets.Keeps.{end_client_reset-Holds, reuse_socket-Holds}
use dhserver.Server.Recv.{reserve_wsa_receive}
use dhserver.Server.Recv.Keeps.{reserve_wsa_receive-Holds, io_recv-Holds}
use dhserver.Server.Io.{
  io_send, io_accept, io_disconnect, refuse, start_receive, enter_client, set_peer, accept_checked,
}
use dhserver.Server.Work.{
  Entry, Next, stop, go_on, transfer, work_transfer, make_available, work_key, work_io, work_entry,
  work_entries,
}

module _ (P : Tables → Type 0) (keeps : Keeps P) where
  refuse-Holds : (os : Os) (s : Server) (op : ℕ) → Holds P s → Ensures (Holds P) (refuse os s op)
  unfolding refuse
  refuse-Holds os s op h =
      Ensures-bind (Holds P) (Holds P) (reuse_socket os s (overlapped s op).socket) _
        (reuse_socket-Holds P keeps os s (overlapped s op).socket h)
        λ s1 h1. Ensures-done (Holds P) _ h1

  start_receive-Holds :
      (os : Os) (s : Server) (op p : ℕ) → Holds P s → Ensures (Holds P) (start_receive os s op p)
  unfolding start_receive
  start_receive-Holds os s op p h =
      Ensures-bind (HoldsAfter P) (Holds P) (reserve_wsa_receive os s (s.structs p).socket none) _
        (reserve_wsa_receive-Holds P keeps os s (s.structs p).socket none h)
        λ (posted, s1) h1. branch posted s1 h1
    where
      branch :
          (b : Bool) (s1 : Server)
          → Holds P s1
          → Ensures (Holds P) (
              if b
              then done (record (reset s1 op) {
                structs = update s1.structs p (record (s1.structs p) { is_available = true });
              })
              else end_client_reset os s1 (s1.structs p).socket op)
      branch true s1 h1 = Ensures-done (Holds P) _ (keeps.writes (tables s1) p _ refl h1)
      branch false s1 h1 = end_client_reset-Holds P keeps os s1 (s1.structs p).socket op h1

  enter_client-Holds :
      (os : Os) (s : Server) (op p k : ℕ)
      → lookup k s.socket_pool ≡ some p
      → length s.connected == s.max_user_count ≡ false
      → Holds P s
      → Ensures (Holds P) (enter_client os s op p)
  unfolding enter_client find_socket_on_client
  enter_client-Holds os s op p k e f h =
      elim (Option-cases (lookup (s.structs p).socket s.connected)) [
        | inl n ↦
            rw (n, find_socket_on_client)
              (start_receive-Holds os _ op p (keeps.enters (tables s) k p e n f h))
        | inr (q, n) ↦ rw (n, find_socket_on_client) (Ensures-done (Holds P) s h)
      ]

  accept_checked-Holds :
      (os : Os) (s : Server) (op : ℕ)
      → length s.connected == s.max_user_count ≡ false
      → Holds P s
      → Ensures (Holds P) (accept_checked os s op)
  unfolding accept_checked set_peer
  accept_checked-Holds os s op e h =
      elim (Option-cases (lookup (overlapped s op).socket s.socket_pool)) [
        | inl z ↦ rw (z, accept_checked) (Ensures-spin (Holds P))
        | inr (p, z) ↦
            rw (z, accept_checked)
              (enter_client-Holds os (set_peer os s op p) op p (overlapped s op).socket z e
                (keeps.writes (tables s) p _ refl h))
      ]

  io_accept-Holds :
      (os : Os) (s : Server) (op : ℕ) → Holds P s → Ensures (Holds P) (io_accept os s op)
  unfolding io_accept
  io_accept-Holds os s op h = elim (Bool-cases (length s.connected == s.max_user_count)) [
    | inl e ↦ rw e (refuse-Holds os s op h)
    | inr e ↦ rw e (accept_checked-Holds os s op e h)
  ]

  -- Handlers that do not write to the tables.
  io_disconnect-Holds :
      (os : Os) (s : Server) (op : ℕ) → Holds P s → Holds P (io_disconnect os s op)
  unfolding io_disconnect
  io_disconnect-Holds os s op h =
      elim (Bool-cases (os.pending s.calls (Call.accept_ex (overlapped s op).socket op))) [
        | inl e ↦ rw e h
        | inr e ↦ rw e h
      ]

  io_send-Holds : (s : Server) (bytes op : ℕ) → Holds P s → Holds P (io_send s bytes op)
  unfolding io_send
  io_send-Holds s bytes op h = elim (Bool-cases (s.debug_option == dhdebug_simple)) [
    | inl e ↦ rw e h
    | inr e ↦ rw e h
  ]

  make_available-Holds :
      (s : Server) (key : Option ℕ) → Holds P s → Ensures (Holds P) (make_available s key)
  unfolding make_available
  make_available-Holds s none h = Ensures-fault (Holds P)
  make_available-Holds s (some sp) h =
      Ensures-done (Holds P) _ (keeps.writes (tables s) sp _ refl h)

  transfer-Holds :
      (os : Os) (s : Server) (op sp bytes : ℕ) (io : IoType)
      → Holds P s
      → Ensures (Holds P) (transfer os s op sp bytes io)
  unfolding transfer
  transfer-Holds os s op sp bytes IoType.recv h = io_recv-Holds P keeps os s bytes op sp h
  transfer-Holds os s op sp bytes IoType.send h =
      Ensures-done (Holds P) _ (io_send-Holds s bytes op h)
  transfer-Holds os s op sp bytes _ h = Ensures-done (Holds P) _ h

  work_transfer-Holds :
      (os : Os) (s : Server) (op sp bytes : ℕ)
      → Holds P s
      → Ensures (Holds P) (work_transfer os s op sp bytes)
  unfolding work_transfer
  work_transfer-Holds os s op sp bytes h = elim (Bool-cases (bytes == 0)) [
    | inl e ↦ rw e (end_client_reset-Holds P keeps os s (s.structs sp).socket op h)
    | inr e ↦ rw e (elim (Bool-cases (s.structs sp).is_available) [
      | inl a ↦ rw a (transfer-Holds os s op sp bytes (overlapped s op).io_type h)
      | inr a ↦ rw a (Ensures-done (Holds P) _ h)
    ])
  ]

  work_key-Holds :
      (os : Os) (s : Server) (op : ℕ) (key : Option ℕ) (bytes : ℕ)
      → Holds P s
      → Ensures (Holds P) (work_key os s op key bytes)
  unfolding work_key
  work_key-Holds os s op none bytes h = Ensures-done (Holds P) s h
  work_key-Holds os s op (some sp) bytes h = work_transfer-Holds os s op sp bytes h

  work_io-Holds :
      (os : Os) (s : Server) (op : ℕ) (key : Option ℕ) (bytes : ℕ) (io : IoType)
      → Holds P s
      → Ensures (Holds P) (work_io os s op key bytes io)
  unfolding work_io
  work_io-Holds os s op key bytes IoType.disconnect h =
      make_available-Holds (io_disconnect os s op) key (io_disconnect-Holds os s op h)
  work_io-Holds os s op key bytes IoType.accept h = io_accept-Holds os s op h
  work_io-Holds os s op key bytes _ h = work_key-Holds os s op key bytes h

  pub work_entry-Holds :
      (os : Os) (s : Server) (e : Entry) (o : Option ℕ)
      → Holds P s
      → e.overlapped ≡ o
      → Ensures (HoldsAfter P {A = Next}) (work_entry os s e)
  unfolding work_entry
  work_entry-Holds os s e none h x = rw (x, work_entry) (Ensures-done (HoldsAfter P) _ h)
  work_entry-Holds os s e (some op) h x =
      rw (x, work_entry)
        (Ensures-bind (Holds P) (HoldsAfter P)
          (work_io os s op e.key e.bytes (overlapped s op).io_type) _
          (work_io-Holds os s op e.key e.bytes (overlapped s op).io_type h)
          λ s1 h1. Ensures-done (HoldsAfter P) _ h1)

  -- The thread ends, or goes on with the other entries.
  goes_on :
      (next : Next) (s : Server) (k : Server → Outcome (Next × Server))
      → Holds P s
      → ((s1 : Server) → Holds P s1 → Ensures (HoldsAfter P {A = Next}) (k s1))
      → Ensures (HoldsAfter P {A = Next}) (elim next [ stop ↦ done (stop, s) | go_on ↦ k s ])
  goes_on stop s k h r = Ensures-done (HoldsAfter P) _ h
  goes_on go_on s k h r = r s h

  -- The entries of one call of GetQueuedCompletionStatusEx.
  pub work_entries-Holds :
      (os : Os) (entries : List Entry) (s : Server)
      → Holds P s
      → Ensures (HoldsAfter P {A = Next}) (work_entries os s entries)
  unfolding work_entries
  work_entries-Holds os [] s h = Ensures-done (HoldsAfter P) _ h
  work_entries-Holds os (e ∷ entries) s h =
      Ensures-bind (HoldsAfter P {A = Next}) (HoldsAfter P {A = Next}) (work_entry os s e) _
        (work_entry-Holds os s e e.overlapped h refl)
        λ (next, s1) h1.
          goes_on next s1 (λ s. work_entries os s entries) h1
            (λ s2 h2. work_entries-Holds os entries s2 h2)
