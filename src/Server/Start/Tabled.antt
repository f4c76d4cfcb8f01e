-- ===== src/Server/Start/Tabled.antt =====
-- The rounds of Accept (DHServer.cpp) fill g_Socket_Struct_Pool so that the tables agree.
use dhserver.Base.{
  ℕ, zero, suc, ◌+◌, ◌<◌, ◌≡◌, ap, ◌∙◌, sym, true, false, Bool, not, List, ◌∷◌, none, some, arith,
  lookup, update, update_self, ◌==◌, ltb, ◌%◌, ◌^◌, Bool-cases, Option-cases, inl, inr, ==→eq,
}
use mathlib.Core.Option.{none-ne-some}
use dhserver.Base.Outcome.{
  Outcome, done, Ensures, Ensures-done, Ensures-spin, Ensures-fault, Ensures-bind,
}
use dhserver.Shared.{Overlapped, SocketStruct, invalid_socket, new_socket_struct, IoType}
use dhserver.ObjectPool.{get_object}
use dhserver.Server.{Server, Os, Call, overlapped, overlapped_object, emit, answer, set_overlapped}
use dhserver.Server.Tables.{Tables, tables, Holds, HoldsAfter}
use dhserver.Server.Start.{
  insert_struct, registered, returns_iocp, register_socket, open_socket, open_sockets, create_iocp,
  close_listen, create_threads, start_listening, bind_and_listen, accept,
}
use dhserver.Server.Work.Tabled.{IsTabled, AllIn-map, AllIn-both}

-- An entry that is found is still found behind a new one.
found_behind :
    (j k p q : ℕ) (m : List (ℕ × ℕ))
    → lookup k m ≡ none
    → lookup j m ≡ some q
    → lookup j ((k, p) ∷ m) ≡ some q
unfolding lookup
found_behind j k p q m n e = elim (Bool-cases (j == k)) [
  | inl z ↦ absurd (none-ne-some q (sym n ∙ ap (λ x. lookup x m) (sym (==→eq j k z)) ∙ e))
  | inr z ↦ rw z e
]

-- A new structure at the address `p`, above all others.
fresh_socket :
    (structs : ℕ → SocketStruct) (p : ℕ) (x : SocketStruct) (k q : ℕ)
    → q < p
    → (structs q).socket ≡ k
    → (update structs p x q).socket ≡ k
fresh_socket structs p x k q h e = ground arith

-- A structure that is made, at an address above all others; its socket need not enter the pool.
IsTabled-made :
    (t : Tables) (x : SocketStruct)
    → IsTabled t
    → IsTabled
        (record t { structs = update t.structs t.next_struct x; next_struct = t.next_struct + 1 })
IsTabled-made t x h = record {
  pool_map = h.pool_map;
  connected_map = h.connected_map;
  sockets =
      AllIn-map _ _ t.socket_pool (λ k q b. fresh_socket t.structs t.next_struct x k q b.0 b.1)
        (AllIn-both _ _ t.socket_pool h.made h.sockets);
  made = AllIn-map _ _ t.socket_pool (λ k q b. omega arith) h.made;
  pooled = h.pooled;
}

-- It enters the pool where its socket is new.
IsTabled-insert :
    (t : Tables) (k p : ℕ)
    → lookup k t.socket_pool ≡ none
    → (t.structs p).socket ≡ k
    → p < t.next_struct
    → IsTabled t
    → IsTabled (record t { socket_pool = (k, p) ∷ t.socket_pool })
IsTabled-insert t k p n e l h = record {
  pool_map = (n, h.pool_map);
  connected_map = h.connected_map;
  sockets = (e, h.sockets);
  made = (l, h.made);
  pooled = AllIn-map _ _ t.connected (λ j q b. found_behind j k p q t.socket_pool n b) h.pooled;
}

-- What a round does where CreateIoCompletionPort returns g_IOCP.
registered-Holds :
    (s : Server) (socket : ℕ) (c : Call) → Holds IsTabled s → Holds IsTabled (registered s socket c)
unfolding insert_struct
registered-Holds s socket c h =
    let x = record new_socket_struct { socket = socket } in
    let m = IsTabled-made (tables s) x h in
    elim (Option-cases (lookup socket s.socket_pool)) [
      | inl n ↦
          rw (n, insert_struct)
            (IsTabled-insert _ socket s.next_struct n
              (ap (λ (y : SocketStruct). y.socket) (update_self s.structs s.next_struct x))
              (omega arith) m)
      | inr (q, n) ↦ rw (n, insert_struct) m
    ]

register_socket-Holds :
    (os : Os) (s : Server) (socket : ℕ)
    → Holds IsTabled s
    → Ensures (Holds IsTabled) (register_socket os s socket)
unfolding register_socket
register_socket-Holds os s socket h =
    let c = Call.associate socket s.next_struct in
    elim (Bool-cases (returns_iocp os s c)) [
      | inl e ↦ rw e (
          Ensures-done (Holds IsTabled) _
            (registered-Holds s socket (answer (os.pending s.calls c) c) h))
      | inr e ↦ rw e (Ensures-fault (Holds IsTabled))
    ]

open_socket-Holds :
    (os : Os) (s : Server) → Holds IsTabled s → Ensures (HoldsAfter IsTabled) (open_socket os s)
unfolding open_socket
open_socket-Holds os s h =
    Ensures-bind (λ _. Unit {0}) (HoldsAfter IsTabled)
      (get_object overlapped_object s.overlapped_pool) _ (record { result = λ a r. tt })
      λ (op, q) _.
        let socket = os.new_socket s.calls in
        let c = Call.accept_ex socket op in
        let s1 = record s { overlapped_pool = q } in
        let o = record (overlapped s1 op) { io_type = IoType.accept; socket = socket } in
        elim (Bool-cases (socket == invalid_socket)) [
          | inl e ↦ rw e (Ensures-done (HoldsAfter IsTabled) _ h)
          | inr e ↦ rw e (elim (Bool-cases (os.pending s.calls c)) [
            | inl z ↦ rw z (
                Ensures-bind (Holds IsTabled) (HoldsAfter IsTabled) (register_socket os _ socket) _
                  (register_socket-Holds os (emit (set_overlapped s1 op o) c) socket h)
                  λ s3 h3. Ensures-done (HoldsAfter IsTabled) _ h3)
            | inr z ↦ rw z (Ensures-done (HoldsAfter IsTabled) _ h)
          ])
        ]

-- A round goes on where it opened a socket.
next_round :
    (opened : Bool) (s : Server) (k : Server → Outcome (Bool × Server))
    → Holds IsTabled s
    → ((s1 : Server) → Holds IsTabled s1 → Ensures (HoldsAfter IsTabled) (k s1))
    → Ensures (HoldsAfter IsTabled) (elim opened [ true ↦ k s | false ↦ done (false, s) ])
next_round true s k h r = r s h
next_round false s k h r = Ensures-done (HoldsAfter IsTabled) _ h

open_sockets-Holds :
    (fuel : ℕ) (os : Os) (i : ℕ) (s : Server)
    → Holds IsTabled s
    → Ensures (HoldsAfter IsTabled) (open_sockets fuel os i s)
unfolding open_sockets
open_sockets-Holds zero os i s h = Ensures-spin (HoldsAfter IsTabled)
open_sockets-Holds (suc fuel) os i s h = elim (Bool-cases (ltb i (s.max_user_count + 10))) [
  | inl e ↦
      rw (e, open_sockets)
        (Ensures-bind (HoldsAfter IsTabled) (HoldsAfter IsTabled) (open_socket os s) _
          (open_socket-Holds os s h)
          λ (opened, s1) h1.
            next_round opened s1 (open_sockets fuel os ((i + 1) % 2 ^ 16)) h1
              (λ s2 h2. open_sockets-Holds fuel os ((i + 1) % 2 ^ 16) s2 h2))
  | inr e ↦ rw (e, open_sockets) (Ensures-done (HoldsAfter IsTabled) _ h)
]

create_threads-Holds :
    (r : Bool × Server) → HoldsAfter IsTabled r → HoldsAfter IsTabled (create_threads r)
unfolding create_threads
create_threads-Holds (true, s) h = h
create_threads-Holds (false, s) h = h

start_listening-Holds :
    (os : Os) (fuel : ℕ) (s : Server) (n : ℕ)
    → Holds IsTabled s
    → Ensures (HoldsAfter IsTabled) (start_listening os fuel s n)
unfolding start_listening
start_listening-Holds os fuel s n h =
    Ensures-bind (HoldsAfter IsTabled) (HoldsAfter IsTabled) (open_sockets fuel os 0 _) _
      (open_sockets-Holds fuel os 0 _ h)
      λ r h1. Ensures-done (HoldsAfter IsTabled) _ (create_threads-Holds r h1)

bind_and_listen-Holds :
    (os : Os) (fuel : ℕ) (s : Server) (n : ℕ)
    → Holds IsTabled s
    → Ensures (HoldsAfter IsTabled) (bind_and_listen os fuel s n)
unfolding bind_and_listen close_listen
bind_and_listen-Holds os fuel s n h =
    let b = Call.bind s.listen_socket in
    let s1 = emit s (answer (os.pending s.calls b) b) in
    elim (Bool-cases (not (os.pending s.calls b))) [
      | inl e ↦ rw e (Ensures-done (HoldsAfter IsTabled) _ h)
      | inr e ↦ rw e (elim (Bool-cases (not (os.pending s1.calls (Call.listen s.listen_socket)))) [
        | inl z ↦ rw z (Ensures-done (HoldsAfter IsTabled) _ h)
        | inr z ↦ rw z (start_listening-Holds os fuel _ n h)
      ])
    ]

IsTabled-limit : (t : Tables) (n : ℕ) → IsTabled t → IsTabled (record t { max_user_count = n })
IsTabled-limit t n h = record {
  pool_map = h.pool_map;
  connected_map = h.connected_map;
  sockets = h.sockets;
  made = h.made;
  pooled = h.pooled;
}

create_iocp-Holds :
    (os : Os) (memory : ℕ → Overlapped) (s : Server)
    → Holds IsTabled s
    → Holds IsTabled (create_iocp os memory s)
unfolding create_iocp
create_iocp-Holds os memory s h = elim (Bool-cases s.iocp) [ inl e ↦ rw e h | inr e ↦ rw e h ]

-- Where the tables agree, as they do while they are empty, they still do once Accept has returned,
-- whether it has succeeded or failed, with any answers of Windows; neither a socket that WSASocket
-- should give twice nor a completion port that was not made breaks this.
pub accept-IsTabled :
    (os : Os) (fuel : ℕ) (memory : ℕ → Overlapped) (s : Server) (users threads : ℕ)
    → IsTabled (tables s)
    → (n : ℕ) (s' : Server) → accept os fuel memory s users threads ≡ done (n, s')
    → IsTabled (tables s')
unfolding accept
accept-IsTabled os fuel memory s users threads h n s' run =
    let s1 = create_iocp os memory (record s { max_user_count = users }) in
    let h1 =
      create_iocp-Holds os memory (record s { max_user_count = users })
        (IsTabled-limit (tables s) users h) in
    (elim (Bool-cases (os.new_socket s1.calls == invalid_socket))
        as (λ x. Ensures (HoldsAfter IsTabled) (accept os fuel memory s users threads)) [
          | inl e ↦ rw (e, accept) (Ensures-done (HoldsAfter IsTabled) _ h1)
          | inr e ↦ rw (e, accept) (bind_and_listen-Holds os fuel _ threads h1)
        ]).result
      (n, s') run
