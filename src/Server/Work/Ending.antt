-- ===== src/Server/Work/Ending.antt =====
-- Disconnect of a connected client (DHServer.cpp: Disconnect, Delete_in_Socket_List, Reuse_Socket),
-- where the tables agree.
use dhserver.Base.{
  ℕ, ◌≤◌, ◌≡◌, refl, ap, ◌∙◌, none, some, arith, lookup, erase, update, update_self, Bool-cases,
  inl, inr,
}
use dhserver.Base.Outcome.{done}
use dhserver.Shared.{new_socket_struct, logic_success}
use dhserver.ObjectPool.Lending.{get_object-Lent}
use dhserver.Server.{Server, Os, Call, overlapped_object}
use dhserver.Server.Tables.{tables, Tables}
use dhserver.Server.Sockets.{
  disconnect_ex, disconnect, end_client, delete_in_socket_list, delete_connected, reuse_socket,
  reuse_struct,
}
use dhserver.Server.Sockets.Keeps.{end_client-Holds}
use dhserver.Server.Work.Late.{lookup-erase}
use dhserver.Server.Work.Tabled.{IsTabled, AllIn-lookup, IsTabled-Keeps}

-- What DisconnectEx leaves of the tables, whatever Windows answers.
disconnect_ex-tables :
    (os : Os) (s : Server) (socket op : ℕ) → tables (disconnect_ex os s socket op) ≡ tables s
unfolding disconnect_ex
disconnect_ex-tables os s socket op =
    elim (Bool-cases (os.pending s.calls (Call.disconnect_ex socket op))) [
      | inl e ↦ rw e refl
      | inr e ↦ rw e refl
    ]

disconnect_ex-messages :
    (os : Os) (s : Server) (socket op : ℕ)
    → (disconnect_ex os s socket op).recv_queue ≡ s.recv_queue
unfolding disconnect_ex
disconnect_ex-messages os s socket op =
    elim (Bool-cases (os.pending s.calls (Call.disconnect_ex socket op))) [
      | inl e ↦ rw e refl
      | inr e ↦ rw e refl
    ]

-- Reuse_Socket where the pool of overlapped structures serves: the structure is as new.
reuse-tables :
    (os : Os) (s : Server) (socket p : ℕ)
    → 10 ≤ s.overlapped_pool.sample_obj_count
    → lookup socket s.socket_pool ≡ some p
    → (s' : Server) × (reuse_socket os s socket ≡ done s')
      × (tables s' ≡ record (tables s) {
        structs = update s.structs p (record new_socket_struct { socket = socket });
      })
      × (s'.recv_queue ≡ s.recv_queue)
unfolding reuse_socket reuse_struct
reuse-tables os s socket p a e =
    let l = get_object-Lent overlapped_object s.overlapped_pool a in
    rw (e, reuse_socket)
      (rw l.got (
        _,
        refl,
        disconnect_ex-tables os _ socket l.object_at,
        disconnect_ex-messages os _ socket l.object_at,
      ))

deleted :
    (s : Server) (socket p q : ℕ)
    → lookup socket s.socket_pool ≡ some p
    → lookup socket s.connected ≡ some q
    → (s' : Server) × (delete_in_socket_list s socket ≡ done s')
      × (s'.connected ≡ erase socket s.connected)
      × (s'.socket_pool ≡ s.socket_pool)
      × (s'.overlapped_pool ≡ s.overlapped_pool)
      × (s'.recv_queue ≡ s.recv_queue)
unfolding delete_in_socket_list delete_connected
deleted s socket p q e n =
    rw (e, delete_in_socket_list) (rw (n, delete_connected) (_, refl, refl, refl, refl, refl))

-- The client on `socket`, whose structure is at `q`, has been ended: it is not connected any more,
-- the other clients are as before, its structure is as new with the same socket, the received
-- messages are as before, and the tables agree.
pub record Ended (s : Server) (socket q : ℕ) (s' : Server) : Type 0 where
  pub gone : lookup socket s'.connected ≡ none
  pub others : s'.connected ≡ erase socket s.connected
  pub renewed : s'.structs q ≡ record new_socket_struct { socket = socket }
  pub same_messages : s'.recv_queue ≡ s.recv_queue
  pub tabled : IsTabled (tables s')

pub end_client-returns :
    (os : Os) (s : Server) (socket q : ℕ)
    → IsTabled (tables s)
    → 10 ≤ s.overlapped_pool.sample_obj_count
    → lookup socket s.connected ≡ some q
    → (s' : Server) × (end_client os s socket ≡ done s') × Ended s socket q s'
unfolding end_client
end_client-returns os s socket q h a n =
    let e = AllIn-lookup _ socket q s.connected h.pooled n in
    let (s1, run1, c1, p1, o1, m1) = deleted s socket q q e n in
    let (s2, run2, t2, m2) =
      reuse-tables os s1 socket q (omega (arith, ap (λ o. o.sample_obj_count) o1))
        (ap (lookup socket) p1 ∙ e) in
    let run : end_client os s socket ≡ done s2 = rw run1 (rw run2 refl) in
    let c2 : s2.connected ≡ erase socket s.connected = ap (λ (t : Tables). t.connected) t2 ∙ c1 in
    (
      s2,
      run,
      record {
        gone = ap (lookup socket) c2 ∙ lookup-erase socket s.connected h.connected_map;
        others = c2;
        renewed = ap (λ (t : Tables). t.structs q) t2 ∙ update_self s1.structs q _;
        same_messages = m2 ∙ m1;
        tabled = (end_client-Holds IsTabled IsTabled-Keeps os s socket h).result s2 run;
      },
    )

-- The tables agree, the pool of overlapped structures was made with ten or more, and the client on
-- `socket` is connected. Then Disconnect returns a success, whatever Windows answers: the client is
-- not connected any more, the other entries are as before, the client's structure is as new with the
-- same socket, and the tables still agree.
pub disconnect_returns :
    (os : Os) (s : Server) (socket q : ℕ)
    → IsTabled (tables s)
    → 10 ≤ s.overlapped_pool.sample_obj_count
    → lookup socket s.connected ≡ some q
    → (s' : Server) × (disconnect os s socket ≡ done (logic_success, s'))
      × (lookup socket s'.connected ≡ none)
      × (s'.connected ≡ erase socket s.connected)
      × (s'.structs q ≡ record new_socket_struct { socket = socket })
      × IsTabled (tables s')
unfolding disconnect
disconnect_returns os s socket q h a n =
    let (s', run, e) = end_client-returns os s socket q h a n in
    (s', rw run refl, e.gone, e.others, e.renewed, e.tabled)
