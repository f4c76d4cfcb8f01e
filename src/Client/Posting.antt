-- ===== src/Client/Posting.antt =====
-- The overlapped structures across Reserve_WSAReceive, in DHClient.cpp and in DHServer.cpp.
use dhserver.Base.{ℕ, ◌≡◌, Bool, true, false, none, Bool-cases, inl, inr}
use dhserver.Base.Outcome.{done, Ensures-done, Ensures-bind}
use dhserver.Shared.{Overlapped, IoType, overlapped_bufize}
use dhserver.ObjectPool.{ObjectPool, get_object}
use dhserver.ObjectPool.Accounts.{
  LendsMore, IsOneMore, get_object-IsOneMore, reset_object-LendsMore,
}
use dhserver.Server.{Server, Os, Call, overlapped_object}
use dhserver.Server.Recv
use dhserver.Client.{Client, overlapped, set_overlapped}
use dhserver.Client.Recv.{post_receive, reserve_wsa_receive}

-- How many structures a call of Reserve_WSAReceive has taken for good, by its result.
abbrev pub taken : Bool → ℕ
taken true = 1
taken false = 0

abbrev Balanced : ObjectPool Overlapped → Bool × Client → Type 0
Balanced p r = LendsMore (taken r.0) p r.1.overlapped_pool

post_receive-Balanced :
    (os : Os) (p : ObjectPool Overlapped) (c : Client) (socket op : ℕ)
    → LendsMore 1 p c.overlapped_pool
    → Balanced p (post_receive os c socket op false)
unfolding post_receive
post_receive-Balanced os p c socket op h =
    let c1 = set_overlapped c op (record (overlapped c op) {
      io_type = IoType.recv;
      socket = socket;
      wsabuf_len = overlapped_bufize;
    }) in
    let call = Call.wsa_recv socket op overlapped_bufize in
    elim (Bool-cases (os.pending c1.calls call)) [
      | inl e ↦ rw e h
      | inr e ↦ rw e (reset_object-LendsMore overlapped_object 0 p c1.overlapped_pool op h)
    ]

-- Reserve_WSAReceive of the client, without an overlapped: where it posts the receive, exactly one
-- structure more is lent, and where WSARecv fails, as many as before.
pub reserve_wsa_receive_balanced :
    (os : Os) (c c' : Client) (socket : ℕ) (posted : Bool)
    → reserve_wsa_receive os c socket none ≡ done (posted, c')
    → LendsMore (taken posted) c.overlapped_pool c'.overlapped_pool
unfolding reserve_wsa_receive
reserve_wsa_receive_balanced os c c' socket posted e =
    (Ensures-bind (IsOneMore overlapped_object c.overlapped_pool) (Balanced c.overlapped_pool)
        (get_object overlapped_object c.overlapped_pool) _
        (get_object-IsOneMore overlapped_object c.overlapped_pool)
        λ (op, q) h. Ensures-done (Balanced c.overlapped_pool) _ (
          post_receive-Balanced os c.overlapped_pool (record c { overlapped_pool = q }) socket op
            h)).result
      (posted, c') e

abbrev Lost : ObjectPool Overlapped → Bool × Server → Type 0
Lost p r = LendsMore 1 p r.1.overlapped_pool

-- Reserve_WSAReceive of the server, without an overlapped, lends one structure more whatever
-- WSARecv answers: where it fails, the structure is lost.
pub reserve_wsa_receive_loses :
    (os : Os) (s s' : Server) (socket : ℕ) (posted : Bool)
    → Recv.reserve_wsa_receive os s socket none ≡ done (posted, s')
    → LendsMore 1 s.overlapped_pool s'.overlapped_pool
unfolding Recv.reserve_wsa_receive Recv.receive_overlapped
reserve_wsa_receive_loses os s s' socket posted e =
    (Ensures-bind (λ (r : ℕ × Server). LendsMore 1 s.overlapped_pool r.1.overlapped_pool)
        (Lost s.overlapped_pool) (Recv.receive_overlapped s none) _
        (Ensures-bind (IsOneMore overlapped_object s.overlapped_pool)
          (λ (r : ℕ × Server). LendsMore 1 s.overlapped_pool r.1.overlapped_pool)
          (get_object overlapped_object s.overlapped_pool) _
          (get_object-IsOneMore overlapped_object s.overlapped_pool)
          λ (op, q) h.
            Ensures-done (λ (r : ℕ × Server). LendsMore 1 s.overlapped_pool r.1.overlapped_pool) _
              h)
        λ (op, s1) h. Ensures-done (Lost s.overlapped_pool) _ h).result
      (posted, s') e
