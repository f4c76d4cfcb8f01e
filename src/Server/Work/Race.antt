-- ===== src/Server/Work/Race.antt =====
-- Worker threads that are in IOFunction_Accept (DHServer.cpp) at the same time: between the test of
-- the limit and AddClientSocket another thread may let its client in.
use dhserver.Base.{
  ℕ, ◌+◌, ◌<◌, ◌≡◌, ◌≢◌, refl, ap, ◌∙◌, false, none, some, arith, length, lookup, update,
  update_self, ◌==◌, ◌∷◌, List, subst,
}
use dhserver.Shared.{SocketStruct}
use dhserver.Server.{Server, Os, overlapped}
use dhserver.Server.Tables.{tables}
use dhserver.Server.Sockets.{add_client_socket, find_socket_on_client}
use dhserver.Server.Io.{set_peer, io_accept, accept_checked}
use dhserver.Server.Work.Capacity.{count}
use dhserver.Server.Work.Tabled.{IsTabled, IsTabled-socket, written_socket}

-- What a worker thread has done of IOFunction_Accept for an overlapped: it is not in it, or it has
-- passed the test.
pub data Phase : Type 0 where
  outside : Phase
  passed : (op : ℕ) → Phase

-- A step of one of the threads: the test of the limit, or the way from there to the end of
-- AddClientSocket.
pub data Step (os : Os) : Server → (ℕ → Phase) → Server → (ℕ → Phase) → Type 0 where
  passes :
      (s : Server) (w : ℕ → Phase) (i op : ℕ)
      → w i ≡ outside
      → length s.connected == s.max_user_count ≡ false
      → Step os s w s (update w i (passed op))
  enters :
      (s : Server) (w : ℕ → Phase) (i op p : ℕ)
      → w i ≡ passed op
      → lookup (overlapped s op).socket s.socket_pool ≡ some p
      → Step os s w (add_client_socket (set_peer os s op p) p).1 (update w i outside)

pub data Steps (os : Os) : Server → (ℕ → Phase) → Server → (ℕ → Phase) → Type 0 where
  stay : (s : Server) (w : ℕ → Phase) → Steps os s w s w
  behind :
      (s s1 s2 : Server) (w w1 w2 : ℕ → Phase)
      → Step os s w s1 w1
      → Steps os s1 w1 s2 w2
      → Steps os s w s2 w2

not_found : (s : Server) (k : ℕ) → lookup k s.connected ≡ none → find_socket_on_client s k ≡ false
unfolding find_socket_on_client
not_found s k n = rw (n, find_socket_on_client) refl

-- A client is in, with the peer's address in its structure.
abbrev let_in : Os → Server → ℕ → ℕ → ℕ → Server
let_in os s op k p = record (set_peer os s op p) { connected = (k, p) ∷ s.connected }

-- AddClientSocket behind the entry of the peer's address, for a client that is not connected.
added :
    (os : Os) (s : Server) (op k p : ℕ)
    → (s.structs p).socket ≡ k
    → lookup k s.connected ≡ none
    → (add_client_socket (set_peer os s op p) p).1 ≡ let_in os s op k p
unfolding add_client_socket set_peer
added os s op k p e n =
    let x : ((set_peer os s op p).structs p).socket ≡ k =
      ap (λ (y : SocketStruct). y.socket) (update_self s.structs p _) ∙ e in
    rw (x, not_found (set_peer os s op p) k n) refl

enters-Step :
    (os : Os) (s : Server) (w : ℕ → Phase) (i op p : ℕ)
    → w i ≡ passed op
    → lookup (overlapped s op).socket s.socket_pool ≡ some p
    → (s.structs p).socket ≡ (overlapped s op).socket
    → lookup (overlapped s op).socket s.connected ≡ none
    → Step os s w (let_in os s op (overlapped s op).socket p) (update w i outside)
enters-Step os s w i op p e f g n =
    subst (λ x. Step os s w x (update w i outside)) (added os s op (overlapped s op).socket p g n)
      (enters s w i op p e f)

-- The other client is still not connected.
other_none :
    (j k p : ℕ) (m : List (ℕ × ℕ)) → j ≢ k → lookup j m ≡ none → lookup j ((k, p) ∷ m) ≡ none
unfolding lookup
other_none j k p m d n = ground arith

-- Above the limit the test, which asks for equality, refuses nobody.
above_refuses_none :
    (os : Os) (s : Server) (op : ℕ)
    → s.max_user_count < count s
    → io_accept os s op ≡ accept_checked os s op
unfolding io_accept
above_refuses_none os s op h =
    let e : length s.connected == s.max_user_count ≡ false = ground arith in rw e refl

-- The tables agree, there is room for one more client, and AcceptEx has completed on the two
-- overlapped structures `op1` and `op2` for two sockets of the pool that are not connected. Then two
-- worker threads can go through IOFunction_Accept, up to the end of AddClientSocket, in such an order
-- that both clients are let in: one more is connected than MAX_USER_COUNT, and from there
-- IOFunction_Accept refuses nobody, whatever the overlapped.
pub race_exceeds :
    (os : Os) (s : Server) (op1 op2 p1 p2 : ℕ)
    → IsTabled (tables s)
    → count s + 1 ≡ s.max_user_count
    → lookup (overlapped s op1).socket s.socket_pool ≡ some p1
    → lookup (overlapped s op2).socket s.socket_pool ≡ some p2
    → (overlapped s op2).socket ≢ (overlapped s op1).socket
    → lookup (overlapped s op1).socket s.connected ≡ none
    → lookup (overlapped s op2).socket s.connected ≡ none
    → (s' : Server) × (w : ℕ → Phase) × Steps os s (λ i. outside) s' w
      × (count s' ≡ s.max_user_count + 1)
      × ((op : ℕ) → io_accept os s' op ≡ accept_checked os s' op)
unfolding set_peer
race_exceeds os s op1 op2 p1 p2 h room e1 e2 d n1 n2 =
    let k1 = (overlapped s op1).socket in
    let k2 = (overlapped s op2).socket in
    let free : length s.connected == s.max_user_count ≡ false = ground arith in
    let s1 = let_in os s op1 k1 p1 in
    let s2 = let_in os s1 op2 k2 p2 in
    let w1 = update (λ i. outside) 1 (passed op1) in
    let w2 = update w1 2 (passed op2) in
    let w3 = update w2 1 outside in
    let over : s2.max_user_count < count s2 = omega arith in
    (
      s2,
      update w3 2 outside,
      behind s s s2 _ w1 _ (passes s _ 1 op1 refl free) (
          behind s s s2 w1 w2 _ (passes s w1 2 op2 refl free) (
            behind s s1 s2 w2 w3 _
              (enters-Step os s w2 1 op1 p1 refl e1 (IsTabled-socket (tables s) k1 p1 h e1) n1)
              (behind s1 s2 s2 w3 _ _
                (enters-Step os s1 w3 2 op2 p2 refl e2
                  (written_socket s.structs p1 _ k2 p2 refl (IsTabled-socket (tables s) k2 p2 h e2))
                  (other_none k2 k1 p1 s.connected d n2))
                (stay s2 _)))),
      omega arith,
      (λ op. above_refuses_none os s2 op over),
    )
