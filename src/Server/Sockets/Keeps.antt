-- ===== src/Server/Sockets/Keeps.antt =====
-- What the operations on the tables of sockets keep (DHServer.cpp: Reuse_Socket,
-- Delete_in_Socket_List, Disconnect).
use dhserver.Base.{ℕ, refl, inl, inr, some, ◌≡◌, lookup, erase, Option-cases, Bool-cases}
use dhserver.Base.Outcome.{Ensures, Ensures-done, Ensures-spin, Ensures-fault, Ensures-bind}
use dhserver.ObjectPool.{get_object}
use dhserver.Server.{Server, Os, Call, overlapped_object}
use dhserver.Server.Tables.{Tables, tables, Holds, HoldsAfter, Keeps}
use dhserver.Server.Sockets.{
  disconnect_ex, reuse_struct, reuse_socket, delete_connected, delete_in_socket_list, end_client,
  end_client_reset, disconnect,
}

module _ (P : Tables → Type 0) (keeps : Keeps P) where
  disconnect_ex-Holds :
      (os : Os) (s : Server) (socket op : ℕ) → Holds P s → Holds P (disconnect_ex os s socket op)
  unfolding disconnect_ex
  disconnect_ex-Holds os s socket op h =
      elim (Bool-cases (os.pending s.calls (Call.disconnect_ex socket op))) [
        | inl e ↦ rw e h
        | inr e ↦ rw e h
      ]

  reuse_struct-Holds :
      (os : Os) (s : Server) (socket p : ℕ)
      → lookup socket s.socket_pool ≡ some p
      → Holds P s
      → Ensures (Holds P) (reuse_struct os s socket p)
  unfolding reuse_struct
  reuse_struct-Holds os s socket p e h =
      Ensures-bind (λ _. Unit {0}) (Holds P) (get_object overlapped_object s.overlapped_pool) _
        (record { result = λ a r. tt })
        λ (op, q) _.
          Ensures-done (Holds P) _
            (disconnect_ex-Holds os _ socket op (keeps.renews (tables s) socket p _ e refl h))

  pub reuse_socket-Holds :
      (os : Os) (s : Server) (socket : ℕ) → Holds P s → Ensures (Holds P) (reuse_socket os s socket)
  unfolding reuse_socket
  reuse_socket-Holds os s socket h = elim (Option-cases (lookup socket s.socket_pool)) [
    | inl e ↦ rw (e, reuse_socket) (Ensures-fault (Holds P))
    | inr (p, e) ↦ rw (e, reuse_socket) (reuse_struct-Holds os s socket p e h)
  ]

  delete_connected-Holds :
      (s : Server) (socket p : ℕ) → Holds P s → Ensures (Holds P) (delete_connected s socket p)
  unfolding delete_connected
  delete_connected-Holds s socket p h = elim (Option-cases (lookup socket s.connected)) [
    | inl e ↦ rw (e, delete_connected) (Ensures-spin (Holds P))
    | inr (q, e) ↦
        rw (e, delete_connected)
          (Ensures-done (Holds P) _ (
            keeps.writes (record (tables s) { connected = erase socket s.connected }) p _ refl
              (keeps.erases (tables s) socket h)))
  ]

  delete_in_socket_list-Holds :
      (s : Server) (socket : ℕ) → Holds P s → Ensures (Holds P) (delete_in_socket_list s socket)
  unfolding delete_in_socket_list
  delete_in_socket_list-Holds s socket h = elim (Option-cases (lookup socket s.socket_pool)) [
    | inl e ↦ rw (e, delete_in_socket_list) (Ensures-done (Holds P) s h)
    | inr (p, e) ↦ rw (e, delete_in_socket_list) (delete_connected-Holds s socket p h)
  ]

  pub end_client-Holds :
      (os : Os) (s : Server) (socket : ℕ) → Holds P s → Ensures (Holds P) (end_client os s socket)
  unfolding end_client
  end_client-Holds os s socket h =
      Ensures-bind (Holds P) (Holds P) (delete_in_socket_list s socket) _
        (delete_in_socket_list-Holds s socket h) λ s1 h1. reuse_socket-Holds os s1 socket h1

  pub end_client_reset-Holds :
      (os : Os) (s : Server) (socket op : ℕ)
      → Holds P s
      → Ensures (Holds P) (end_client_reset os s socket op)
  unfolding end_client_reset
  end_client_reset-Holds os s socket op h =
      Ensures-bind (Holds P) (Holds P) (end_client os s socket) _ (end_client-Holds os s socket h)
        λ s1 h1. Ensures-done (Holds P) _ h1

  pub disconnect-Holds :
      (os : Os) (s : Server) (socket : ℕ)
      → Holds P s
      → Ensures (HoldsAfter P) (disconnect os s socket)
  unfolding disconnect
  disconnect-Holds os s socket h =
      Ensures-bind (Holds P) (HoldsAfter P) (end_client os s socket) _
        (end_client-Holds os s socket h) λ s1 h1. Ensures-done (HoldsAfter P) _ h1
