-- ===== src/Server/Work/Late.antt =====
-- A completion that comes late (DHServer.cpp: WorkThread, Delete_in_Socket_List, Disconnect): the
-- transfer of a client that the server has already ended.
use dhserver.Base.{
  ℕ, ◌≡◌, refl, sym, ap, List, [], ◌∷◌, none, some, arith, lookup, erase, ◌==◌, Option-cases,
  Bool-cases, inl, inr, subst, ==→eq, update_self,
}
use dhserver.Base.Outcome.{done, spin, Ensures, Ensures-done, Ensures-spin, Ensures-bind}
use dhserver.Shared.{IoType, logic_success, SocketStruct, new_socket_struct}
use dhserver.ObjectPool.{get_object}
use dhserver.Server.{Server, Os, overlapped, overlapped_object}
use dhserver.Server.Sockets.{
  delete_connected, delete_in_socket_list, end_client, end_client_reset, reuse_socket, reuse_struct,
  disconnect, disconnect_ex,
}
use dhserver.Server.Work.{Entry, work_entry, work_io, work_key, work_transfer}

-- A kind of overlapped that carries bytes.
pub data IsTransfer : IoType → Type 0 where
  receives : IsTransfer IoType.recv
  sends : IsTransfer IoType.send

-- An entry with no bytes, for the transfer `op` of the client at `sp`.
abbrev pub closing : ℕ → ℕ → Entry
closing op sp = record { overlapped = some op; key = some sp; bytes = 0 }

delete_spins :
    (s : Server) (socket p : ℕ)
    → lookup socket s.socket_pool ≡ some p
    → lookup socket s.connected ≡ none
    → delete_in_socket_list s socket ≡ spin
unfolding delete_in_socket_list
delete_spins s socket p e n = rw (e, delete_in_socket_list) (rw (n, delete_connected) refl)

end_spins :
    (os : Os) (s : Server) (socket op : ℕ)
    → delete_in_socket_list s socket ≡ spin
    → end_client_reset os s socket op ≡ spin
unfolding end_client_reset end_client
end_spins os s socket op e = rw e refl

transfer_io :
    (os : Os) (s : Server) (op sp : ℕ) {io : IoType}
    → IsTransfer io
    → work_io os s op (some sp) 0 io ≡ end_client_reset os s (s.structs sp).socket op
unfolding work_io work_key work_transfer
transfer_io os s op sp receives = refl
transfer_io os s op sp sends = refl

-- The thread that takes such an entry for a client that is not connected any more waits in the
-- empty loop of Delete_in_Socket_List.
pub closing_spins :
    (os : Os) (s : Server) (op sp p : ℕ)
    → IsTransfer (overlapped s op).io_type
    → lookup (s.structs sp).socket s.socket_pool ≡ some p
    → lookup (s.structs sp).socket s.connected ≡ none
    → work_entry os s (closing op sp) ≡ spin
unfolding work_entry
closing_spins os s op sp p t e n =
    rw
      (
        transfer_io os s op sp t,
        end_spins os s (s.structs sp).socket op (delete_spins s (s.structs sp).socket p e n),
      )
      refl

-- No key stands twice.
abbrev pub IsMap : List (ℕ × ℕ) → Type 0
IsMap [] = Unit {0}
IsMap ((j, v) ∷ m) = (lookup j m ≡ none) × IsMap m

pub lookup-erase : (k : ℕ) (m : List (ℕ × ℕ)) → IsMap m → lookup k (erase k m) ≡ none
unfolding lookup erase
lookup-erase k [] v = refl
lookup-erase k ((j, w) ∷ m) v = elim (Bool-cases (k == j)) [
  | inl e ↦ rw e (subst (λ x. lookup x m ≡ none) (sym (==→eq k j e)) v.0)
  | inr e ↦ rw e (rw e (lookup-erase k m v.1))
]

-- A client that has been ended: its structure is reset, and it is not connected.
abbrev pub IsEnded : ℕ → ℕ → Server → Type 0
IsEnded socket p s =
    (lookup socket s.socket_pool ≡ some p)
    × (lookup socket s.connected ≡ none)
    × ((s.structs p).socket ≡ socket)

-- In the two tables, whatever the structure.
abbrev IsOut : ℕ → ℕ → Server → Type 0
IsOut socket p s = (lookup socket s.socket_pool ≡ some p) × (lookup socket s.connected ≡ none)

delete-IsOut :
    (s : Server) (socket p : ℕ)
    → IsMap s.connected
    → lookup socket s.socket_pool ≡ some p
    → Ensures (IsOut socket p) (delete_in_socket_list s socket)
unfolding delete_in_socket_list
delete-IsOut s socket p v e =
    rw (e, delete_in_socket_list)
      (elim (Option-cases (lookup socket s.connected)) [
        | inl n ↦ rw (n, delete_connected) (Ensures-spin (IsOut socket p))
        | inr (q, n) ↦
            rw (n, delete_connected)
              (Ensures-done (IsOut socket p) _ (e, lookup-erase socket s.connected v))
      ])

disconnect_ex-IsEnded :
    (os : Os) (s : Server) (socket p op : ℕ)
    → IsEnded socket p s
    → IsEnded socket p (disconnect_ex os s socket op)
unfolding disconnect_ex
disconnect_ex-IsEnded os s socket p op h = ground arith

reuse-IsEnded :
    (os : Os) (s : Server) (socket p : ℕ)
    → IsOut socket p s
    → Ensures (IsEnded socket p) (reuse_socket os s socket)
unfolding reuse_socket reuse_struct
reuse-IsEnded os s socket p h =
    rw (h.0, reuse_socket)
      (Ensures-bind (λ _. Unit {0}) (IsEnded socket p)
        (get_object overlapped_object s.overlapped_pool) _ (record { result = λ a e. tt })
        λ (op, q) _. Ensures-done (IsEnded socket p) _ (
          disconnect_ex-IsEnded os _ socket p op (
            h.0,
            h.1,
            ap (λ (x : SocketStruct). x.socket)
                (update_self s.structs p (record new_socket_struct { socket = socket })),
          )))

pub end_client-IsEnded :
    (os : Os) (s : Server) (socket p : ℕ)
    → IsMap s.connected
    → lookup socket s.socket_pool ≡ some p
    → Ensures (IsEnded socket p) (end_client os s socket)
unfolding end_client
end_client-IsEnded os s socket p v e =
    Ensures-bind (IsOut socket p) (IsEnded socket p) (delete_in_socket_list s socket) _
      (delete-IsOut s socket p v e) λ s1 h1. reuse-IsEnded os s1 socket p h1

-- Disconnect of a client that has a structure has returned, where g_Connected_Client has each socket
-- at most once. If the worker thread then takes a transfer of this client with no bytes, on an
-- overlapped for receiving or sending, it does not come back: it waits in the empty loop of
-- Delete_in_Socket_List.
pub disconnect_then_closing :
    (os : Os) (s s' : Server) (socket p op n : ℕ)
    → IsMap s.connected
    → lookup socket s.socket_pool ≡ some p
    → disconnect os s socket ≡ done (n, s')
    → IsTransfer (overlapped s' op).io_type
    → work_entry os s' (closing op p) ≡ spin
unfolding disconnect
disconnect_then_closing os s s' socket p op n v e run t =
    let h =
      (Ensures-bind (IsEnded socket p) (λ (r : ℕ × Server). IsEnded socket p r.1)
          (end_client os s socket) _ (end_client-IsEnded os s socket p v e)
          (λ s1 h1.
            Ensures-done (λ (r : ℕ × Server). IsEnded socket p r.1) (logic_success, s1) h1)).result
        (n, s') run in
    closing_spins os s' op p p t (rw (h.2) h.0) (rw (h.2) h.1)
