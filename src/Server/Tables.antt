-- ===== src/Server/Tables.antt =====
-- DHServer.cpp: the tables of sockets as a part of the server's state, and what a predicate on them
-- needs so that every handler keeps it.
use dhserver.Base.{ℕ, ◌≡◌, false, List, ◌∷◌, none, some, length, lookup, erase, update, ◌==◌}
use dhserver.Shared.{SocketStruct}
use dhserver.Server.{Server}

-- The tables, the structures that they point to, and the limit of users.
pub record Tables : Type 0 where
  pub max_user_count : ℕ
  pub structs : ℕ → SocketStruct
  pub next_struct : ℕ
  pub socket_pool : List (ℕ × ℕ)
  pub connected : List (ℕ × ℕ)

abbrev pub tables : Server → Tables
tables s = record {
  max_user_count = s.max_user_count;
  structs = s.structs;
  next_struct = s.next_struct;
  socket_pool = s.socket_pool;
  connected = s.connected;
}

-- A predicate on the tables, of a server and of a result that comes with one.
abbrev pub Holds : (Tables → Type 0) → Server → Type 0
Holds P s = P (tables s)

abbrev pub HoldsAfter {ℓ} : (Tables → Type 0) → {A : Type ℓ} → A × Server → Type 0
HoldsAfter P r = P (tables r.1)

-- What the handlers do with the tables: they write to a structure whose socket stays, make the
-- structure of a socket anew, take a client out, and let one in where the server is not full.
pub record Keeps (P : Tables → Type 0) : Type 0 where
  pub writes :
      (t : Tables) (p : ℕ) (x : SocketStruct)
      → x.socket ≡ (t.structs p).socket
      → P t
      → P (record t { structs = update t.structs p x })
  pub renews :
      (t : Tables) (k p : ℕ) (x : SocketStruct)
      → lookup k t.socket_pool ≡ some p
      → x.socket ≡ k
      → P t
      → P (record t { structs = update t.structs p x })
  pub erases : (t : Tables) (k : ℕ) → P t → P (record t { connected = erase k t.connected })
  pub enters :
      (t : Tables) (k p : ℕ)
      → lookup k t.socket_pool ≡ some p
      → lookup (t.structs p).socket t.connected ≡ none
      → length t.connected == t.max_user_count ≡ false
      → P t
      → P (record t { connected = ((t.structs p).socket, p) ∷ t.connected })
