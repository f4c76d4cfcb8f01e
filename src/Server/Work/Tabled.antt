-- ===== src/Server/Work/Tabled.antt =====
-- The two tables of sockets (DHServer.cpp: g_Socket_Struct_Pool, g_Connected_Client) agree, through
-- WorkThread, Disconnect and the rounds of Accept.
use dhserver.Base.{
  ℕ, ◌<◌, ◌≡◌, sym, ap, ◌∙◌, subst, List, [], ◌∷◌, none, some, arith, lookup, erase, update, ◌==◌,
  ==→eq, Bool-cases, inl, inr, if◌then◌else◌,
}
use mathlib.Core.Option.{some-injective, none-ne-some}
use dhserver.Base.Outcome.{done}
use dhserver.Shared.{SocketStruct}
use dhserver.Server.{Server, Os}
use dhserver.Server.Tables.{Tables, tables, Keeps}
use dhserver.Server.Work.{Entry, Next, work_entries}
use dhserver.Server.Work.Keeps.{work_entries-Holds}
use dhserver.Server.Work.Late.{IsMap}

-- Every entry of a table is so.
abbrev pub AllIn : (ℕ → ℕ → Type 0) → List (ℕ × ℕ) → Type 0
AllIn Q [] = Unit {0}
AllIn Q ((k, v) ∷ m) = Q k v × AllIn Q m

pub AllIn-lookup :
    (Q : ℕ → ℕ → Type 0) (k v : ℕ) (m : List (ℕ × ℕ)) → AllIn Q m → lookup k m ≡ some v → Q k v
unfolding lookup
AllIn-lookup Q k v [] a e = absurd (none-ne-some v e)
AllIn-lookup Q k v ((j, w) ∷ m) a e = elim (Bool-cases (k == j)) [
  | inl z ↦
      let same : w ≡ v =
        some-injective w v (sym (ap (λ b. if b then some w else lookup k m) z) ∙ e) in
      subst (Q k) same (subst (λ x. Q x w) (sym (==→eq k j z)) a.0)
  | inr z ↦ AllIn-lookup Q k v m a.1 (sym (ap (λ b. if b then some w else lookup k m) z) ∙ e)
]

AllIn-erase : (Q : ℕ → ℕ → Type 0) (k : ℕ) (m : List (ℕ × ℕ)) → AllIn Q m → AllIn Q (erase k m)
unfolding erase
AllIn-erase Q k [] a = a
AllIn-erase Q k ((j, w) ∷ m) a = elim (Bool-cases (k == j)) [
  | inl z ↦ rw z a.1
  | inr z ↦ rw z (a.0, AllIn-erase Q k m a.1)
]

pub AllIn-map :
    (Q R : ℕ → ℕ → Type 0) (m : List (ℕ × ℕ)) → ((k v : ℕ) → Q k v → R k v) → AllIn Q m → AllIn R m
AllIn-map Q R [] f a = a
AllIn-map Q R ((j, w) ∷ m) f a = (f j w a.0, AllIn-map Q R m f a.1)

pub AllIn-both :
    (Q R : ℕ → ℕ → Type 0) (m : List (ℕ × ℕ))
    → AllIn Q m
    → AllIn R m
    → AllIn (λ k v. Q k v × R k v) m
AllIn-both Q R [] a b = tt
AllIn-both Q R ((j, w) ∷ m) a b = ((a.0, b.0), AllIn-both Q R m a.1 b.1)

lookup-erase-none : (j k : ℕ) (m : List (ℕ × ℕ)) → lookup j m ≡ none → lookup j (erase k m) ≡ none
unfolding lookup erase
lookup-erase-none j k [] e = e
lookup-erase-none j k ((i, w) ∷ m) e = ground (arith, lookup-erase-none j k m)

IsMap-erase : (k : ℕ) (m : List (ℕ × ℕ)) → IsMap m → IsMap (erase k m)
unfolding erase
IsMap-erase k [] a = a
IsMap-erase k ((j, w) ∷ m) a = elim (Bool-cases (k == j)) [
  | inl z ↦ rw z a.1
  | inr z ↦ rw z (lookup-erase-none j k m a.0, IsMap-erase k m a.1)
]

-- The tables agree: no socket stands twice in a table; the structure of each entry of the pool has
-- the entry's socket and has been made; and each connected client has its structure from the pool.
pub record IsTabled (t : Tables) : Type 0 where
  pub pool_map : IsMap t.socket_pool
  pub connected_map : IsMap t.connected
  pub sockets : AllIn (λ k p. (t.structs p).socket ≡ k) t.socket_pool
  pub made : AllIn (λ k p. p < t.next_struct) t.socket_pool
  pub pooled : AllIn (λ k p. lookup k t.socket_pool ≡ some p) t.connected

-- A structure that is written to, where the new one has the socket `k` and so has the old one.
pub written_socket :
    (structs : ℕ → SocketStruct) (p : ℕ) (x : SocketStruct) (k q : ℕ)
    → x.socket ≡ (structs p).socket
    → (structs q).socket ≡ k
    → (update structs p x q).socket ≡ k
written_socket structs p x k q e h = ground arith

IsTabled-writes :
    (t : Tables) (p : ℕ) (x : SocketStruct)
    → x.socket ≡ (t.structs p).socket
    → IsTabled t
    → IsTabled (record t { structs = update t.structs p x })
IsTabled-writes t p x e h = record {
  pool_map = h.pool_map;
  connected_map = h.connected_map;
  sockets =
      AllIn-map (λ k q. (t.structs q).socket ≡ k) _ t.socket_pool
        (λ k q. written_socket t.structs p x k q e) h.sockets;
  made = h.made;
  pooled = h.pooled;
}

pub IsTabled-socket :
    (t : Tables) (k p : ℕ) → IsTabled t → lookup k t.socket_pool ≡ some p → (t.structs p).socket ≡ k
IsTabled-socket t k p h e = AllIn-lookup _ k p t.socket_pool h.sockets e

IsTabled-erases :
    (t : Tables) (k : ℕ) → IsTabled t → IsTabled (record t { connected = erase k t.connected })
IsTabled-erases t k h = record {
  pool_map = h.pool_map;
  connected_map = IsMap-erase k t.connected h.connected_map;
  sockets = h.sockets;
  made = h.made;
  pooled = AllIn-erase _ k t.connected h.pooled;
}

IsTabled-enters :
    (t : Tables) (k p : ℕ)
    → lookup k t.socket_pool ≡ some p
    → lookup (t.structs p).socket t.connected ≡ none
    → IsTabled t
    → IsTabled (record t { connected = ((t.structs p).socket, p) ∷ t.connected })
IsTabled-enters t k p e n h = record {
  pool_map = h.pool_map;
  connected_map = (n, h.connected_map);
  sockets = h.sockets;
  made = h.made;
  pooled = (ap (λ j. lookup j t.socket_pool) (IsTabled-socket t k p h e) ∙ e, h.pooled);
}

pub IsTabled-Keeps : Keeps IsTabled
IsTabled-Keeps = record {
  writes = IsTabled-writes;
  renews = λ t k p x e f h. IsTabled-writes t p x (f ∙ sym (IsTabled-socket t k p h e)) h;
  erases = IsTabled-erases;
  enters = λ t k p e n full h. IsTabled-enters t k p e n h;
}

-- Where the tables agree, they still do once WorkThread has handled entries of any kind one after the
-- other, with whatever answers of Windows, if it comes back from them.
pub work_entries-IsTabled :
    (os : Os) (s : Server) (entries : List Entry)
    → IsTabled (tables s)
    → (next : Next) (s' : Server) → work_entries os s entries ≡ done (next, s')
    → IsTabled (tables s')
work_entries-IsTabled os s entries h next s' run =
    (work_entries-Holds IsTabled IsTabled-Keeps os entries s h).result (next, s') run
