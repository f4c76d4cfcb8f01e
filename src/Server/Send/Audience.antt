-- ===== src/Server/Send/Audience.antt =====
-- Who gets a packet (DHServer.cpp: BroadCastMessage, Target_Message, Except_Target_Message, Send):
-- what the calls put into the queue of SendThread.
use dhserver.Base.{
  ℕ, suc, ◌+◌, ◌≤◌, ◌≡◌, refl, sym, ap, ap₂, ◌∙◌, List, [], ◌∷◌, ◌++◌, some, arith, length, take,
  lookup, ◌==◌, if◌then◌else◌, Bool-cases, inl, inr, append-nil, append_assoc, le→ltb, ==_self,
}
use dhserver.Base.Outcome.{done}
use dhserver.Server.{Server}
use dhserver.Server.Send.{
  total_size, copy_packet, push_send, broadcast_loop, broad_cast_message, except_loop,
  except_target_message,
}

-- One copy of the packet for each of the clients, in their order.
abbrev pub copies : List ℕ → List (ℕ × ℕ) → List (ℕ × List ℕ)
copies packet [] = []
copies packet ((socket, p) ∷ clients) =
    (socket, take (total_size packet) packet) ∷ copies packet clients

-- The clients on other sockets.
abbrev pub others : ℕ → List (ℕ × ℕ) → List (ℕ × ℕ)
others target [] = []
others target ((socket, p) ∷ clients) =
    if socket == target then others target clients else (socket, p) ∷ others target clients

-- The queue with more entries at its end.
abbrev pub queued : Server → List (ℕ × List ℕ) → Server
queued s entries = record s { send_queue = s.send_queue ++ entries }

-- Each key of the first list is in the map.
abbrev HasKeys : List (ℕ × ℕ) → List (ℕ × ℕ) → Type 0
HasKeys [] m = Unit {0}
HasKeys ((j, v) ∷ xs) m = ((p : ℕ) × (lookup j m ≡ some p)) × HasKeys xs m

HasKeys-cons :
    (xs : List (ℕ × ℕ)) (j v : ℕ) (m : List (ℕ × ℕ)) → HasKeys xs m → HasKeys xs ((j, v) ∷ m)
unfolding lookup
HasKeys-cons [] j v m h = tt
HasKeys-cons ((k, w) ∷ xs) j v m h = (found, HasKeys-cons xs j v m h.1)
  where
    found : (p : ℕ) × (lookup k ((j, v) ∷ m) ≡ some p)
    found = elim (Bool-cases (k == j)) [ inl e ↦ (v, rw e refl) | inr e ↦ (h.0.0, rw e h.0.1) ]

HasKeys-self : (m : List (ℕ × ℕ)) → HasKeys m m
unfolding lookup
HasKeys-self [] = tt
HasKeys-self ((j, v) ∷ m) = ((v, rw (==_self j) refl), HasKeys-cons m j v m (HasKeys-self m))

copy_packet_whole :
    (packet : List ℕ)
    → total_size packet ≤ length packet
    → copy_packet packet ≡ done (take (total_size packet) packet)
unfolding copy_packet
copy_packet_whole packet h = rw (le→ltb (length packet) (total_size packet) h) refl

queued-queued :
    (s : Server) (x : ℕ × List ℕ) (xs : List (ℕ × List ℕ))
    → queued (queued s (x ∷ [])) xs ≡ queued s (x ∷ xs)
queued-queued s x xs = ap (λ q. record s { send_queue = q }) (append_assoc s.send_queue (x ∷ []) xs)

queued-nil : (s : Server) → queued s [] ≡ s
queued-nil s = ap (λ q. record s { send_queue = q }) (append-nil s.send_queue)

module _ (packet : List ℕ) (h : total_size packet ≤ length packet) where
  broadcast_loop-queued :
      (clients : List (ℕ × ℕ)) (count : ℕ) (s : Server)
      → HasKeys clients s.connected
      → broadcast_loop clients packet count s
        ≡ done (count + length clients, queued s (copies packet clients))
  unfolding broadcast_loop push_send
  broadcast_loop-queued [] count s k =
      let z : count + 0 ≡ count = omega arith in
      rw z (ap (λ s1. done (count, s1)) (sym (queued-nil s)))
  broadcast_loop-queued ((socket, p) ∷ clients) count s k =
      let x : ℕ × List ℕ = (socket, take (total_size packet) packet) in
      let c : count + 1 + length clients ≡ count + suc (length clients) = omega arith in
      rw (copy_packet_whole packet h, k.0.1)
        (broadcast_loop-queued clients (count + 1) (queued s (x ∷ [])) k.1
          ∙ ap₂ (λ n s1. done (n, s1)) c (queued-queued s x (copies packet clients)))

  except_loop-queued :
      (clients : List (ℕ × ℕ)) (target count : ℕ) (s : Server)
      → HasKeys clients s.connected
      → except_loop clients target packet count s
        ≡ done (
          count + length (others target clients),
          queued s (copies packet (others target clients)),
        )
  unfolding except_loop push_send
  except_loop-queued [] target count s k =
      let z : count + 0 ≡ count = omega arith in
      rw z (ap (λ s1. done (count, s1)) (sym (queued-nil s)))
  except_loop-queued ((socket, p) ∷ clients) target count s k =
      let x : ℕ × List ℕ = (socket, take (total_size packet) packet) in
      let xs = others target clients in
      let c : count + 1 + length xs ≡ count + suc (length xs) = omega arith in
      elim (Bool-cases (socket == target)) [
        | inl e ↦ rw (k.0.1, except_loop) (rw e (except_loop-queued clients target count s k.1))
        | inr e ↦
            rw (k.0.1, except_loop)
              (rw e (
                rw (copy_packet_whole packet h) (
                  except_loop-queued clients target (count + 1) (queued s (x ∷ [])) k.1
                  ∙ ap₂ (λ n s1. done (n, s1)) c (queued-queued s x (copies packet xs)))))
      ]

-- BroadCastMessage of a packet that is as long as its header says, or longer, puts exactly one copy
-- of the packet for each connected client behind what SendThread has still to send, changes nothing
-- else, and returns the number of connected clients.
pub broad_cast_message_reaches :
    (s : Server) (packet : List ℕ)
    → total_size packet ≤ length packet
    → broad_cast_message s packet ≡ done (length s.connected, queued s (copies packet s.connected))
unfolding broad_cast_message
broad_cast_message_reaches s packet h =
    broadcast_loop-queued packet h s.connected 0 s (HasKeys-self s.connected)
    ∙ ap (λ n. done (n, queued s (copies packet s.connected))) (omega arith)

-- Except_Target_Message of a packet that is as long as its header says, or longer, puts exactly one
-- copy of the packet for each connected client on another socket than the target behind what
-- SendThread has still to send, changes nothing else, and returns how many these clients are.
pub except_target_message_reaches :
    (s : Server) (target : ℕ) (packet : List ℕ)
    → total_size packet ≤ length packet
    → except_target_message s target packet
      ≡ done
          (length (others target s.connected), queued s (copies packet (others target s.connected)))
unfolding except_target_message
except_target_message_reaches s target packet h =
    except_loop-queued packet h s.connected target 0 s (HasKeys-self s.connected)
    ∙ ap (λ n. done (n, queued s (copies packet (others target s.connected)))) (omega arith)
