-- ===== src/Launcher/Posting.antt =====
-- The tables of the launcher's dialogs (GameLauncher/GameLauncher) on their way through the client of
-- the network to the login server.
pub mod Arriving
use dhserver.Base.{
  ℕ, zero, suc, ◌+◌, ◌^◌, ◌≤◌, ◌<◌, ◌≡◌, ◌≢◌, refl, sym, ap, ◌∙◌, Bool, true, false, List, [], ◌∷◌,
  ◌++◌, map, Option, none, some, arith, ltb, le→ltb, leb, ◌==◌, if◌then◌else◌, length, take, drop,
  replicate, length-replicate, length-append, length-drop, take-append_self, append-nil,
  append_assoc,
}
use dhserver.Base.Outcome.{Outcome, done, ◌>>=◌}
use dhserver.Shared.{invalid_socket, logic_success, max_packet_size}
use dhserver.Shared.Bytes.{write_le}
use dhserver.Shared.Packet.{Packet, encode, IsSendable, size-encode, kind-encode, length-encode}
use dhserver.Server.Send.{total_size, copy_packet}
use dhserver.Client.{Client, socket_of}
use dhserver.Client
use dhserver.DhNetWork.{DhNetWork, NetWork, is_client, type_dhclient, net_send, through}
use dhserver.DhNetWork
use dhserver.DhNetWorkApi.{NetWorkPtr, live, pass_on}
use dhserver.DhNetWorkApi
use dhserver.Launcher.{Toolkit, C2s, packet_type, new_buffer, put_on, post}

-- The packet that a table becomes.
abbrev pub packet_of : Toolkit → C2s → Packet
packet_of tk q = record { kind = packet_type q; body = tk.build q }

-- The client with one packet more in its send queue.
abbrev pub asked : Client → Packet → Client
asked c p = record c { send_queue = c.send_queue ++ encode p ∷ [] }

-- A network that is this client.
abbrev pub client_api : DhNetWork → Client → NetWorkPtr
client_api f c = live (record f { current_type = type_dhclient; net_work = some (is_client c) })

pub packet_of-IsSendable :
    (tk : Toolkit) (q : C2s) → length (tk.build q) ≤ max_packet_size → IsSendable (packet_of tk q)
packet_of-IsSendable tk q l = record {
  has_kind = (kinds q).0;
  kind_fits = (kinds q).1;
  size_fits = omega arith;
}
  where
    kinds : (q : C2s) → (0 < packet_type q) × (packet_type q < 2 ^ 16)
    kinds (C2s.login_req id password) = (omega arith, omega arith)
    kinds (C2s.create_user id password) = (omega arith, omega arith)
    kinds (C2s.add_friend my friend) = (omega arith, omega arith)
    kinds (C2s.accept_friend my friend b) = (omega arith, omega arith)
    kinds (C2s.play_state my b) = (omega arith, omega arith)

-- A packet is copied without the memory behind it.
copy_packet-encode :
    (p : Packet) (rest : List ℕ) → IsSendable p → copy_packet (encode p ++ rest) ≡ done (encode p)
unfolding copy_packet total_size
copy_packet-encode p rest v =
    let total : total_size (encode p ++ rest) ≡ length (encode p) =
      rw (size-encode p rest v) (omega (arith, length-encode p, v.size_fits)) in
    rw total (
      rw
        (le→ltb (length (encode p ++ rest)) (length (encode p))
          (omega (arith, length-append (encode p) rest)))
        (rw take-append_self refl))

-- Send of a connected client, for a packet in larger memory.
client_send :
    (c : Client) (socket : ℕ) (p : Packet) (rest : List ℕ) (send_type target : ℕ)
    → socket_of c ≡ done socket
    → socket ≢ invalid_socket
    → IsSendable p
    → Client.send c (encode p ++ rest) send_type target ≡ done (logic_success, asked c p)
unfolding Client.send
client_send c socket p rest send_type target e o v =
    let closed : socket == invalid_socket ≡ false = ground arith in
    let whole : ltb (length (encode p ++ rest)) 10 ≡ false =
      le→ltb (length (encode p ++ rest)) 10
        (omega (arith, length-append (encode p) rest, length-encode p)) in
    let typed : p.kind == 0 ≡ false = has_type p.kind v.has_kind in
    rw e (
      rw (closed, whole)
        (rw (kind-encode p rest v) (rw typed (rw (copy_packet-encode p rest v) refl))))
  where
    has_type : (k : ℕ) → 0 < k → k == 0 ≡ false
    has_type k h = ground arith

-- The header is put on: the packet, and the rest of the buffer behind it.
put_on-encode :
    (tk : Toolkit) (q : C2s)
    → length (tk.build q) ≤ max_packet_size
    → put_on tk new_buffer q
      ≡ done (encode (packet_of tk q) ++ drop (length (tk.build q)) new_buffer)
unfolding put_on
put_on-encode tk q l =
    let rest = drop (length (tk.build q)) new_buffer in
    rw
      (le→ltb (length new_buffer) (length (tk.build q))
        (omega (arith, length-replicate {A = ℕ} max_packet_size 0)))
      (ap done (
        sym (
          append_assoc (write_le 8 (length (tk.build q))) (write_le 2 (packet_type q) ++ tk.build q)
            rest
          ∙ ap (λ b. write_le 8 (length (tk.build q)) ++ b)
              (append_assoc (write_le 2 (packet_type q)) (tk.build q) rest))))

-- A table of at most the size of a packet, sent through a client that has an open socket: what the
-- client queues is the packet of the table, without the rest of the C2S_Packet.
pub post_queues :
    (tk : Toolkit) (f : DhNetWork) (c : Client) (socket : ℕ) (q : C2s)
    → socket_of c ≡ done socket
    → socket ≢ invalid_socket
    → length (tk.build q) ≤ max_packet_size
    → post tk (client_api f c) q ≡ done (client_api f (asked c (packet_of tk q)))
unfolding post DhNetWorkApi.send pass_on DhNetWork.send through net_send
post_queues tk f c socket q e o l = rw (put_on-encode tk q l) (
    rw (client_send c socket (packet_of tk q) _ 0 invalid_socket e o (packet_of-IsSendable tk q l))
      refl)
