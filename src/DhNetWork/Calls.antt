-- ===== src/DhNetWork/Calls.antt =====
-- What one call on a DHNetWork (DHNetWork.cpp) does to its role.
use dhserver.Base.{ℕ, ◌≡◌, ◌⊎◌, inl, inr, refl, ◌∙◌, List, Option, none, some}
use dhserver.Base.Outcome.{Outcome, done, Ensures, Ensures-done, Ensures-fault, Ensures-bind}
use dhserver.Shared.{Overlapped, Message, logic_fail}
use dhserver.Server.{Server, Os}
use dhserver.Client.{Client}
use dhserver.Client
use dhserver.Server.Start.{set_debug}
use dhserver.DhNetWork.{
  NetType, type_nonset, type_dhserver, type_dhclient, NetWork, is_server, is_client, DhNetWork,
  new_server, served, connected, net_send, net_connect, net_accept, net_disconnect, net_recv,
  net_end, through, send, connect, accept, disconnect, recv, end,
}

-- The role that a network has been made for.
abbrev pub class_of : NetWork → NetType
class_of (is_server s) = type_dhserver
class_of (is_client c) = type_dhclient

abbrev pub Fits : NetType → Option NetWork → Type 0
Fits t none = Unit {0}
Fits t (some n) = class_of n ≡ t

-- The network, if there is one, is what Current_Type says.
abbrev pub IsCoherent : DhNetWork → Type 0
IsCoherent f = Fits f.current_type f.net_work

abbrev pub SameClass : NetWork → ℕ × NetWork → Type 0
SameClass n r = class_of r.1 ≡ class_of n

-- After a call on a network of the role `t`: it has kept the role, or has taken one.
abbrev pub Kept : NetType → DhNetWork → Type 0
Kept t g = IsCoherent g × ((g.current_type ≡ t) ⊎ (t ≡ type_nonset))

abbrev pub KeptAfter : NetType → ℕ × DhNetWork → Type 0
KeptAfter t r = Kept t r.1

abbrev pub at : Option NetWork → ℕ → NetType → DhNetWork
at n d t = record { net_work = n; debug_option = d; current_type = t }

pub any {ℓ} : {A : Type ℓ} (m : Outcome A) → Ensures (λ _. Unit {0}) m
any m = record { result = λ a e. tt }

pub served-SameClass :
    (s : Server) (m : Outcome (ℕ × Server)) → Ensures (SameClass (is_server s)) (served m)
served-SameClass s m =
    Ensures-bind (λ _. Unit {0}) (SameClass (is_server s)) m _ (any m)
      λ (r, s1) h. Ensures-done (SameClass (is_server s)) (r, is_server s1) refl

pub connected-SameClass :
    (c : Client) (m : Outcome (ℕ × Client)) → Ensures (SameClass (is_client c)) (connected m)
connected-SameClass c m =
    Ensures-bind (λ _. Unit {0}) (SameClass (is_client c)) m _ (any m)
      λ (r, c1) h. Ensures-done (SameClass (is_client c)) (r, is_client c1) refl

pub net_send-SameClass :
    (n : NetWork) (packet : List ℕ) (send_type socket : ℕ)
    → Ensures (SameClass n) (net_send n packet send_type socket)
unfolding net_send
net_send-SameClass (is_server s) packet send_type socket = served-SameClass s _
net_send-SameClass (is_client c) packet send_type socket = connected-SameClass c _

pub net_connect-SameClass :
    (n : NetWork) (port : ℕ) (ip : List ℕ) → Ensures (SameClass n) (net_connect n port ip)
unfolding net_connect
net_connect-SameClass (is_server s) port ip = Ensures-done (SameClass (is_server s)) _ refl
net_connect-SameClass (is_client c) port ip =
    connected-SameClass c (done (Client.connect c port ip))

pub net_accept-SameClass :
    (os : Os) (fuel : ℕ) (memory : ℕ → Overlapped) (n : NetWork) (users threads : ℕ)
    → Ensures (SameClass n) (net_accept os fuel memory n users threads)
unfolding net_accept
net_accept-SameClass os fuel memory (is_server s) users threads = served-SameClass s _
net_accept-SameClass os fuel memory (is_client c) users threads =
    Ensures-done (SameClass (is_client c)) _ refl

pub net_disconnect-SameClass :
    (os : Os) (n : NetWork) (socket : ℕ) → Ensures (SameClass n) (net_disconnect os n socket)
unfolding net_disconnect
net_disconnect-SameClass os (is_server s) socket = served-SameClass s _
net_disconnect-SameClass os (is_client c) socket = Ensures-done (SameClass (is_client c)) _ refl

pub through-Kept :
    (t : NetType) (d : ℕ) (t1 : NetType) (o : Option NetWork)
    (call : NetWork → Outcome (ℕ × NetWork))
    → Fits t1 o
    → (t1 ≡ t) ⊎ (t ≡ type_nonset)
    → ((n : NetWork) → Ensures (SameClass n) (call n))
    → Ensures (KeptAfter t) (through (at o d t1) call)
unfolding through
through-Kept t d t1 none call h k c = Ensures-fault (KeptAfter t)
through-Kept t d t1 (some n) call h k c =
    Ensures-bind (SameClass n) (KeptAfter t) (call n) _ (c n)
      λ (r, n1) q. Ensures-done (KeptAfter t) (r, at (some n1) d t1) (q ∙ h, k)

pub send-Kept :
    (o : Option NetWork) (d : ℕ) (t : NetType) (packet : List ℕ) (send_type socket : ℕ)
    → Fits t o
    → Ensures (KeptAfter t) (send (at o d t) packet send_type socket)
unfolding send
send-Kept o d type_nonset packet send_type socket h =
    Ensures-done (KeptAfter type_nonset) (logic_fail, at o d type_nonset) (h, inl refl)
send-Kept o d type_dhserver packet send_type socket h =
    through-Kept type_dhserver d type_dhserver o (λ n. net_send n packet send_type socket) h
      (inl refl) λ n. net_send-SameClass n packet send_type socket
send-Kept o d type_dhclient packet send_type socket h =
    through-Kept type_dhclient d type_dhclient o (λ n. net_send n packet send_type socket) h
      (inl refl) λ n. net_send-SameClass n packet send_type socket

pub connect-Kept :
    (memory : ℕ → Overlapped) (o : Option NetWork) (d : ℕ) (t : NetType) (port : ℕ) (ip : List ℕ)
    → Fits t o
    → Ensures (KeptAfter t) (connect memory (at o d t) port ip)
unfolding connect
connect-Kept memory o d type_dhserver port ip h =
    Ensures-done (KeptAfter type_dhserver) (logic_fail, at o d type_dhserver) (h, inl refl)
connect-Kept memory o d type_nonset port ip h =
    through-Kept type_nonset d type_dhclient
      (some (is_client (Client.set_debug (Client.new_client memory) d)))
      (λ n. net_connect n port ip) refl (inr refl) λ n. net_connect-SameClass n port ip
connect-Kept memory o d type_dhclient port ip h =
    through-Kept type_dhclient d type_dhclient o (λ n. net_connect n port ip) h (inl refl)
      λ n. net_connect-SameClass n port ip

pub accept-Kept :
    (os : Os) (fuel : ℕ) (memory : ℕ → Overlapped) (o : Option NetWork) (d : ℕ) (t : NetType)
    (users threads : ℕ)
    → Fits t o
    → Ensures (KeptAfter t) (accept os fuel memory (at o d t) users threads)
unfolding accept
accept-Kept os fuel memory o d type_dhclient users threads h =
    Ensures-done (KeptAfter type_dhclient) (logic_fail, at o d type_dhclient) (h, inl refl)
accept-Kept os fuel memory o d type_nonset users threads h =
    through-Kept type_nonset d type_dhserver (some (is_server (set_debug (new_server memory) d)))
      (λ n. net_accept os fuel memory n users threads) refl (inr refl)
      λ n. net_accept-SameClass os fuel memory n users threads
accept-Kept os fuel memory o d type_dhserver users threads h =
    through-Kept type_dhserver d type_dhserver o (λ n. net_accept os fuel memory n users threads) h
      (inl refl) λ n. net_accept-SameClass os fuel memory n users threads

pub disconnect-Kept :
    (os : Os) (o : Option NetWork) (d : ℕ) (t : NetType) (socket : ℕ)
    → Fits t o
    → Ensures (KeptAfter t) (disconnect os (at o d t) socket)
unfolding disconnect
disconnect-Kept os o d type_dhserver socket h =
    through-Kept type_dhserver d type_dhserver o (λ n. net_disconnect os n socket) h (inl refl)
      λ n. net_disconnect-SameClass os n socket
disconnect-Kept os o d type_nonset socket h =
    Ensures-done (KeptAfter type_nonset) (logic_fail, at o d type_nonset) (h, inl refl)
disconnect-Kept os o d type_dhclient socket h =
    Ensures-done (KeptAfter type_dhclient) (logic_fail, at o d type_dhclient) (h, inl refl)

pub end-Kept :
    (o : Option NetWork) (d : ℕ) (t : NetType) → Fits t o → Ensures (KeptAfter t) (end (at o d t))
unfolding end
end-Kept none d t h = Ensures-done (KeptAfter t) (1, at none d t) (h, inl refl)
end-Kept (some n) d t h =
    Ensures-bind (λ _. Unit {0}) (KeptAfter t) (net_end n) _ (any (net_end n))
      λ (r, n1) q. Ensures-done (KeptAfter t) (r, at none d t) (tt, inl refl)

abbrev pub KeptReceived : NetType → ℕ × List Message × DhNetWork → Type 0
KeptReceived t r = Kept t r.2

pub received-Kept :
    (n : NetWork) (d : ℕ) (t : NetType) (out : List Message)
    → class_of n ≡ t
    → Fits t (some (net_recv n out).2)
unfolding net_recv
received-Kept (is_server s) d t out h = h
received-Kept (is_client c) d t out h = h

pub recv-Kept :
    (o : Option NetWork) (d : ℕ) (t : NetType) (out : List Message)
    → Fits t o
    → Ensures (KeptReceived t) (recv (at o d t) out)
unfolding recv
recv-Kept o d type_nonset out h =
    Ensures-done (KeptReceived type_nonset) (logic_fail, out, at o d type_nonset) (h, inl refl)
recv-Kept none d type_dhserver out h = Ensures-fault (KeptReceived type_dhserver)
recv-Kept none d type_dhclient out h = Ensures-fault (KeptReceived type_dhclient)
recv-Kept (some n) d type_dhserver out h =
    Ensures-done (KeptReceived type_dhserver) _ (received-Kept n d type_dhserver out h, inl refl)
recv-Kept (some n) d type_dhclient out h =
    Ensures-done (KeptReceived type_dhclient) _ (received-Kept n d type_dhclient out h, inl refl)
