-- ===== src/Launcher/Connecting/Connected.antt =====
-- When the launcher (LoginLauncher.cpp) goes on from the loop in which it connects.
use dhserver.Base.{
  ℕ, ◌≡◌, refl, List, [], ◌∷◌, Option, none, some, if◌then◌else◌, Bool-cases, inl, inr,
}
use dhserver.Base.Outcome.{Outcome, spin, done}
use dhserver.Shared.{Overlapped}
use dhserver.Client.{Client, running, new_client}
use dhserver.Client
use dhserver.DhNetWork.{DhNetWork, new_dh_net_work, through, net_connect}
use dhserver.DhNetWork
use dhserver.DhNetWorkApi.{NetWorkPtr, live, pass_on, new_api}
use dhserver.DhNetWorkApi
use dhserver.Launcher.Connecting.{
  left_as, connect_loop, connect_login, login_server_port, server_connect_ip,
}
use dhserver.Launcher.Posting.{client_api}

-- The thread of each of these clients has been started and not ended.
abbrev pub AllRunning : List Client → Type 0
AllRunning [] = Unit {0}
AllRunning (c ∷ cs) = (c.connect_send_thread ≡ running) × AllRunning cs

-- The first client that is connected.
abbrev pub first_connected : List Client → Option Client
first_connected [] = none
first_connected (c ∷ cs) = if c.is_server_connect_success then some c else first_connected cs

-- The network of that client, if there is one; else the wait goes on.
abbrev pub goes_on_with : Option Client → Outcome NetWorkPtr
goes_on_with none = spin
goes_on_with (some c) = done (client_api new_dh_net_work c)

-- Connect of a client whose thread runs.
connect_again :
    (memory : ℕ → Overlapped) (c : Client) (port : ℕ) (ip : List ℕ)
    → c.connect_send_thread ≡ running
    → DhNetWorkApi.connect memory (client_api new_dh_net_work c) port ip
      ≡ done ((if c.is_server_connect_success then 1 else 0), client_api new_dh_net_work c)
unfolding DhNetWorkApi.connect pass_on DhNetWork.connect through net_connect Client.connect
connect_again memory c port ip e = simp (e, Client.connect) refl

loop_again :
    (memory : ℕ → Overlapped) (c : Client) (cs : List Client)
    → AllRunning (c ∷ cs)
    → connect_loop memory cs (client_api new_dh_net_work c)
      ≡ goes_on_with (first_connected (c ∷ cs))
unfolding connect_loop left_as
loop_again memory c [] (e, a) = elim (Bool-cases c.is_server_connect_success) [
  | inl h ↦
      rw (connect_again memory c login_server_port server_connect_ip e, connect_loop) (rw h refl)
  | inr h ↦
      rw (connect_again memory c login_server_port server_connect_ip e, connect_loop) (rw h refl)
]
loop_again memory c (d ∷ cs) (e, a) = elim (Bool-cases c.is_server_connect_success) [
  | inl h ↦
      rw (connect_again memory c login_server_port server_connect_ip e, connect_loop) (rw h refl)
  | inr h ↦
      rw (connect_again memory c login_server_port server_connect_ip e, connect_loop)
        (rw h (loop_again memory d cs a))
]

-- The constructor of LoginLauncher, where the other threads leave the client in these states between
-- its calls of Connect, with its thread running: it goes on with the first of them that is connected,
-- through a network that is this client, and waits for ever if none is. Before the first call there is
-- no client; this call makes it and never succeeds.
pub connect_login_waits :
    (memory : ℕ → Overlapped) (c : Client) (cs : List Client)
    → AllRunning (c ∷ cs)
    → connect_login memory (c ∷ cs) ≡ goes_on_with (first_connected (c ∷ cs))
unfolding connect_login connect_loop left_as DhNetWorkApi.initialize DhNetWorkApi.connect pass_on
    DhNetWork.connect DhNetWork.initialize through net_connect Client.connect new_dh_net_work
    new_client Client.set_debug
connect_login_waits memory c cs a = loop_again memory c cs a
