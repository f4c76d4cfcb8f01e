-- ===== src/Tests/Arriving.antt =====
-- Runs of a state from a server to the launcher, and of the launcher that connects.
use dhserver.Base.{some, ◌++◌, ◌≡◌, refl, sym, false, [], ◌∷◌, arith, lookup}
use dhserver.Base.Outcome.{done}
use dhserver.Shared.Bytes.{write_le}
use dhserver.Shared.Packet.{Packet, IsSendable, stream}
use dhserver.Server.{Server}
use dhserver.Server.Send.{send_thread_pass}
use dhserver.Server.Send.Streams.{entries, send_thread_pass_streams}
use dhserver.Sender.{sent}
use dhserver.Client.{Client}
use dhserver.Client.Recv.Stream.{transfers}
use dhserver.DhNetWork.{new_dh_net_work}
use dhserver.Launcher.Requests.Overrun.{IsWide}
use dhserver.Launcher.Pass.{GamePlayLauncher, pass}
use dhserver.Launcher.Pass.Current.{IsCurrent}
use dhserver.Launcher.Pass.Arriving.{state_arrives}
use dhserver.Launcher.Posting.{client_api}
use dhserver.Launcher.Connecting.{connect_login}
use dhserver.Launcher.Connecting.Connected.{goes_on_with, connect_login_waits}
use dhserver.Tests.{all_ok, listening, listening-IsValid, serving}
use dhserver.Tests.Connecting.{connected}
use dhserver.Tests.Launching.{plain, dialog, two_shown-IsWide}

-- A packet with the state of the friends, and a server that is to send it.
abbrev news : Packet
news = record { kind = 5501; body = 7 ∷ [] }

news-IsSendable : IsSendable news
news-IsSendable = record {
  has_kind = omega arith;
  kind_fits = omega arith;
  size_fits = omega arith;
}

abbrev sender : Server
sender = record serving { send_queue = entries 5 (news ∷ []) }

sends :
    (s' : Server) × (send_thread_pass all_ok sender ≡ done s')
    × (sent 5 s'.calls ≡ sent 5 [] ++ stream (news ∷ []))
    × (s'.connected ≡ serving.connected)
unfolding lookup
sends =
    send_thread_pass_streams all_ok 5 (λ h socket op bytes. refl) sender (news ∷ []) 5 (omega arith)
      (news-IsSendable, tt) refl refl

state_arrives_example :
    (c1 : Client) × (g1 : GamePlayLauncher) × (transfers all_ok 0 connected
        ((1 ∷ 0 ∷ 0 ∷ []) ∷ (0 ∷ 0 ∷ 0 ∷ 0 ∷ 0 ∷ 125 ∷ 21 ∷ 7 ∷ []) ∷ [])
      ≡ done c1)
    × (pass plain (client_api new_dh_net_work c1) false 9 dialog
        ≡ done (client_api new_dh_net_work (record c1 { recv_queue = [] }), g1))
    × IsWide g1.panel
    × IsCurrent plain (plain.read_real_time (7 ∷ [])) g1
unfolding lookup sent write_le
state_arrives_example =
    state_arrives all_ok all_ok (λ h socket op bytes. refl) (λ h socket op n. refl) sender sends.0 5
      5 [] [] news connected 0 ((1 ∷ 0 ∷ 0 ∷ []) ∷ (0 ∷ 0 ∷ 0 ∷ 0 ∷ 0 ∷ 125 ∷ 21 ∷ 7 ∷ []) ∷ [])
      plain new_dh_net_work false 9 dialog (omega arith) (news-IsSendable, tt) (omega arith, tt)
      refl refl refl sends.1 (_, refl) refl listening-IsValid refl
      (omega arith, omega arith, (omega arith, omega arith, tt)) (sym sends.2)
      (record { kept = λ text xs. refl }) two_shown-IsWide refl refl tt (omega arith, tt)

-- The client before and behind its connection.
connect_login_waits_example :
    connect_login
      (λ q. listening)
      (record connected { is_server_connect_success = false } ∷ connected ∷ [])
    ≡ goes_on_with (some connected)
connect_login_waits_example =
    connect_login_waits (λ q. listening) (record connected { is_server_connect_success = false })
      (connected ∷ []) (refl, (refl, tt))
