-- ===== src/Tests/Launching.antt =====
-- Runs of the launcher's requests and friends.
use dhserver.Base.{ℕ, ◌≡◌, refl, true, false, List, [], ◌∷◌, arith}
use dhserver.Base.Outcome.{done}
use dhserver.Shared.{Message}
use dhserver.Shared.Bytes.{read_le, write_le}
use dhserver.Server.{Server}
use dhserver.Server.Recv.Stream
use dhserver.Server.Recv.Stream.{Received}
use dhserver.Sender.{sent}
use dhserver.Receiver.Line.{joined}
use dhserver.Client.{Client}
use dhserver.Client.Send.{send_function}
use dhserver.DhNetWork.{new_dh_net_work}
use dhserver.Launcher.{Toolkit, accept_friend}
use dhserver.Launcher.Requests.{Panel, push_answer_button}
use dhserver.Launcher.Requests.Shown.{IsShowing, showing, push_answer_shows}
use dhserver.Launcher.Requests.Overrun.{IsWide}
use dhserver.Launcher.Answer.{Line, nothing}
use dhserver.Launcher.Login.{type_of}
use dhserver.Launcher.Pass.{GamePlayLauncher, take_messages}
use dhserver.Launcher.Pass.Current.{IsCurrent, state_of, take_messages_shows}
use dhserver.Client.Send.Streams.{number_of}
use dhserver.Launcher.Posting.{packet_of, asked, client_api, post_queues}
use dhserver.Launcher.Posting.Arriving.{answer_arrives}
use dhserver.Tests.{all_ok, listening-IsValid, serving}
use dhserver.Tests.Accounts.{ann, bob}
use dhserver.Tests.Connecting.{connected}

-- A codec that changes nothing, a table of one byte, and a state with a friend who is online and a
-- request.
abbrev pub plain : Toolkit
plain = record {
  to_unicode = λ b. b;
  to_local8bit = λ b. b;
  sort_children = λ xs. xs;
  build = λ q. 7 ∷ [];
  read_login_res = λ b. (4, 1);
  read_real_time = λ b. record { friend_state = (ann, 2) ∷ []; friend_request = bob ∷ [] };
}

-- Two requests are shown.
abbrev pub two_shown : Panel
two_shown = showing plain (ann ∷ bob ∷ []) ([] ∷ []) ([] ∷ []) false

two_shown-IsShowing : IsShowing plain (ann ∷ bob ∷ []) two_shown
two_shown-IsShowing = ([] ∷ [], [] ∷ [], refl, refl, refl)

pub two_shown-IsWide : IsWide two_shown
two_shown-IsWide = record { names = refl; slots = refl }

push_answer_shows_example :
    (p1 : Panel) × (push_answer_button plain
        (client_api new_dh_net_work connected)
        ann
        two_shown
        0
        true
      ≡ done (
        client_api new_dh_net_work (asked connected (packet_of plain (accept_friend ann ann true))),
        p1,
      ))
    × IsShowing plain (bob ∷ []) p1
    × (p1.is_hidden ≡ false)
push_answer_shows_example =
    push_answer_shows plain (client_api new_dh_net_work connected)
      (client_api new_dh_net_work (asked connected (packet_of plain (accept_friend ann ann true))))
      ann two_shown (ann ∷ bob ∷ []) 0 ann true two_shown-IsShowing refl
      (post_queues plain new_dh_net_work connected 5 (accept_friend ann ann true)
        (number_of connected 5 (omega arith, _, refl, refl)) (λ e. omega (arith, e)) (omega arith))

answer_arrives_example :
    let answer = packet_of plain (accept_friend ann bob false) in
    let chunks : List (List ℕ) = (1 ∷ 0 ∷ 0 ∷ []) ∷ (0 ∷ 0 ∷ 0 ∷ 0 ∷ 0 ∷ 139 ∷ 19 ∷ 7 ∷ []) ∷ [] in
    (p1 : Panel) × (c1 : Client) × (r1 : Server) × (push_answer_button plain
        (client_api new_dh_net_work connected)
        ann
        two_shown
        1
        false
      ≡ done (client_api new_dh_net_work (asked connected answer), p1))
    × IsShowing plain (ann ∷ []) p1
    × (send_function all_ok (asked connected answer) ≡ done c1)
    × (sent 5 c1.calls ≡ joined chunks)
    × (Stream.transfers all_ok serving 5 0 chunks ≡ done r1)
    × Received serving 5 0 (answer ∷ []) r1
unfolding sent write_le
answer_arrives_example =
    answer_arrives plain new_dh_net_work connected 5 ann two_shown (ann ∷ bob ∷ []) 1 bob false
      all_ok all_ok serving 5 0 ((1 ∷ 0 ∷ 0 ∷ []) ∷ (0 ∷ 0 ∷ 0 ∷ 0 ∷ 0 ∷ 139 ∷ 19 ∷ 7 ∷ []) ∷ [])
      two_shown-IsShowing refl (omega arith) (λ h socket op bytes. refl) (λ e. omega (arith, e))
      (omega arith, _, refl, refl) refl refl (λ h socket op n. refl) listening-IsValid refl
      (omega arith, omega arith, (omega arith, omega arith, tt)) refl

-- The line of a new dialog.
abbrev pub first_line : Line
first_line = record {
  current_visible_state = false;
  is_visible_start = false;
  prev_time = 0;
  notice = nothing;
  is_visible = true;
  list_height = 531;
  list_start_y = 190;
  waiting_hides = 0;
}

-- A dialog that shows two requests, and a packet of the state.
abbrev pub dialog : GamePlayLauncher
dialog = record {
  user_name = ann;
  recv_friend = [];
  recv_friend_request = [];
  tree = λ root. [];
  panel = two_shown;
  line = first_line;
  game = record { is_playing = false; process = false };
}

abbrev state_message : Message
state_message = record { socket = 5; packet = 1 ∷ 0 ∷ 0 ∷ 0 ∷ 0 ∷ 0 ∷ 0 ∷ 0 ∷ 125 ∷ 21 ∷ 7 ∷ [] }

take_messages_shows_example :
    (g1 : GamePlayLauncher) × (take_messages plain (state_message ∷ state_message ∷ []) dialog
      ≡ done g1)
    × IsWide g1.panel
    × IsCurrent plain (state_of plain state_message) g1
unfolding type_of read_le
take_messages_shows_example =
    take_messages_shows plain (state_message ∷ []) [] state_message dialog
      (record { kept = λ text xs. refl }) two_shown-IsWide (omega arith, (omega arith, tt)) refl tt
