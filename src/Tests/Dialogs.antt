-- ===== src/Tests/Dialogs.antt =====
-- Runs of the launcher's notices, buttons and logins.
use dhserver.Base.{ℕ, ◌≡◌, ◌≢◌, refl, true, false, List, [], ◌∷◌, none, arith, if◌then◌else◌}
use dhserver.Base.Outcome.{done, fault, ◌>>=◌}
use dhserver.Shared.{Message, logic_success}
use dhserver.Shared.Bytes.{read_le, write_le}
use dhserver.Db.Text.{c_str}
use dhserver.DhNetWork.{new_dh_net_work}
use dhserver.DhNetWork
use dhserver.DhNetWork.{through, net_send}
use dhserver.DhNetWorkApi
use dhserver.DhNetWorkApi.{pass_on}
use dhserver.Client
use dhserver.Client.{socket_of}
use dhserver.Server.Send.{copy_packet, total_size}
use dhserver.Launcher.Login
use dhserver.Launcher.Login.{LoginLauncher, login_button, login_answer, find_type, type_of}
use dhserver.Launcher.Login.Waiting.{login_button_answers}
use dhserver.Launcher.{login_req, add_friend, post, local_text, put_on}
use dhserver.Launcher.Requests.{show_requests}
use dhserver.Launcher.Requests.Overrun.{show_requests_overruns}
use dhserver.Launcher.Answer.{
  Line, Notice, already_friend, posted, tell, check_line, run_event, push_friend_request_button,
}
use dhserver.Launcher.Answer.Fitted.{
  Fits, Event, told, taken, passed, handle_all, lowered, handle_all-Fits,
}
use dhserver.Launcher.Answer.Times.{pass_all, notice_lasts, later_notice_vanishes}
use dhserver.Launcher.Answer.Posted.{is_askable, push_friend_request_asks}
use dhserver.Launcher.Playing.{Game}
use dhserver.Launcher.Playing.Turns.{pushed, watched, play, TakesTurns, play-TakesTurns}
use dhserver.Launcher.Contents.{Contents, push_content_button, start_icon_x}
use dhserver.Launcher.Contents.Row.{StandsIn, focused, new_buttons, push_content_button_places}
use dhserver.Launcher.Posting.{packet_of, asked, client_api}
use dhserver.Tests.Accounts.{ann, bob}
use dhserver.Tests.Connecting.{connected}
use dhserver.Tests.Launching.{plain, first_line, two_shown, two_shown-IsWide}

show_requests_overruns_example : show_requests plain (ann ∷ bob ∷ ann ∷ bob ∷ []) two_shown ≡ fault
show_requests_overruns_example =
    show_requests_overruns plain (ann ∷ bob ∷ ann ∷ bob ∷ []) two_shown two_shown-IsWide
      (omega arith)

-- A notice, its end, and a second one before the dialog has hidden the first.
abbrev events : List Event
events = told posted ∷ passed 0 ∷ passed 40000000 ∷ told already_friend ∷ taken ∷ []

handle_all-Fits_example :
    let l1 = handle_all events first_line in Fits l1.list_height l1.list_start_y (lowered l1)
handle_all-Fits_example = handle_all-Fits events first_line (record { bottom = refl; top = refl })

notice_lasts_example :
    let l1 = pass_all (10 ∷ 20 ∷ []) (tell posted first_line) in
    let l2 = check_line 40000000 l1 in
    (l1.is_visible ≡ true)
    × (l1.notice ≡ posted)
    × (l1.current_visible_state ≡ true)
    × (l1.waiting_hides ≡ 0)
    × (l2.current_visible_state ≡ false)
    × (l2.waiting_hides ≡ 1)
notice_lasts_example =
    notice_lasts posted first_line 10 40000000 (20 ∷ []) refl refl (omega arith, tt) (omega arith)

-- A line that shows a notice since the time 0.
abbrev shown_line : Line
shown_line = record first_line { current_visible_state = true; is_visible_start = true }

later_notice_vanishes_example :
    let l1 = tell posted (run_event (check_line 40000000 shown_line)) in
    let l2 = check_line 80000000 l1 in
    (l1.current_visible_state ≡ true) × (l2.current_visible_state ≡ false) × (l2.waiting_hides ≡ 1)
later_notice_vanishes_example =
    later_notice_vanishes posted shown_line 40000000 80000000 refl refl (omega arith) (omega arith)

push_friend_request_asks_example :
    if is_askable [] [] (local_text plain ann)
    then push_friend_request_button plain
        (client_api new_dh_net_work connected)
        bob
        []
        []
        ann
        first_line
      ≡ (post plain (client_api new_dh_net_work connected) (add_friend bob (local_text plain ann))
          >>= λ api1. done (api1, tell posted first_line))
    else ((notice : Notice) × (notice ≢ posted)
        × (push_friend_request_button plain
              (client_api new_dh_net_work connected)
              bob
              []
              []
              ann
              first_line
            ≡ done (client_api new_dh_net_work connected, tell notice first_line)))
push_friend_request_asks_example =
    push_friend_request_asks plain (client_api new_dh_net_work connected) bob [] [] ann first_line

abbrev idle : Game
idle = record { is_playing = false; process = false }

play-TakesTurns_example :
    TakesTurns ann false
      (play ann (pushed ∷ pushed ∷ watched false ∷ watched true ∷ pushed ∷ []) idle).0
      (play ann (pushed ∷ pushed ∷ watched false ∷ watched true ∷ pushed ∷ []) idle).1.is_playing
play-TakesTurns_example =
    play-TakesTurns ann (pushed ∷ pushed ∷ watched false ∷ watched true ∷ pushed ∷ []) idle

abbrev three_buttons : Contents
three_buttons = record { buttons = new_buttons (11 ∷ 12 ∷ 13 ∷ []); picture = [] }

push_content_button_places_example :
    let c1 = push_content_button 3 12 three_buttons in
    StandsIn (start_icon_x 3) 905 c1.buttons × (focused c1.buttons ≡ 12 ∷ [])
push_content_button_places_example = push_content_button_places 12 three_buttons (omega arith) refl

-- A login dialog with a name and a password, and the answer of the server behind another message.
abbrev login : LoginLauncher
login = record {
  edit_id = ann;
  edit_password = bob;
  comment = Login.nothing;
  user_key = none;
  send_buffer = 0 ∷ 0 ∷ [];
  msg_vec = [];
  is_hidden = false;
  player = none;
}

abbrev other_message : Message
other_message = record { socket = 5; packet = 1 ∷ 0 ∷ 0 ∷ 0 ∷ 0 ∷ 0 ∷ 0 ∷ 0 ∷ 125 ∷ 21 ∷ 7 ∷ [] }

abbrev answer_message : Message
answer_message = record { socket = 5; packet = 1 ∷ 0 ∷ 0 ∷ 0 ∷ 0 ∷ 0 ∷ 0 ∷ 0 ∷ 126 ∷ 21 ∷ 7 ∷ [] }

abbrev request : List ℕ
request = 1 ∷ 0 ∷ 0 ∷ 0 ∷ 0 ∷ 0 ∷ 0 ∷ 0 ∷ 137 ∷ 19 ∷ 7 ∷ 0 ∷ []

login_button_answers_example :
    login_button plain
      (client_api new_dh_net_work connected)
      ((other_message ∷ []) ∷ [] ∷ (answer_message ∷ []) ∷ [])
      login
    ≡ done (
      client_api new_dh_net_work (
          asked connected
            (packet_of plain (login_req (local_text plain ann) (local_text plain bob)))),
      login_answer plain
          (local_text plain ann)
          answer_message
          (record login { send_buffer = 7 ∷ 0 ∷ [] }),
    )
unfolding local_text c_str put_on write_le read_le find_type type_of DhNetWorkApi.send pass_on
    DhNetWork.send through net_send Client.send socket_of copy_packet total_size
login_button_answers_example =
    login_button_answers plain (client_api new_dh_net_work connected)
      (client_api new_dh_net_work (
        asked connected
          (packet_of plain (login_req (local_text plain ann) (local_text plain bob)))))
      logic_success request ((other_message ∷ []) ∷ [] ∷ (answer_message ∷ []) ∷ []) login
      (omega arith) (omega arith) refl refl refl
