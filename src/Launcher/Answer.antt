-- ===== src/Launcher/Answer.antt =====
-- GamePlayLauncher.cpp: a request of friendship of the user, and the line that tells for some seconds
-- what became of it (PushFriendRequestButton, SetVisibleRequestResult, HideUI, VisibleUI, and the part
-- of RecvServerPacket that hides the line).
pub mod Fitted
pub mod Times
pub mod Posted
use dhserver.Base.{
  ℕ, zero, suc, ◌+◌, ◌-◌, ◌*◌, ◌%◌, ◌^◌, Bool, true, false, List, [], ◌∷◌, arith, ltb,
  if◌then◌else◌, ◌&&◌, length,
}
use dhserver.Base.Outcome.{Outcome, done, ◌>>=◌}
use dhserver.Db.Text.{eq_text}
use dhserver.Db.Friends.{has_text}
use dhserver.DhNetWorkApi.{NetWorkPtr}
use dhserver.Launcher.{Toolkit, local_text, C2s, add_friend, post}

-- What the line tells of a request, by the literal of the program.
pub data Notice : Type 0 where
  nothing already_friend handle_first too_long no_name posted : Notice

-- _Current_Visible_State, _Is_Visible_Start, _Prev_Time of RecvServerPacket in ticks of the clock, the
-- text of Friend_Request_Result and whether it is visible, the height and the top of the list of
-- friends, which are `int`, and how many calls of HideUI wait in the event queue of the dialog.
pub record Line : Type 0 where
  pub current_visible_state : Bool
  pub is_visible_start : Bool
  pub prev_time : ℕ
  pub notice : Notice
  pub is_visible : Bool
  pub list_height : ℕ
  pub list_start_y : ℕ
  pub waiting_hides : ℕ

-- The line of a new dialog, at the time at which RecvServerPacket begins.
unfoldable pub new_line : ℕ → Line
new_line now = record {
  current_visible_state = false;
  is_visible_start = false;
  prev_time = now;
  notice = nothing;
  is_visible = true;
  list_height = 531;
  list_start_y = 190;
  waiting_hides = 0;
}

-- `_Visible_UI_Size.height() + Friend_UI_Interval`
abbrev pub step_height : ℕ
step_height = 35

-- Visible_Time, in ticks of 100 ns.
abbrev pub visible_time : ℕ
visible_time = 30000000

-- HideUI
unfoldable pub hide_ui : Line → Line
hide_ui l = record l {
  list_height = (l.list_height + step_height) % 2 ^ 32;
  list_start_y = (l.list_start_y + (2 ^ 32 - step_height)) % 2 ^ 32;
  is_visible = false;
}

-- VisibleUI
unfoldable pub visible_ui : Line → Line
visible_ui l = record l {
  list_height = (l.list_height + (2 ^ 32 - step_height)) % 2 ^ 32;
  list_start_y = (l.list_start_y + step_height) % 2 ^ 32;
  is_visible = true;
}

-- SetVisibleRequestResult. The slots call it with `true` in the thread of the dialog, where the signal
-- _UI_Visible calls VisibleUI at once; RecvServerPacket calls it with `false` in its own thread, where
-- the signal _UI_Hide puts a call of HideUI in the event queue.
unfoldable pub set_visible_request_result : Bool → Line → Line
unfolding visible_ui
set_visible_request_result visible l =
    if visible && l.current_visible_state
    then record l { is_visible_start = false }
    else if visible
    then record (visible_ui l) { current_visible_state = true }
    else record l { waiting_hides = suc l.waiting_hides; current_visible_state = false }

-- The event loop of the dialog calls a HideUI that waits.
unfoldable pub run_event : Line → Line
unfolding hide_ui
run_event l = elim l.waiting_hides [ zero ↦ l | suc n ↦ hide_ui (record l { waiting_hides = n }) ]

-- The time from which the line is counted as shown is set, if it is not.
unfoldable pub start_time : ℕ → Line → Line
start_time now l =
    if l.is_visible_start then l else record l { prev_time = now; is_visible_start = true }

-- The part of RecvServerPacket for the line, at the time `now`. The time passed is negative where the
-- clock has been set back, and is then not more than Visible_Time.
unfoldable pub check_line : ℕ → Line → Line
unfolding start_time set_visible_request_result
check_line now l =
    if l.current_visible_state
    then (let started = start_time now l in
        if ltb visible_time (now - started.prev_time)
        then set_visible_request_result false (record started { prev_time = now })
        else started)
    else l

-- A notice is set, and the line is shown.
unfoldable pub tell : Notice → Line → Line
unfolding set_visible_request_result
tell notice l = set_visible_request_result true (record l { notice = notice })

-- PushFriendRequestButton, for the text of the input and the sets m_Recv_Friend and
-- m_Recv_Friend_Request.
unfoldable pub push_friend_request_button :
    Toolkit
    → NetWorkPtr
    → (user : List ℕ) → (friends requests : List (List ℕ)) → (input : List ℕ) → Line
    → Outcome (NetWorkPtr × Line)
unfolding tell local_text has_text post
push_friend_request_button tk api user friends requests input l =
    let id = local_text tk input in
    if has_text id friends
    then done (api, tell already_friend l)
    else if has_text id requests
    then done (api, tell handle_first l)
    else if ltb 20 (length id)
    then done (api, tell too_long l)
    else if eq_text id []
    then done (api, tell no_name l)
    else (post tk api (add_friend user id) >>= λ api1. done (api1, tell posted l))
