-- ===== src/Launcher/Pass.antt =====
-- GamePlayLauncher.cpp: the state of the dialog and a pass of the loop of RecvServerPacket.
pub mod Current
pub mod Arriving
use dhserver.Base.{ℕ, Bool, true, false, List, [], ◌∷◌, arith, ◌==◌, if◌then◌else◌}
use dhserver.Base.Outcome.{Outcome, done, ◌>>=◌}
use dhserver.Shared.{Message, logic_fail}
use dhserver.Db.Friends.{insert_text}
use dhserver.DhNetWorkApi.{NetWorkPtr}
use dhserver.DhNetWorkApi
use dhserver.Launcher.{Toolkit, RealTimeData}
use dhserver.Launcher.Requests.{Panel, show_requests}
use dhserver.Launcher.Friends.{Tree, remove_tree_child_all, show_friends}
use dhserver.Launcher.Answer.{Line, check_line}
use dhserver.Launcher.Playing.{Game, watch_process, post_if}
use dhserver.Launcher.Login.{type_of, buffer_of}

-- S2C_CURRENT_USER_STATE
abbrev pub s2c_current_user_state : ℕ
s2c_current_user_state = 5501

-- GamePlayLauncher, without the news: m_User_Name, m_Recv_Friend, m_Recv_Friend_Request, and the parts
-- of the other modules.
pub record GamePlayLauncher : Type 0 where
  pub user_name : List ℕ
  pub recv_friend : List (List ℕ)
  pub recv_friend_request : List (List ℕ)
  pub tree : Tree
  pub panel : Panel
  pub line : Line
  pub game : Game

-- `emplace` of each request.
unfoldable pub emplace_all : List (List ℕ) → List (List ℕ) → List (List ℕ)
unfolding insert_text
emplace_all [] names = names
emplace_all (request ∷ requests) names = emplace_all requests (insert_text request names)

-- The state of the user's friends.
unfoldable pub show_state : Toolkit → RealTimeData → GamePlayLauncher → Outcome GamePlayLauncher
unfolding show_friends remove_tree_child_all show_requests emplace_all
show_state tk state g =
    let (names, tree) = show_friends tk state.friend_state ([], remove_tree_child_all g.tree) in
    show_requests tk state.friend_request g.panel >>= λ panel. done (record g {
      recv_friend = names;
      recv_friend_request = emplace_all state.friend_request [];
      tree = tree;
      panel = panel;
    })

-- The loop over Msg_Vec; the packets of other types are not looked at.
unfoldable pub take_messages : Toolkit → List Message → GamePlayLauncher → Outcome GamePlayLauncher
unfolding type_of buffer_of show_state
take_messages tk [] g = done g
take_messages tk (m ∷ msgs) g =
    (if type_of m == s2c_current_user_state
      then show_state tk (tk.read_real_time (buffer_of m)) g
      else done g)
    >>= λ g1. take_messages tk msgs g1

-- A pass of RecvServerPacket at the time `now`, where `ended` is what WaitForSingleObject says of the
-- process.
unfoldable pub pass :
    Toolkit
    → NetWorkPtr
    → (ended : Bool) → (now : ℕ) → GamePlayLauncher
    → Outcome (NetWorkPtr × GamePlayLauncher)
unfolding watch_process post_if check_line take_messages
pass tk api ended now g =
    let (q, game) = watch_process g.user_name ended g.game in
    post_if tk api q >>= λ api1. DhNetWorkApi.recv api1 [] >>= λ (r, msgs, api2).
    let g1 = record g { game = game; line = check_line now g.line } in
    if r == logic_fail
    then done (api2, g1)
    else (take_messages tk msgs g1 >>= λ g2. done (api2, g2))

-- SetUser
unfoldable pub set_user : List ℕ → GamePlayLauncher → GamePlayLauncher
set_user name g = record g { user_name = name }
