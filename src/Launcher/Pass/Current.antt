-- ===== src/Launcher/Pass/Current.antt =====
-- What the launcher (GamePlayLauncher.cpp) shows behind the messages of a pass.
use dhserver.Base.{
  if◌then◌else◌, ℕ, suc, ◌+◌, ◌≤◌, ◌≡◌, refl, ap, ◌∙◌, true, false, List, [], ◌∷◌, ◌++◌, map, arith,
  length, length-append, ◌==◌, Bool-cases, inl, inr,
}
use dhserver.Base.Outcome.{done}
use dhserver.Shared.{Message}
use dhserver.Db.Friends.{has_text, insert_text}
use dhserver.Db.Friends.Lists.{Joins, Joins-nil, Joins-insert}
use dhserver.Launcher.{Toolkit, RealTimeData, ColColorType}
use dhserver.Launcher.Requests.{Panel, show_requests}
use dhserver.Launcher.Requests.Shown.{IsShowing}
use dhserver.Launcher.Requests.Overrun.{IsWide, show_requests_shows}
use dhserver.Launcher.Friends.{has_child, remove_tree_child_all, show_friends}
use dhserver.Launcher.Friends.Listed.{KeepsTexts, is_listed, show_friends_lists}
use dhserver.Launcher.Login.{type_of, buffer_of}
use dhserver.Launcher.Pass.{
  GamePlayLauncher, emplace_all, show_state, take_messages, s2c_current_user_state,
}

-- The panel has its places and shows the requests: it is hidden if there are none.
abbrev pub Displays : Toolkit → List (List ℕ) → Panel → Type 0
Displays tk [] p = p.is_hidden ≡ true
Displays tk (r ∷ rs) p = IsShowing tk (r ∷ rs) p × (p.is_hidden ≡ false)

-- The dialog shows this state of the user's friends.
pub record IsCurrent (tk : Toolkit) (state : RealTimeData) (g : GamePlayLauncher) : Type 0 where
  pub friends :
      (name : List ℕ)
      → has_text name g.recv_friend ≡ has_text name (map (λ friend. friend.0) state.friend_state)
  pub requests :
      (name : List ℕ) → has_text name g.recv_friend_request ≡ has_text name state.friend_request
  pub listed :
      (root : ColColorType) (text : List ℕ)
      → has_child text (g.tree root) ≡ is_listed tk root text state.friend_state
  pub displayed : Displays tk state.friend_request g.panel

length-map {ℓ} : {A : Type ℓ} {B : Type 0} (f : A → B) (xs : List A) → length (map f xs) ≡ length xs
length-map f [] = refl
length-map f (x ∷ xs) = ap suc (length-map f xs)

length_both {ℓ} :
    {A : Type ℓ} {B : Type 0} (f g : A → B) (xs ys : List A)
    → length xs + length ys ≡ 3
    → length (map f xs ++ map g ys) ≡ 3
length_both f g xs ys e =
    omega (arith, length-append (map f xs) (map g ys), length-map f xs, length-map g ys)

IsShowing-IsWide : (tk : Toolkit) (rs : List (List ℕ)) (p : Panel) → IsShowing tk rs p → IsWide p
IsShowing-IsWide tk rs p (names, texts, shape, e, f) = record {
  names = ap (λ q. length q.friend_request_list) shape ∙ (length-append rs names ∙ e);
  slots = ap (λ q. length q.children) shape ∙ length_both _ _ rs texts f;
}

emplace_all-Joins :
    (requests names : List (List ℕ)) → Joins names requests (emplace_all requests names)
unfolding emplace_all
emplace_all-Joins [] names = Joins-nil names
emplace_all-Joins (r ∷ rs) names =
    Joins-insert r names rs (emplace_all rs (insert_text r names))
      (emplace_all-Joins rs (insert_text r names))

show_requests-Displays :
    (tk : Toolkit) (rs : List (List ℕ)) (p : Panel)
    → IsWide p
    → length rs ≤ 3
    → (p1 : Panel) × (show_requests tk rs p ≡ done p1) × IsWide p1 × Displays tk rs p1
unfolding show_requests
show_requests-Displays tk [] p w l = (_, refl, record { names = w.names; slots = w.slots }, refl)
show_requests-Displays tk (r ∷ rs) p w l =
    let (p1, run, shown, h) = show_requests_shows tk (r ∷ rs) p w (omega arith) l in
    (p1, run, IsShowing-IsWide tk (r ∷ rs) p1 shown, (shown, h))

show_state-IsCurrent :
    (tk : Toolkit) (state : RealTimeData) (g : GamePlayLauncher)
    → KeepsTexts tk
    → IsWide g.panel
    → length state.friend_request ≤ 3
    → (g1 : GamePlayLauncher) × (show_state tk state g ≡ done g1)
      × IsWide g1.panel
      × IsCurrent tk state g1
unfolding show_state has_text
show_state-IsCurrent tk state g keeps w l =
    let (p1, run, w1, d) = show_requests-Displays tk state.friend_request g.panel w l in
    let shown = show_friends tk state.friend_state ([], remove_tree_child_all g.tree) in
    let g1 = record g {
      recv_friend = shown.0;
      recv_friend_request = emplace_all state.friend_request [];
      tree = shown.1;
      panel = p1;
    } in
    (
      g1,
      rw run refl,
      w1,
      record {
        friends = λ name.
            (show_friends_lists tk g.tree state.friend_state ColColorType.ingame_green name []
              keeps).0;
        requests = emplace_all-Joins state.friend_request [];
        listed =
            λ root text. (show_friends_lists tk g.tree state.friend_state root [] text keeps).1;
        displayed = d;
      },
    )

-- The state that a message carries.
abbrev pub state_of : Toolkit → Message → RealTimeData
state_of tk m = tk.read_real_time (buffer_of m)

-- No message carries a state.
abbrev pub NoState : List Message → Type 0
NoState [] = Unit {0}
NoState (m ∷ msgs) = (type_of m == s2c_current_user_state ≡ false) × NoState msgs

-- No state has more than three requests.
abbrev pub AllNarrow : Toolkit → List Message → Type 0
AllNarrow tk [] = Unit {0}
AllNarrow tk (m ∷ msgs) =
    (if type_of m == s2c_current_user_state
      then (length (state_of tk m).friend_request ≤ 3)
      else Unit {0})
    × AllNarrow tk msgs

take-NoState :
    (tk : Toolkit) (msgs : List Message) (g : GamePlayLauncher)
    → NoState msgs
    → take_messages tk msgs g ≡ done g
unfolding take_messages
take-NoState tk [] g n = refl
take-NoState tk (m ∷ msgs) g (h, n) = rw h (take-NoState tk msgs g n)

is_state :
    (m : Message) → type_of m ≡ s2c_current_user_state → type_of m == s2c_current_user_state ≡ true
is_state m e = ground arith

-- The messages of a Recv in which no state has more than three requests, for a dialog with its three
-- places and a sorting of Qt that keeps the texts: the dialog then shows the last state that came,
-- whatever came before it, with its friends below their roots and its requests with their buttons, and
-- it has its three places.
pub take_messages_shows :
    (tk : Toolkit) (before behind : List Message) (m : Message) (g : GamePlayLauncher)
    → KeepsTexts tk
    → IsWide g.panel
    → AllNarrow tk (before ++ m ∷ behind)
    → type_of m ≡ s2c_current_user_state
    → NoState behind
    → (g1 : GamePlayLauncher) × (take_messages tk (before ++ m ∷ behind) g ≡ done g1)
      × IsWide g1.panel
      × IsCurrent tk (state_of tk m) g1
unfolding take_messages
take_messages_shows tk [] behind m g keeps w (l, a) e n =
    let (g1, run, w1, c) =
      show_state-IsCurrent tk (state_of tk m) g keeps w (rw (is_state m e) at l) in
    (g1, rw (is_state m e) (rw run (take-NoState tk behind g1 n)), w1, c)
take_messages_shows tk (x ∷ before) behind m g keeps w (l, a) e n =
    elim (Bool-cases (type_of x == s2c_current_user_state)) [
      | inl h ↦
          let (g1, run, w1, c) = show_state-IsCurrent tk (state_of tk x) g keeps w (rw h at l) in
          rw h (rw run (take_messages_shows tk before behind m g1 keeps w1 a e n))
      | inr h ↦ rw h (take_messages_shows tk before behind m g keeps w a e n)
    ]
