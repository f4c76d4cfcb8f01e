-- ===== src/Launcher/Playing/Turns.antt =====
-- The order of what the launcher (GamePlayLauncher.cpp) tells the server of its game.
use dhserver.Base.{ℕ, ◌≡◌, refl, Bool, true, false, not, List, [], ◌∷◌, Option, none, some}
use dhserver.Launcher.{C2s, play_state}
use dhserver.Launcher.Playing.{Game, push_game_start_button, watch_process}

-- The button is pushed, or RecvServerPacket looks at the process, which may have ended.
pub data Event : Type 0 where
  pushed : Event
  watched : (ended : Bool) → Event

abbrev pub handle : List ℕ → Event → Game → Option C2s × Game
handle user pushed g = push_game_start_button user g
handle user (watched ended) g = watch_process user ended g

abbrev put : Option C2s → List C2s → List C2s
put none qs = qs
put (some q) qs = q ∷ qs

-- All that is sent, in order, and the game behind it.
unfoldable pub play : List ℕ → List Event → Game → List C2s × Game
play user [] g = ([], g)
play user (e ∷ es) g =
    let (q, g1) = handle user e g in let (qs, g2) = play user es g1 in (put q qs, g2)

-- The user begins and stops to play in turn: the next message tells `playing`, the last one leaves
-- the server at `last`.
unfoldable pub TakesTurns : List ℕ → (before : Bool) → List C2s → (after : Bool) → Type 0
TakesTurns user before [] after = before ≡ after
TakesTurns user before (q ∷ qs) after =
    (q ≡ play_state user (not before)) × TakesTurns user (not before) qs after

-- What an event sends, and the game behind it.
handle-Turns :
    (user : List ℕ) (e : Event) (playing process : Bool) (qs : List C2s) (after : Bool)
    → let (q, g) = handle user e (record { is_playing = playing; process = process }) in
      TakesTurns user g.is_playing qs after → TakesTurns user playing (put q qs) after
unfolding push_game_start_button watch_process TakesTurns
handle-Turns user pushed true process qs after h = h
handle-Turns user pushed false process qs after h = (refl, h)
handle-Turns user (watched true) true true qs after h = (refl, h)
handle-Turns user (watched true) false true qs after h = h
handle-Turns user (watched false) playing true qs after h = h
handle-Turns user (watched ended) playing false qs after h = h

-- Whatever the order in which the button is pushed and the process is watched, and whatever Windows
-- says of the process: the messages to the server tell in turn that the user begins and stops to play,
-- for the user's name, beginning with the other of what m_Is_Playing says, and the last of them, if
-- there is one, is what it says at the end.
pub play-TakesTurns :
    (user : List ℕ) (es : List Event) (g : Game)
    → TakesTurns user g.is_playing (play user es g).0 (play user es g).1.is_playing
unfolding play TakesTurns
play-TakesTurns user [] g = refl
play-TakesTurns user (e ∷ es) g =
    handle-Turns user e g.is_playing g.process _ _ (play-TakesTurns user es (handle user e g).1)
