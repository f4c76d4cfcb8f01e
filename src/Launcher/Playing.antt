-- ===== src/Launcher/Playing.antt =====
-- GamePlayLauncher.cpp: the game that the launcher starts, and what it tells the server of it
-- (PushGameStartButton and the part of RecvServerPacket that watches the process).
pub mod Turns
use dhserver.Base.{
  ℕ, Bool, true, false, List, [], ◌∷◌, ◌++◌, Option, none, some, if◌then◌else◌, ◌&&◌,
}
use dhserver.Base.Outcome.{Outcome, done, ◌>>=◌}
use dhserver.DhNetWorkApi.{NetWorkPtr}
use dhserver.Launcher.{Toolkit, C2s, play_state, post}

-- m_Is_Playing, and whether m_Process points to the static PROCESS_INFORMATION.
pub record Game : Type 0 where
  pub is_playing : Bool
  pub process : Bool

unfoldable pub new_game : Game
new_game = record { is_playing = false; process = false }

-- PushGameStartButton: what it sends. The result of CreateProcess is not looked at.
unfoldable pub push_game_start_button : List ℕ → Game → Option C2s × Game
push_game_start_button user g =
    if g.is_playing
    then (none, record g { process = true })
    else (some (play_state user true), record { is_playing = true; process = true })

-- The watch of the process; `ended` is whether WaitForSingleObject returned S_OK or a failure.
unfoldable pub watch_process : List ℕ → Bool → Game → Option C2s × Game
watch_process user ended g =
    if g.process && ended
    then (
      if g.is_playing then some (play_state user false) else none,
      record g { is_playing = false },
    )
    else (none, g)

-- What a handler sends, if it does, goes through the network.
unfoldable pub post_if : Toolkit → NetWorkPtr → Option C2s → Outcome NetWorkPtr
unfolding post
post_if tk api none = done api
post_if tk api (some q) = post tk api q
