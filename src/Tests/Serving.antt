-- ===== src/Tests/Serving.antt =====
-- Runs of Accept, Disconnect and WorkThread.
use dhserver.Base.{◌≤◌, ◌≡◌, ◌≢◌, refl, true, [], ◌∷◌, some, arith, lookup}
use dhserver.Base.Outcome.{Outcome, done, spin}
use dhserver.Shared.{IoType, logic_success}
use dhserver.ObjectPool.{get_object}
use dhserver.Server.{Server}
use dhserver.Server.Sockets.{disconnect}
use dhserver.Server.Recv.{reserve_wsa_receive}
use dhserver.Server.Io.{io_accept}
use dhserver.Server.Work.{Entry, go_on, work_entry}
use dhserver.Server.Work.Capacity.{count, work_entry-AtMost}
use dhserver.Server.Work.Late.{receives, closing, disconnect_then_closing}
use dhserver.Server.Start.{open_sockets}
use dhserver.Server.Start.Rounds.{Rounds, open_sockets_ends, open_sockets_wraps}
use dhserver.Tests.{all_ok, serving}

open_sockets_ends_example : Rounds all_ok true (open_sockets 13 all_ok 0 serving) 19
open_sockets_ends_example =
    open_sockets_ends 13 all_ok 0 serving (omega arith) (omega arith) (omega arith) (omega arith)

-- A server for as many users as an unsigned short can nearly count.
abbrev large : Server
large = record serving { max_user_count = 65530 }

open_sockets_wraps_example : open_sockets 100 all_ok 0 large ≢ done (true, serving)
open_sockets_wraps_example =
    open_sockets_wraps 100 all_ok 0 large serving (omega arith) (omega arith)

-- The server of a result.
abbrev pub server_of {ℓ} : {A : Type ℓ} → Outcome (A × Server) → Server
server_of (done r) = r.1
server_of _ = serving

-- The server that Disconnect of the client on socket 5 leaves, while a receive is outstanding on the
-- overlapped 0.
abbrev left : Server
left = server_of (disconnect all_ok serving 5)

disconnect_then_closing_example : work_entry all_ok left (closing 0 5) ≡ spin
unfolding disconnect lookup get_object
disconnect_then_closing_example =
    disconnect_then_closing all_ok serving left 5 5 0 logic_success (refl, (refl, tt)) refl refl
      receives

-- A server with room for one more, and the entry that lets in the client on socket 7.
abbrev pub arriving : Server
arriving = record serving {
  max_user_count = 3;
  socket_pool = (5, 5) ∷ (6, 6) ∷ (7, 7) ∷ [];
  overlapped_pool = record serving.overlapped_pool {
    mem = λ q. record (serving.overlapped_pool.mem q) { io_type = IoType.accept; socket = 7 };
  };
}

abbrev pub arrival : Entry
arrival = record { overlapped = some 0; key = some 7; bytes = 0 }

work_entry-AtMost_example : count (server_of (work_entry all_ok arriving arrival)) ≤ 3
unfolding work_entry io_accept lookup reserve_wsa_receive get_object
work_entry-AtMost_example =
    work_entry-AtMost all_ok arriving arrival (omega arith) go_on
      (server_of (work_entry all_ok arriving arrival)) refl

-- It is in, so that three are connected.
arrival_enters : count (server_of (work_entry all_ok arriving arrival)) ≡ 3
unfolding work_entry io_accept lookup reserve_wsa_receive get_object
arrival_enters = refl
