-- ===== src/Tests/Tabling.antt =====
-- Runs of WorkThread, Disconnect and Accept on the tables of sockets.
use dhserver.Base.{ℕ, ◌+◌, ◌≡◌, refl, [], ◌∷◌, none, arith, lookup, erase, length-replicate}
use dhserver.Base.Outcome.{done}
use dhserver.Shared.{new_socket_struct, logic_success, IoType, max_packet_size, overlapped_bufize}
use dhserver.ObjectPool.{get_object, add_objects, add_object}
use dhserver.Server.{Server, overlapped, set_overlapped}
use dhserver.Server.Tables.{tables}
use dhserver.Server.Sockets.{disconnect}
use dhserver.Server.Recv.{reserve_wsa_receive}
use dhserver.Server.Recv.Buffer.{IsValid}
use dhserver.Server.Recv.Deliveries.{transfer}
use dhserver.Server.Io.{io_accept, accept_checked}
use dhserver.Server.Work.{go_on, work_entry, work_entries}
use dhserver.Server.Work.Capacity.{count}
use dhserver.Server.Work.Tabled.{IsTabled, work_entries-IsTabled}
use dhserver.Server.Work.Ending.{Ended, disconnect_returns}
use dhserver.Server.Work.Overflow.{overflow_ends}
use dhserver.Server.Work.Race.{Phase, outside, Steps, race_exceeds}
use dhserver.Server.Start.{accept, open_sockets, open_socket}
use dhserver.Server.Start.Tabled.{accept-IsTabled}
use dhserver.Tests.{all_ok, listening, serving}
use dhserver.Tests.Serving.{server_of, arrival}

-- A server for three users, with two clients, whose overlapped structures are from AcceptEx.
abbrev racing : Server
racing = record serving {
  max_user_count = 3;
  next_struct = 9;
  socket_pool = (5, 5) ∷ (6, 6) ∷ (7, 7) ∷ (8, 8) ∷ [];
  overlapped_pool = record serving.overlapped_pool {
    mem = λ q. record listening { io_type = IoType.accept; socket = 7 + q };
  };
}

racing-IsTabled : IsTabled (tables racing)
unfolding lookup
racing-IsTabled = record {
  pool_map = (refl, (refl, (refl, (refl, tt))));
  connected_map = (refl, (refl, tt));
  sockets = (refl, (refl, (refl, (refl, tt))));
  made = (omega arith, (omega arith, (omega arith, (omega arith, tt))));
  pooled = (refl, (refl, tt));
}

work_entries-IsTabled_example :
    IsTabled (tables (server_of (work_entries all_ok racing (arrival ∷ []))))
unfolding work_entries work_entry io_accept accept_checked lookup reserve_wsa_receive get_object
work_entries-IsTabled_example =
    work_entries-IsTabled all_ok racing (arrival ∷ []) racing-IsTabled go_on
      (server_of (work_entries all_ok racing (arrival ∷ []))) refl

disconnect_returns_example :
    (s' : Server) × (disconnect all_ok racing 5 ≡ done (logic_success, s'))
    × (lookup 5 s'.connected ≡ none)
    × (s'.connected ≡ erase 5 racing.connected)
    × (s'.structs 5 ≡ record new_socket_struct { socket = 5 })
    × IsTabled (tables s')
unfolding lookup
disconnect_returns_example = disconnect_returns all_ok racing 5 5 racing-IsTabled (omega arith) refl

-- The same server, where the client on socket 5 has filled its buffer but for a byte.
abbrev brimming : Server
brimming = set_overlapped racing 0 (record listening { processed_packet_size = 20479 })

brimming-IsValid : IsValid (overlapped brimming 0)
brimming-IsValid = record {
  buffer_size = length-replicate overlapped_bufize 0;
  processing_size = length-replicate max_packet_size 0;
  processed_in = omega arith;
}

overflow_ends_example :
    (s' : Server) × (transfer all_ok brimming 5 0 (1 ∷ 2 ∷ []) ≡ done s') × Ended brimming 5 5 s'
unfolding lookup
overflow_ends_example =
    overflow_ends all_ok brimming 5 0 (1 ∷ 2 ∷ []) (omega arith) brimming-IsValid (omega arith)
      (omega arith) racing-IsTabled (omega arith) refl

accept-IsTabled_example :
    IsTabled (tables (server_of (accept all_ok 20 (λ q. listening) racing 1 1)))
unfolding accept open_sockets open_socket get_object add_objects add_object
accept-IsTabled_example =
    accept-IsTabled all_ok 20 (λ q. listening) racing 1 1 racing-IsTabled logic_success
      (server_of (accept all_ok 20 (λ q. listening) racing 1 1)) refl

race_exceeds_example :
    (s' : Server) × (w : ℕ → Phase) × Steps all_ok racing (λ i. outside) s' w
    × (count s' ≡ 4)
    × ((op : ℕ) → io_accept all_ok s' op ≡ accept_checked all_ok s' op)
unfolding lookup
race_exceeds_example =
    race_exceeds all_ok racing 0 1 7 8 racing-IsTabled refl refl refl (λ e. omega (arith, e)) refl
      refl
