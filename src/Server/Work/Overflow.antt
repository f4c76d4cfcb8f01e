-- ===== src/Server/Work/Overflow.antt =====
-- A receive transfer that does not fit (DHServer.cpp: BackUp_Overlapped, IOFunction_Recv), where the
-- tables of sockets agree: what it leaves of the server.
use dhserver.Base.{ℕ, ◌+◌, ◌≤◌, ◌<◌, ◌≡◌, refl, ◌∙◌, some, List, length, lookup}
use dhserver.Base.Outcome.{done}
use dhserver.Shared.{max_packet_size, overlapped_bufize}
use dhserver.Server.{Server, Os, overlapped, set_overlapped}
use dhserver.Server.Tables.{tables}
use dhserver.Server.Sockets.{end_client_reset, reset}
use dhserver.Server.Recv.Buffer.{IsValid}
use dhserver.Server.Recv.Deliveries.{transfer}
use dhserver.Server.Recv.Transfers.{now, counted, transfer_overflow}
use dhserver.Server.Work.Ending.{end_client-returns, Ended}
use dhserver.Server.Work.Tabled.{IsTabled}

-- A client is connected, the tables agree, its overlapped is well-formed, and a transfer of 1 to
-- 2048 bytes brings it more than MAX_PACKET_SIZE bytes together with those that wait. Then the
-- handler returns, whatever Windows answers: the client is not connected any more and the other
-- clients are as before, its structure is as new, with the same socket, no message is queued, whole
-- packets among the bytes included, and the tables still agree.
pub overflow_ends :
    (os : Os) (s : Server) (sp op : ℕ) (bytes : List ℕ)
    → 0 < length bytes
    → IsValid (overlapped s op)
    → length bytes ≤ overlapped_bufize
    → max_packet_size < (overlapped s op).processed_packet_size + length bytes
    → IsTabled (tables s)
    → 10 ≤ s.overlapped_pool.sample_obj_count
    → lookup (s.structs sp).socket s.connected ≡ some sp
    → (s' : Server) × (transfer os s sp op bytes ≡ done s') × Ended s (s.structs sp).socket sp s'
unfolding end_client_reset
overflow_ends os s sp op bytes some_bytes v small over h a n =
    let s1 =
      set_overlapped (counted os s sp op bytes some_bytes) op (now os s sp op bytes some_bytes) in
    let (s2, run, e) = end_client-returns os s1 (s.structs sp).socket sp h a n in
    (
      reset s2 op,
      transfer_overflow os s sp op bytes some_bytes v small over ∙ rw run refl,
      record {
        gone = e.gone;
        others = e.others;
        renewed = e.renewed;
        same_messages = e.same_messages;
        tabled = e.tabled;
      },
    )
