-- ===== src/Server/Stop.antt =====
-- DHServer.cpp: End.
use dhserver.Base.{ℕ, Bool, true, false, List, [], ◌∷◌, ◌==◌, if◌then◌else◌}
use dhserver.Base.Outcome.{Outcome, done, fault, ◌>>=◌}
use dhserver.Shared.{dhdebug_simple, logic_success, logic_fail}
use dhserver.Server.{Server, Call, emit}

-- `t->join(); delete t;`: a thread that was never made is a null pointer.
unfoldable pub join : Bool → Outcome (Unit {0})
join true = done tt
join false = fault

-- The loop over g_Socket_Struct_Pool: every socket is shut down and closed.
unfoldable pub close_all : List (ℕ × ℕ) → Server → Server
close_all [] s = s
close_all ((socket, p) ∷ sockets) s =
    close_all sockets
      (emit (emit s (Call.shutdown (s.structs p).socket)) (Call.closesocket (s.structs p).socket))

-- End behind the threads: the queues, the completion port, the sockets, the pools, Winsock.
unfoldable pub release_all : Server → Server
release_all s =
    let s1 =
      emit (record s { work_threads = 0; recv_queue = []; send_queue = []; iocp = false })
        Call.close_iocp in
    let s2 = close_all s1.socket_pool s1 in
    emit
      (record s2 {
        overlapped_pool = record s2.overlapped_pool { available_obj = []; all_object_list = [] };
      })
      Call.wsa_cleanup

-- End
unfoldable pub end : Server → Outcome (ℕ × Server)
unfolding join release_all
end s =
    if s.iocp
    then (join s.send_thread >>= λ _.
        join (if s.debug_option == dhdebug_simple then s.time_thread else true) >>= λ _.
        done (logic_success, release_all (emit (record s { is_exit = true }) Call.post_exit)))
    else done (logic_fail, s)
