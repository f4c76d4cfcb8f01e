-- ===== src/Server/Recv/Transfers.antt =====
-- A connection's receive transfers, one after the other: Windows puts the bytes into the buffer of
-- the overlapped, and IOFunction_Recv (DHServer.cpp) takes them.
use dhserver.Base.{
  ℕ, suc, ◌+◌, ◌≤◌, ◌<◌, ◌≡◌, refl, ap, ◌∙◌, subst, false, List, ◌++◌, arith, length, update_self,
  update_twice, ◌==◌,
}
use dhserver.Base.Outcome.{done}
use dhserver.Shared.{Overlapped, max_packet_size, overlapped_bufize}
use dhserver.Shared.Reassembly.{more, Cut, cut}
use dhserver.Server.{Server, Os, overlapped, set_overlapped}
use dhserver.Server.Recv.{io_recv, process, append_received, count_received, take_received}
use dhserver.Server.Sockets.{end_client_reset}
use dhserver.Server.Recv.Buffer.{IsValid, unprocessed, back_up_refuses}
use dhserver.Receiver.Stored.{
  written, stored, loaded-IsValid, stored-IsValid, unprocessed-stored, stored_fits,
  processed-stored,
}
use dhserver.Server.Recv.Deliveries.{
  transfer, AcceptsReceives, Delivered, process-Delivered, take_received-some, take_received-none,
  count_received-eq, count_received-set,
}

module _ (os : Os) (s : Server) (sp op : ℕ) (bytes : List ℕ) (some_bytes : 0 < length bytes) where
  abbrev pub old : Overlapped
  old = overlapped s op

  abbrev pub now : Overlapped
  now = record (written old bytes) { data_size = length bytes }

  -- The server with the count of received bytes that the transfer leaves.
  abbrev pub counted : Server
  counted = record s { recv_total_packet = (count_received-eq s (length bytes)).0 }

  set_twice :
      (o o' : Overlapped)
      → set_overlapped (set_overlapped counted op o) op o' ≡ set_overlapped counted op o'
  set_twice o o' =
      ap (λ m. record counted { overlapped_pool = record s.overlapped_pool { mem = m } })
        (update_twice s.overlapped_pool.mem op o o')

  transfer_taken :
      transfer os s sp op bytes
      ≡ take_received os (set_overlapped counted op (written old bytes)) now op sp
  unfolding io_recv
  transfer_taken =
      let z : length bytes == 0 ≡ false = ground arith in
      let c : count_received (set_overlapped s op (written old bytes)) (length bytes)
          ≡ set_overlapped counted op (written old bytes) =
        count_received-set s (length bytes) op (written old bytes)
        ∙ ap (λ x. set_overlapped x op (written old bytes))
            (count_received-eq s (length bytes)).1 in
      rw z (
        rw c (
          ap
            (λ (x : Overlapped).
              take_received os (set_overlapped counted op (written old bytes))
                (record x { data_size = length bytes }) op sp)
            (update_self counted.overlapped_pool.mem op (written old bytes))))

  module _ (v : IsValid old) (small : length bytes ≤ overlapped_bufize) where
    -- A transfer of 1 to 2048 bytes to a well-formed overlapped that has room for it, where Windows
    -- accepts receives and the cut of the waiting bytes and the new ones finds no bad header: the
    -- handler returns, it has queued the packets of the cut as messages of the client and left the
    -- rest unprocessed in a well-formed overlapped on the same socket, and the structures of the
    -- sockets, the connected clients and the send queue are as before.
    pub transfer-Delivered :
        AcceptsReceives os
        → old.processed_packet_size + length bytes ≤ max_packet_size
        → let c = cut (suc (old.processed_packet_size + length bytes)) (unprocessed old ++ bytes) in
          c.verdict ≡ more
          → (s' : Server) × (transfer os s sp op bytes ≡ done s')
            × Delivered s sp op c.packets c.rest s'
    unfolding append_received
    transfer-Delivered accepts fits fine =
        let o = stored old bytes in
        let e : cut (suc o.processed_packet_size) (unprocessed o)
            ≡ cut (suc (old.processed_packet_size + length bytes)) (unprocessed old ++ bytes) =
          ap (λ k. cut (suc k) (unprocessed o)) (processed-stored old bytes v small fits)
          ∙ ap (cut (suc (old.processed_packet_size + length bytes)))
              (unprocessed-stored old bytes v small fits) in
        subst
          (λ (c : Cut).
            (s' : Server) × (transfer os s sp op bytes ≡ done s')
            × Delivered s sp op c.packets c.rest s')
          e (delivered (ap (λ (c : Cut). c.verdict) e ∙ fine))
      where
        delivered :
            (cut
                (suc (stored old bytes).processed_packet_size)
                (unprocessed (stored old bytes))).verdict
              ≡ more
            → (s' : Server) × (transfer os s sp op bytes ≡ done s')
              × Delivered s sp op
                  (cut
                    (suc (stored old bytes).processed_packet_size)
                    (unprocessed (stored old bytes))).packets
                  (cut
                    (suc (stored old bytes).processed_packet_size)
                    (unprocessed (stored old bytes))).rest
                  s'
        delivered fine' =
            let (s', run, d) =
              process-Delivered os accepts counted sp op (stored old bytes)
                (stored-IsValid old bytes v small fits) refl fine' in
            (
              s',
              transfer_taken
                  ∙ take_received-some os _ now (stored old bytes) op sp
                      (stored_fits old bytes v small fits)
                  ∙ ap (λ x. process os x sp op) (set_twice (written old bytes) (stored old bytes))
                  ∙ run,
              record {
                queued = d.queued;
                valid = d.valid;
                left = d.left;
                same_socket = d.same_socket;
                same_structs = d.same_structs;
                same_connected = d.same_connected;
                same_send_queue = d.same_send_queue;
              },
            )

    -- A transfer of 1 to 2048 bytes to a well-formed overlapped that has no room for it, since it
    -- and the bytes that wait are more than MAX_PACKET_SIZE together, does exactly what ending the
    -- client and resetting the overlapped does.
    pub transfer_overflow :
        max_packet_size < old.processed_packet_size + length bytes
        → transfer os s sp op bytes
          ≡ end_client_reset os (set_overlapped counted op now) (s.structs sp).socket op
    transfer_overflow over =
        transfer_taken
        ∙ take_received-none os _ now op sp
            (back_up_refuses now (loaded-IsValid old bytes v small) small over)
        ∙ ap (λ x. end_client_reset os x (s.structs sp).socket op)
            (set_twice (written old bytes) now)
