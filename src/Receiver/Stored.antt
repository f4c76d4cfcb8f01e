-- ===== src/Receiver/Stored.antt =====
-- BackUp_Overlapped (DHServer.cpp, DHClient.cpp): an overlapped once the bytes of a transfer are
-- behind those that waited in its buffer.
use dhserver.Base.{
  ℕ, ◌+◌, ◌≤◌, ◌≡◌, ap, ◌∙◌, List, ◌++◌, some, arith, length, drop, take-append_self, length-append,
  length-drop,
}
use dhserver.Shared.{Overlapped, IoType, max_packet_size, overlapped_bufize}
use dhserver.Server.Recv.{back_up_overlapped, append_received}
use dhserver.Server.Recv.Buffer.{
  IsValid, unprocessed, back_up_fits, append_received-IsValid, unprocessed-append_received,
  processed-append_received,
}

-- The bytes of a transfer in the buffer, over what was there.
abbrev pub written : Overlapped → List ℕ → Overlapped
written o bytes = record o { buffer = bytes ++ drop (length bytes) o.buffer }

-- The overlapped as the next receive of its socket.
abbrev pub posted : Overlapped → Overlapped
posted o = record o { io_type = IoType.recv; wsabuf_len = overlapped_bufize }

pub posted-IsValid : {o : Overlapped} → IsValid o → IsValid (posted o)
posted-IsValid v = record {
  buffer_size = v.buffer_size;
  processing_size = v.processing_size;
  processed_in = v.processed_in;
}

-- With the size of the transfer, and when BackUp_Overlapped has moved the bytes.
abbrev pub loaded : Overlapped → List ℕ → Overlapped
loaded o bytes = record (written o bytes) { data_size = length bytes }

abbrev pub stored : Overlapped → List ℕ → Overlapped
stored o bytes = append_received (loaded o bytes)

pub loaded-IsValid :
    (o : Overlapped) (bytes : List ℕ)
    → IsValid o
    → length bytes ≤ overlapped_bufize
    → IsValid (loaded o bytes)
loaded-IsValid o bytes v small = record {
  buffer_size = omega (
    arith,
    length-append bytes (drop (length bytes) o.buffer),
    length-drop (length bytes) o.buffer,
  );
  processing_size = v.processing_size;
  processed_in = v.processed_in;
}

module _ (o : Overlapped) (bytes : List ℕ) (v : IsValid o)
    (small : length bytes ≤ overlapped_bufize)
    (fits : o.processed_packet_size + length bytes ≤ max_packet_size) where
  pub stored-IsValid : IsValid (stored o bytes)
  stored-IsValid =
      append_received-IsValid (loaded o bytes) (loaded-IsValid o bytes v small) small fits

  pub unprocessed-stored : unprocessed (stored o bytes) ≡ unprocessed o ++ bytes
  unprocessed-stored =
      unprocessed-append_received (loaded o bytes) (loaded-IsValid o bytes v small) small fits
      ∙ ap (λ l. unprocessed o ++ l) (take-append_self bytes (drop (length bytes) o.buffer))

  pub stored_fits : back_up_overlapped (loaded o bytes) ≡ some (stored o bytes)
  stored_fits = back_up_fits (loaded o bytes) (loaded-IsValid o bytes v small) small fits

  pub processed-stored :
      (stored o bytes).processed_packet_size ≡ o.processed_packet_size + length bytes
  processed-stored =
      processed-append_received (loaded o bytes) (loaded-IsValid o bytes v small) small fits
