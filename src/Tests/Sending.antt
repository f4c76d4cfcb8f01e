-- ===== src/Tests/Sending.antt =====
-- Runs of the sending side, and of the pool.
use dhserver.Base.{ℕ, ◌≤◌, ◌≡◌, refl, List, [], ◌∷◌, ◌++◌, arith, length, take}
use dhserver.Base.Outcome.{done}
use dhserver.Shared.{Overlapped}
use dhserver.Shared.Bytes.{read_le}
use dhserver.ObjectPool.{ObjectPool}
use dhserver.ObjectPool.Lending.{IsSound, NotIn, Lent, get_object_lends}
use dhserver.Server.{Server, overlapped_object}
use dhserver.Server.Send.{send_blocks, broad_cast_message, except_target_message, total_size}
use dhserver.Sender.{sent, BlocksFit}
use dhserver.Server.Send.Blocks.{send_blocks-sent, send_blocks_all}
use dhserver.Server.Send.Audience.{
  copies, queued, broad_cast_message_reaches, except_target_message_reaches,
}
use dhserver.Tests.{all_ok, serving}

-- A packet with the type 1 and the body 7, in memory.
abbrev seven_bytes : List ℕ
seven_bytes = 1 ∷ 0 ∷ 0 ∷ 0 ∷ 0 ∷ 0 ∷ 0 ∷ 0 ∷ 1 ∷ 0 ∷ 7 ∷ []

send_blocks-sent_example :
    (s' : Server) × (count : ℕ) × (send_blocks 12 all_ok serving 5 seven_bytes 0 11 ≡ done s')
    × (count ≤ 11)
    × (sent 5 s'.calls ≡ sent 5 [] ++ take count seven_bytes)
    × BlocksFit s'.calls
unfolding BlocksFit
send_blocks-sent_example =
    send_blocks-sent all_ok 5 seven_bytes serving 11 (omega arith) (omega arith) tt

send_blocks_all_example :
    (s' : Server) × (send_blocks 12 all_ok serving 5 seven_bytes 0 11 ≡ done s')
    × (sent 5 s'.calls ≡ sent 5 [] ++ take 11 seven_bytes)
    × (s'.recv_queue ≡ [])
    × (s'.connected ≡ serving.connected)
    × (s'.structs ≡ serving.structs)
send_blocks_all_example =
    send_blocks_all all_ok 5 seven_bytes serving 11 (omega arith) (omega arith)
      (λ h socket op bytes. refl)

seven_whole : total_size seven_bytes ≤ length seven_bytes
unfolding total_size read_le
seven_whole = omega arith

broad_cast_message_reaches_example :
    broad_cast_message serving seven_bytes
    ≡ done (2, queued serving (copies seven_bytes serving.connected))
broad_cast_message_reaches_example = broad_cast_message_reaches serving seven_bytes seven_whole

except_target_message_reaches_example :
    except_target_message serving 5 seven_bytes
    ≡ done (1, queued serving (copies seven_bytes ((6, 6) ∷ [])))
except_target_message_reaches_example =
    except_target_message_reaches serving 5 seven_bytes seven_whole

-- A pool whose objects 0 and 1 are lent.
abbrev pool : ObjectPool Overlapped
pool = serving.overlapped_pool

pool-IsSound : IsSound pool
pool-IsSound = record { distinct = (tt, tt); made = (omega arith, tt) }

get_object_lends_example :
    (l : Lent overlapped_object pool) × NotIn l.object_at l.left.available_obj × IsSound l.left
get_object_lends_example = get_object_lends overlapped_object pool pool-IsSound (omega arith)

-- A pool made with nine objects, all of them lent.
abbrev small_pool : ObjectPool Overlapped
small_pool = record pool { sample_obj_count = 9; available_obj = [] }
