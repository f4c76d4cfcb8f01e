-- ===== src/Tests/Blocks.antt =====
-- A run of MemoryPool.
use dhserver.Base.{ℕ, ◌≡◌, refl, List, [], ◌∷◌, some, arith, lookup}
use dhserver.Base.Outcome.{done}
use dhserver.MemoryPool.{MemoryPool, get_memory, has_blocks}
use dhserver.MemoryPool.Serving.{get_memory_returns}

-- A pool whose blocks of 8 bytes are all in use.
abbrev used_up : MemoryPool
used_up = record {
  sample_count = 40;
  pools = (8, []) ∷ (4, 100 ∷ []) ∷ [];
  next = 1000;
  mem = λ a. 7;
}

get_memory_returns_example :
    (b : ℕ) × (rest : List ℕ) × (p' : MemoryPool) × (get_memory used_up 8 ≡ done (some b, p'))
    × (lookup 8 p'.pools ≡ some rest)
    × (lookup 4 p'.pools ≡ some (100 ∷ []))
    × (p'.sample_count ≡ 40)
unfolding lookup has_blocks
get_memory_returns_example =
    get_memory_returns used_up 8 4 [] (omega arith) refl refl (λ e. omega (arith, e))
