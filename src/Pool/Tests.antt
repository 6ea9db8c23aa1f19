-- ===== src/Pool/Tests.antt =====
-- A block that is handed out by a new arena, and one that comes back.
use matching_engine_cpp.Base.{ℕ, ◌≡◌, refl, [], ◌∷◌, ◌++◌, arith, if◌then◌else◌}
use matching_engine_cpp.Pool.{Memory, PoolResource, block_size, allocate, deallocate}
use matching_engine_cpp.Pool.Blocks.{IsPool}
use matching_engine_cpp.Pool.Kept.{deallocate-IsPool}
use matching_engine_cpp.Pool.{destroy}
use matching_engine_cpp.Pool.Released.{fits_block, chunks_taken, allocate-destroy}

abbrev blank : Memory
blank i = 0

abbrev new_pool : PoolResource
new_pool = record { block = 0; align = 16; free = 0; chunks = [] }

-- A size is rounded up to the alignment, and holds a pointer at least.
sizes : (block_size 88 8 ≡ 88) × (block_size 90 8 ≡ 96) × (block_size 1 1 ≡ 8)
unfolding block_size
sizes = (refl, refl, refl)

abbrev used_pool : PoolResource
used_pool = record { block = 88; align = 8; free = 4184; chunks = 4096 ∷ [] }

used_pool-IsPool : IsPool (4184 ∷ []) (4272 ∷ 4096 ∷ []) used_pool blank
used_pool-IsPool = record {
  positive = omega arith;
  chain = (refl, omega arith, refl);
  free_apart = (tt, tt);
  live_apart = ground arith;
  not_null = omega arith;
  apart = ground arith;
}

deallocate-IsPool_example :
    let (pool', mem') = deallocate 4096 88 8 used_pool blank in
    IsPool (4096 ∷ 4184 ∷ []) (4272 ∷ []) pool' mem'
deallocate-IsPool_example =
    deallocate-IsPool 4096 88 8 (4184 ∷ []) (4272 ∷ []) [] used_pool blank used_pool-IsPool sizes.0
      refl

abbrev one_object : ℕ
one_object = 1

abbrev next_chunk : ℕ
next_chunk = 8192

allocate-destroy_example :
    (destroy (allocate 88 8 8192 used_pool blank).1
      ≡ destroy used_pool
        ++ (if fits_block 88 8 used_pool then chunks_taken used_pool 8192 else []))
    × (destroy (deallocate 4096 88 8 used_pool blank).0 ≡ destroy used_pool)
allocate-destroy_example = allocate-destroy 88 8 8192 4096 used_pool blank (omega arith)
