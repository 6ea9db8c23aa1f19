-- ===== src/Pool/Allocator.antt =====
-- include/object_pool.hpp: `PoolAllocator`, which passes single objects on to its arena and takes
-- arrays from the system.
use matching_engine_cpp.Base.{ℕ, ◌==◌, if◌then◌else◌}
use matching_engine_cpp.Pool.{Memory, PoolResource, allocate, deallocate}

-- `PoolAllocator::allocate(count)` for objects of this size and alignment.
unfoldable pub allocate_objects : ℕ → ℕ → ℕ → ℕ → PoolResource → Memory → ℕ × PoolResource × Memory
unfolding allocate
allocate_objects count size align fresh pool mem =
    if count == 1 then allocate size align fresh pool mem else (fresh, pool, mem)

unfoldable pub deallocate_objects : ℕ → ℕ → ℕ → ℕ → PoolResource → Memory → PoolResource × Memory
unfolding deallocate
deallocate_objects p count size align pool mem =
    if count == 1 then deallocate p size align pool mem else (pool, mem)
