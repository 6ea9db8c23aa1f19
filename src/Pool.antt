-- ===== src/Pool.antt =====
-- include/object_pool.hpp: the arena of equal blocks, `PoolResource`. An address is a number, 0 the
-- null pointer; the memory gives the pointer that is stored at an address. What `::operator new`
-- returns is the system's answer, an argument. That it throws is not modelled.
pub mod Allocator
pub mod Blocks
pub mod Growing
pub mod Kept
pub mod Released
pub mod Sizes
mod Tests
use Prim.Native.Nat.{bit_and}
use matching_engine_cpp.Base.{
  ℕ, zero, suc, ◌+◌, ◌-◌, ◌*◌, ◌%◌, ◌^◌, not, ◌&&◌, ◌||◌, List, [], ◌∷◌, ◌++◌, map, ltb, ◌==◌,
  if◌then◌else◌,
}

abbrev pub Memory : Type 0
Memory = ℕ → ℕ

abbrev pub write : ℕ → ℕ → Memory → Memory
write p value mem i = if i == p then value else mem i

pub record PoolResource : Type 0 where
  pub block : ℕ
  pub align : ℕ
  pub free : ℕ
  pub chunks : List ℕ

abbrev pub pointer_size : ℕ
pointer_size = 8

-- `(b + align - 1) & ~(align - 1)` on 64-bit words.
unfoldable pub block_size : ℕ → ℕ → ℕ
block_size bytes align =
    let b = if ltb bytes pointer_size then pointer_size else bytes in
    bit_and ((b + align + 2 ^ 64 - 1) % 2 ^ 64) (2 ^ 64 - 1 - (align + 2 ^ 64 - 1) % 2 ^ 64)

-- The loop of `grow` from the slot `i`, with `left` slots to go: each is put in front of the free
-- list.
unfoldable pub add_slots : ℕ → ℕ → ℕ → PoolResource → Memory → PoolResource × Memory
add_slots zero chunk i pool mem = (pool, mem)
add_slots (suc left) chunk i pool mem =
    let slot = chunk + i * pool.block in
    add_slots left chunk (i + 1) (record pool { free = slot }) (write slot pool.free mem)

abbrev pub blocks_per_chunk : ℕ
blocks_per_chunk = 1024

unfoldable pub grow : ℕ → PoolResource → Memory → PoolResource × Memory
unfolding add_slots
grow chunk pool mem =
    add_slots blocks_per_chunk chunk 0 (record pool { chunks = pool.chunks ++ (chunk ∷ []) }) mem

-- The block in front of the free list is taken off.
unfoldable pub take_block : PoolResource → Memory → ℕ × PoolResource × Memory
take_block pool mem = (pool.free, record pool { free = mem pool.free }, mem)

unfoldable pub take_or_grow : ℕ → PoolResource → Memory → ℕ × PoolResource × Memory
unfolding grow take_block
take_or_grow fresh pool mem =
    if pool.free == 0
    then (let (pool', mem') = grow fresh pool mem in take_block pool' mem')
    else take_block pool mem

-- `fresh` is what `::operator new` returns if the call needs it: for a chunk, or for a request of
-- another size.
unfoldable pub allocate : ℕ → ℕ → ℕ → PoolResource → Memory → ℕ × PoolResource × Memory
allocate bytes align fresh pool mem =
    let need = block_size bytes align in
    if pool.block == 0
    then take_or_grow fresh (record pool { block = need; align = align }) mem
    else if need == pool.block && align == pool.align
    then take_or_grow fresh pool mem
    else (fresh, pool, mem)

-- A block of another size goes back to the system.
unfoldable pub deallocate : ℕ → ℕ → ℕ → PoolResource → Memory → PoolResource × Memory
deallocate p bytes align pool mem =
    if pool.block == 0 || (not (block_size bytes align == pool.block) || not (align == pool.align))
    then (pool, mem)
    else (record pool { free = p }, write p pool.free mem)

-- The destructor: what is given back to `::operator delete`, in order, each chunk with its alignment.
unfoldable pub destroy : PoolResource → List (ℕ × ℕ)
destroy pool = map (λ chunk. (chunk, pool.align)) pool.chunks
