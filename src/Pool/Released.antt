-- ===== src/Pool/Released.antt =====
-- What the arena took from the system for its blocks is given back at its end.
use matching_engine_cpp.Base.{
  map-append, ℕ, zero, suc, ◌+◌, ◌*◌, ◌<◌, ◌≡◌, refl, sym, ◌∙◌, inl, inr, Bool, true, false, ◌&&◌,
  List, [], ◌∷◌, ◌++◌, append-nil, arith, ◌==◌, if◌then◌else◌, Bool-cases,
}
use matching_engine_cpp.Pool.{
  write, Memory, PoolResource, block_size, blocks_per_chunk, add_slots, grow, take_block,
  take_or_grow, allocate, deallocate, destroy,
}

add_slots-chunks :
    (left chunk i : ℕ) (pool : PoolResource) (mem : Memory)
    → destroy (add_slots left chunk i pool mem).0 ≡ destroy pool
unfolding add_slots destroy
add_slots-chunks zero chunk i pool mem = refl
add_slots-chunks (suc left) chunk i pool mem =
    add_slots-chunks left chunk (i + 1) (record pool { free = chunk + i * pool.block }) _

-- The pointers that `::operator new` gave to the calls that asked it for a chunk.
abbrev pub chunks_taken : PoolResource → ℕ → List (ℕ × ℕ)
chunks_taken pool fresh = if pool.free == 0 then (fresh, pool.align) ∷ [] else []

take_or_grow-destroy :
    (fresh : ℕ) (pool : PoolResource) (mem : Memory)
    → destroy (take_or_grow fresh pool mem).1 ≡ destroy pool ++ chunks_taken pool fresh
unfolding take_or_grow take_block grow destroy
take_or_grow-destroy fresh pool mem = elim (Bool-cases (pool.free == 0)) [
  | inl none_free ↦ rw none_free (
      add_slots-chunks blocks_per_chunk fresh 0
        (record pool { chunks = pool.chunks ++ (fresh ∷ []) }) mem
      ∙ map-append (λ chunk. (chunk, pool.align)) pool.chunks (fresh ∷ []))
  | inr some_free ↦ rw some_free (sym (append-nil _))
]

allocated :
    (t : Bool) (other fresh : ℕ) (pool : PoolResource) (mem : Memory)
    → destroy (if t then take_or_grow fresh pool mem else (other, pool, mem)).1
      ≡ destroy pool ++ (if t then chunks_taken pool fresh else [])
allocated true other fresh pool mem = take_or_grow-destroy fresh pool mem
allocated false other fresh pool mem = sym (append-nil (destroy pool))

given_back :
    (t : Bool) (p : ℕ) (pool : PoolResource) (mem : Memory)
    → destroy
        (if◌then◌else◌ {A = PoolResource × Memory} t
          (pool, mem)
          (record pool { free = p }, write p pool.free mem)).0
      ≡ destroy pool
unfolding destroy
given_back true p pool mem = refl
given_back false p pool mem = refl

-- The arena serves requests of this size and alignment.
abbrev pub fits_block : ℕ → ℕ → PoolResource → Bool
fits_block bytes align pool = block_size bytes align == pool.block && align == pool.align

-- On an arena in use, `allocate` leaves what the destructor gives back as it was, and where it takes a
-- chunk, for a request of the arena's size when the free list is empty, puts this chunk behind it with
-- the arena's alignment. `deallocate` leaves it as it was.
pub allocate-destroy :
    (bytes align fresh p : ℕ) (pool : PoolResource) (mem : Memory)
    → 0 < pool.block
    → (destroy (allocate bytes align fresh pool mem).1
        ≡ destroy pool ++ (if fits_block bytes align pool then chunks_taken pool fresh else []))
      × (destroy (deallocate p bytes align pool mem).0 ≡ destroy pool)
unfolding allocate deallocate
allocate-destroy bytes align fresh p pool mem in_use =
    let set : (pool.block == 0) ≡ false = ground (arith, in_use) in
    (
      rw set (allocated (fits_block bytes align pool) _ fresh pool mem),
      rw set (given_back _ p pool mem),
    )
