-- ===== src/Pool/Growing.antt =====
-- A new chunk is cut into blocks.
use matching_engine_cpp.Base.{
  ℕ, zero, suc, ◌+◌, ◌*◌, ◌≤◌, ◌<◌, ◌≡◌, subst, ◌⊎◌, inl, List, ◌∷◌, arith, length, All, All-mono,
}
use matching_engine_cpp.Pool.{Memory, write, PoolResource, add_slots}
use matching_engine_cpp.Pool.Blocks.{Apart, IsPool, put-IsPool}

-- A block of `b` bytes does not reach into the `n` bytes from `start`.
abbrev pub Outside : ℕ → ℕ → ℕ → ℕ → Type 0
Outside b start n q = (q + b ≤ start) ⊎ (start + n ≤ q)

row : (n b : ℕ) → suc n * b ≡ b + n * b
row n b = grind arith

next_row : (chunk i b : ℕ) → chunk + i * b + b ≡ chunk + (i + 1) * b
next_row chunk i b = grind arith

-- The slots of a region that no block reaches into are added to the free list.
pub add_slots-IsPool :
    (left chunk i : ℕ) (free live : List ℕ) (pool : PoolResource) (mem : Memory)
    → IsPool free live pool mem
    → 0 < chunk
    → All (Outside pool.block (chunk + i * pool.block) (left * pool.block)) free
    → All (Outside pool.block (chunk + i * pool.block) (left * pool.block)) live
    → let (pool', mem') = add_slots left chunk i pool mem in
      (free' : List ℕ) × IsPool free' live pool' mem' × (length free' ≡ left + length free)
unfolding add_slots
add_slots-IsPool zero chunk i free live pool mem v some_chunk h k = (free, v, omega arith)
add_slots-IsPool (suc left) chunk i free live pool mem v some_chunk h k =
    let b = pool.block in
    let slot = chunk + i * b in
    let rows : suc left * b ≡ b + left * b = row left b in
    let next = next_row chunk i b in
    let h' = subst (λ n. All (Outside b slot n) free) rows h in
    let k' = subst (λ n. All (Outside b slot n) live) rows k in
    let near = All-mono (Outside b slot (b + left * b)) (Apart b slot) in
    let far = All-mono (Outside b slot (b + left * b)) (Outside b (slot + b) (left * b)) in
    let v' =
      put-IsPool slot free live pool mem v (omega arith) (near free (λ q o. ground (arith, o)) h')
        (near live (λ q o. ground (arith, o)) k') in
    let rest =
      add_slots-IsPool left chunk (i + 1) (slot ∷ free) live (record pool { free = slot })
        (write slot pool.free mem) v' some_chunk
        (subst (λ r. All (Outside b r (left * b)) (slot ∷ free)) next
          (inl (omega arith), far free (λ q o. ground (arith, o)) h'))
        (subst (λ r. All (Outside b r (left * b)) live) next
          (far live (λ q o. ground (arith, o)) k')) in
    (rest.0, rest.1, omega (arith, rest.2))
