-- ===== src/Pool/Kept.antt =====
-- What is handed out overlaps nothing that was handed out before.
use matching_engine_cpp.Base.{
  ℕ, ◌<◌, ◌≡◌, refl, inl, inr, false, List, [], ◌∷◌, ◌++◌, arith, ◌==◌, if◌then◌else◌, ==_iff,
  Bool-cases, All,
}
use matching_engine_cpp.Pool.{Memory, PoolResource, block_size, take_or_grow, allocate, deallocate}
use matching_engine_cpp.Pool.Blocks.{Apart, Apart-sym, ApartAll, IsPool, put-IsPool}

-- The arena with the size that its first request sets.
abbrev pub set_up : ℕ → ℕ → PoolResource → PoolResource
set_up bytes align pool =
    if pool.block == 0 then record pool { block = block_size bytes align; align = align } else pool

-- The arena holds the free blocks and the blocks handed out, and the request is for its size.
pub record Serves (bytes align : ℕ) (free live : List ℕ) (pool : PoolResource) (mem : Memory)
    : Type 0 where
  pub pool_ok : IsPool free live (set_up bytes align pool) mem
  pub same_block : block_size bytes align ≡ (set_up bytes align pool).block
  pub same_align : align ≡ (set_up bytes align pool).align

pub allocate-set_up :
    (bytes align fresh : ℕ) (pool : PoolResource) (mem : Memory)
    → block_size bytes align ≡ (set_up bytes align pool).block
    → align ≡ (set_up bytes align pool).align
    → allocate bytes align fresh pool mem ≡ take_or_grow fresh (set_up bytes align pool) mem
unfolding allocate
allocate-set_up bytes align fresh pool mem size same = elim (Bool-cases (pool.block == 0)) [
  | inl unset ↦ rw unset refl
  | inr set ↦
      let size' : block_size bytes align ≡ pool.block = rw set at size in
      let same' : align ≡ pool.align = rw set at same in
      let e1 = (==_iff (block_size bytes align) pool.block).1 size' in
      let e2 = (==_iff align pool.align).1 same' in rw (set, e1, e2) refl
]

All-without :
    (P : ℕ → Type 0) (p : ℕ) (before behind : List ℕ)
    → All P (before ++ (p ∷ behind))
    → P p × All P (before ++ behind)
All-without P p [] behind h = h
All-without P p (q ∷ qs) behind h = let r = All-without P p qs behind h.1 in (r.0, (h.0, r.1))

-- The blocks handed out, without one of them.
ApartAll-without :
    (b p : ℕ) (before behind : List ℕ)
    → ApartAll b (before ++ (p ∷ behind))
    → All (Apart b p) (before ++ behind) × ApartAll b (before ++ behind)
ApartAll-without b p [] behind h = h
ApartAll-without b p (q ∷ qs) behind h =
    let r = ApartAll-without b p qs behind h.1 in
    let k = All-without (Apart b q) p qs behind h.0 in ((Apart-sym b q p k.0, r.0), (k.1, r.1))

-- The free blocks beside the ones handed out, without one of these.
cross_without :
    (b p : ℕ) (free before behind : List ℕ)
    → All (λ q. All (Apart b q) (before ++ (p ∷ behind))) free
    → All (Apart b p) free × All (λ q. All (Apart b q) (before ++ behind)) free
cross_without b p [] before behind h = (tt, tt)
cross_without b p (q ∷ qs) before behind h =
    let r = cross_without b p qs before behind h.1 in
    let k = All-without (Apart b q) p before behind h.0 in ((Apart-sym b q p k.0, r.0), (k.1, r.1))

without-IsPool :
    (p : ℕ) (free before behind : List ℕ) (pool : PoolResource) (mem : Memory)
    → IsPool free (before ++ (p ∷ behind)) pool mem
    → All (Apart pool.block p) free × IsPool free (before ++ behind) pool mem
without-IsPool p free before behind pool mem v =
    let cross = cross_without pool.block p free before behind v.apart in
    (
      cross.0,
      record {
        positive = v.positive;
        chain = v.chain;
        free_apart = v.free_apart;
        live_apart = (ApartAll-without pool.block p before behind v.live_apart).1;
        not_null = (All-without (λ q. 0 < q) p before behind v.not_null).1;
        apart = cross.1;
      },
    )

-- Where a block that is handed out comes back, with the size that the arena serves, `deallocate` puts
-- it in front of the free list; the other blocks stay handed out, and none overlaps another.
pub deallocate-IsPool :
    (p bytes align : ℕ) (free before behind : List ℕ) (pool : PoolResource) (mem : Memory)
    → IsPool free (before ++ (p ∷ behind)) pool mem
    → block_size bytes align ≡ pool.block
    → align ≡ pool.align
    → let (pool', mem') = deallocate p bytes align pool mem in
      IsPool (p ∷ free) (before ++ behind) pool' mem'
unfolding deallocate
deallocate-IsPool p bytes align free before behind pool mem v size same =
    let e0 : (pool.block == 0) ≡ false = ground (arith, v.positive) in
    let e1 = (==_iff (block_size bytes align) pool.block).1 size in
    let e2 = (==_iff align pool.align).1 same in
    let live = ApartAll-without pool.block p before behind v.live_apart in
    let some_block = (All-without (λ q. 0 < q) p before behind v.not_null).0 in
    let rest = without-IsPool p free before behind pool mem v in
    rw (e0, e1, e2) (put-IsPool p free (before ++ behind) pool mem rest.1 some_block rest.0 live.0)
