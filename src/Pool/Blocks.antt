-- ===== src/Pool/Blocks.antt =====
-- Blocks that do not overlap, and the list of the free ones in memory.
use matching_engine_cpp.Base.{
  ℕ, ◌+◌, ◌≤◌, ◌<◌, ◌≡◌, refl, ◌⊎◌, true, false, List, [], ◌∷◌, arith, ◌==◌, ==_iff, All,
}
use matching_engine_cpp.Pool.{Memory, write, PoolResource}

-- The blocks of `b` bytes at two addresses do not overlap.
abbrev pub Apart : ℕ → ℕ → ℕ → Type 0
Apart b p q = (p + b ≤ q) ⊎ (q + b ≤ p)

pub Apart-sym : (b p q : ℕ) → Apart b p q → Apart b q p
Apart-sym b p q h = ground arith

abbrev pub ApartAll : ℕ → List ℕ → Type 0
ApartAll b [] = Unit {0}
ApartAll b (p ∷ ps) = All (Apart b p) ps × ApartAll b ps

-- From the pointer `a` the memory gives the blocks `ps`, and then the null pointer.
abbrev pub Chain : Memory → ℕ → List ℕ → Type 0
Chain mem a [] = a ≡ 0
Chain mem a (p ∷ ps) = (a ≡ p) × (0 < p) × Chain mem (mem p) ps

-- The free list holds the blocks `free`; they and the blocks `live` that are handed out do not
-- overlap.
pub record IsPool (free live : List ℕ) (pool : PoolResource) (mem : Memory) : Type 0 where
  pub positive : 0 < pool.block
  pub chain : Chain mem pool.free free
  pub free_apart : ApartAll pool.block free
  pub live_apart : ApartAll pool.block live
  pub not_null : All (λ p. 0 < p) live
  pub apart : All (λ p. All (Apart pool.block p) live) free

pub Chain-write :
    (b p value : ℕ) (mem : Memory) (a : ℕ) (ps : List ℕ)
    → 0 < b
    → All (Apart b p) ps
    → Chain mem a ps
    → Chain (write p value mem) a ps
Chain-write b p value mem a [] some_bytes h c = c
Chain-write b p value mem a (q ∷ qs) some_bytes h c =
    let other : (q == p) ≡ false = ground (arith, h.0) in
    (c.0, c.1, rw other (Chain-write b p value mem (mem q) qs some_bytes h.1 c.2))

pub All-swap :
    (b p : ℕ) (ps live : List ℕ)
    → All (Apart b p) ps
    → All (λ q. All (Apart b q) live) ps
    → All (λ q. All (Apart b q) (p ∷ live)) ps
All-swap b p [] live h k = tt
All-swap b p (q ∷ qs) live h k = ((Apart-sym b p q h.0, k.0), All-swap b p qs live h.1 k.1)

-- The first free block is handed out.
pub take-IsPool :
    (p : ℕ) (free live : List ℕ) (pool : PoolResource) (mem : Memory)
    → IsPool (p ∷ free) live pool mem
    → IsPool free (p ∷ live) (record pool { free = mem p }) mem
take-IsPool p free live pool mem v = record {
  positive = v.positive;
  chain = v.chain.2;
  free_apart = v.free_apart.1;
  live_apart = (v.apart.0, v.live_apart);
  not_null = (v.chain.1, v.not_null);
  apart = All-swap pool.block p free live v.free_apart.0 v.apart.1;
}

-- A block that overlaps no other is put in front of the free list.
pub put-IsPool :
    (p : ℕ) (free live : List ℕ) (pool : PoolResource) (mem : Memory)
    → IsPool free live pool mem
    → 0 < p
    → All (Apart pool.block p) free
    → All (Apart pool.block p) live
    → IsPool (p ∷ free) live (record pool { free = p }) (write p pool.free mem)
put-IsPool p free live pool mem v some_bytes h k =
    let same : (p == p) ≡ true = (==_iff p p).1 refl in
    record {
      positive = v.positive;
      chain = (
        refl,
        some_bytes,
        rw same (Chain-write pool.block p pool.free mem pool.free free v.positive h v.chain),
      );
      free_apart = (h, v.free_apart);
      live_apart = v.live_apart;
      not_null = v.not_null;
      apart = (k, v.apart);
    }
