-- ===== src/Pool/Sizes.antt =====
-- The size of a block is the size asked for, rounded up.
use Prim.Native.Nat.{bit_and, bit_and-bitwise, digits, min}
use native.Mathlib.Nat.{zero-mod, mod-one, mod-lt, pow-succ', mod-eq_of_lt, min-zero}
use matching_engine_cpp.Base.{
  ℕ, zero, suc, ◌+◌, ◌-◌, ◌*◌, ◌/◌, ◌%◌, ◌^◌, ◌≤◌, ◌<◌, ◌≡◌, refl, ap, ◌∙◌, inl, inr, [], ◌∷◌, ◌++◌,
  arith, ltb, ◌==◌, Bool-cases,
}
use matching_engine_cpp.Spsc.Masks.{masked_digits, mod-double, pow_pos}
use matching_engine_cpp.Pool.{
  Memory, PoolResource, blocks_per_chunk, add_slots, grow, take_block, take_or_grow, block_size,
  pointer_size,
}

double-mul : (a b : ℕ) → 2 * a * b ≡ 2 * (a * b)
double-mul a b = grind arith

-- The digits of `a` under a mask of ones above `k` zeros, on enough fuel, and those that it clears.
kept_digits :
    (n k j a : ℕ)
    → a ≤ n
    → a < 2 ^ k * 2 ^ j
    → digits (λ b. zero) min n a (2 ^ k * (2 ^ j - 1)) + a % 2 ^ k ≡ a
kept_digits zero k j zero h s = omega (arith, zero-mod (2 ^ k))
kept_digits (suc n) k j zero h s = omega (arith, zero-mod (2 ^ k))
kept_digits zero k j (suc a) h s = absurd (omega arith)
kept_digits (suc n) zero j (suc a) h s =
    let one : 1 * (2 ^ j - 1) ≡ 2 ^ j - 1 = omega arith in
    let small : suc a < 2 ^ j = omega arith in
    rw one (omega (arith, masked_digits (suc n) j (suc a) h, mod-one (suc a), mod-eq_of_lt small))
kept_digits (suc n) (suc k) j (suc a) h s =
    let positive : 0 < 2 ^ k = pow_pos k in
    let mask : 2 ^ suc k * (2 ^ j - 1) ≡ 2 * (2 ^ k * (2 ^ j - 1)) =
      ap (λ x. x * (2 ^ j - 1)) (pow-succ' 2 k) ∙ double-mul (2 ^ k) (2 ^ j - 1) in
    let half : (2 * (2 ^ k * (2 ^ j - 1))) / 2 ≡ 2 ^ k * (2 ^ j - 1) = omega arith in
    let even : (2 * (2 ^ k * (2 ^ j - 1))) % 2 ≡ 0 = omega arith in
    let whole : 2 ^ suc k * 2 ^ j ≡ 2 * (2 ^ k * 2 ^ j) =
      ap (λ x. x * 2 ^ j) (pow-succ' 2 k) ∙ double-mul (2 ^ k) (2 ^ j) in
    let bound : suc a / 2 < 2 ^ k * 2 ^ j = omega (arith, whole) in
    let rest = kept_digits n k j (suc a / 2) (omega arith) bound in
    let low = mod-double (2 ^ k) (suc a) positive in
    rw (mask, half, even, pow-succ' 2 k, low, min-zero (suc a % 2)) (omega (arith, rest))

-- Under the mask, what is below `2 ^ k` is cleared.
bit_and-high : (k j a : ℕ) → a < 2 ^ k * 2 ^ j → bit_and a (2 ^ k * (2 ^ j - 1)) + a % 2 ^ k ≡ a
bit_and-high k j a h =
    ap (λ x. x + a % 2 ^ k) (bit_and-bitwise a (2 ^ k * (2 ^ j - 1)))
    ∙ kept_digits a k j a (omega arith) h

mul_pred : (p q : ℕ) → p * (suc q - 1) + p ≡ p * suc q
mul_pred p q = grind arith

pred_mul : (p q : ℕ) → 0 < q → p * (q - 1) + p ≡ p * q
pred_mul p zero h = absurd (omega arith)
pred_mul p (suc q) h = mul_pred p q

-- The rounding of a size to a multiple of `2 ^ k` is not below it.
rounded-le :
    (b k j : ℕ)
    → 2 ^ k * 2 ^ j ≡ 2 ^ 64
    → b + 2 ^ k ≤ 2 ^ 64
    → b ≤ bit_and ((b + 2 ^ k + 2 ^ 64 - 1) % 2 ^ 64) (2 ^ 64 - 1 - (2 ^ k + 2 ^ 64 - 1) % 2 ^ 64)
rounded-le b k j word fits =
    let p = 2 ^ k in
    let positive : 0 < 2 ^ k = pow_pos k in
    let sum : (b + 2 ^ k + 2 ^ 64 - 1) % 2 ^ 64 ≡ b + 2 ^ k - 1 = omega (arith, positive, fits) in
    let ones = pred_mul (2 ^ k) (2 ^ j) (pow_pos j) in
    let mask : 2 ^ 64 - 1 - (2 ^ k + 2 ^ 64 - 1) % 2 ^ 64 ≡ 2 ^ k * (2 ^ j - 1) =
      omega (arith, positive, fits, ones, word) in
    let kept = bit_and-high k j (b + 2 ^ k - 1) (omega (arith, positive, fits, word)) in
    let below = mod-lt (b + 2 ^ k - 1) positive in
    rw (sum, mask) (omega (arith, kept, below, positive))

-- A block has room for the bytes asked for and for a pointer, where the alignment is a power of two and
-- the sum of the two does not overflow.
pub block_size-le :
    (bytes k j : ℕ)
    → 2 ^ k * 2 ^ j ≡ 2 ^ 64
    → bytes + pointer_size + 2 ^ k ≤ 2 ^ 64
    → (bytes ≤ block_size bytes (2 ^ k)) × (pointer_size ≤ block_size bytes (2 ^ k))
unfolding block_size
block_size-le bytes k j word fits = elim (Bool-cases (ltb bytes pointer_size)) [
  | inl small ↦
      let r = rounded-le pointer_size k j word (omega (arith, fits)) in
      rw small (ground (arith, r, small), r)
  | inr large ↦
      let r = rounded-le bytes k j word (omega (arith, fits)) in
      rw large (r, ground (arith, r, large))
]

-- The arena serves the same size as before.
abbrev pub SameSize : PoolResource → PoolResource → Type 0
SameSize pool pool' = (pool'.block ≡ pool.block) × (pool'.align ≡ pool.align)

add_slots-SameSize :
    (left chunk i : ℕ) (pool : PoolResource) (mem : Memory)
    → SameSize pool (add_slots left chunk i pool mem).0
unfolding add_slots
add_slots-SameSize zero chunk i pool mem = (refl, refl)
add_slots-SameSize (suc left) chunk i pool mem =
    add_slots-SameSize left chunk (i + 1) (record pool { free = chunk + i * pool.block }) _

pub take_or_grow-SameSize :
    (fresh : ℕ) (pool : PoolResource) (mem : Memory) → SameSize pool (take_or_grow fresh pool mem).1
unfolding take_or_grow take_block grow
take_or_grow-SameSize fresh pool mem = elim (Bool-cases (pool.free == 0)) [
  | inl none_free ↦ rw none_free (
      add_slots-SameSize blocks_per_chunk fresh 0
        (record pool { chunks = pool.chunks ++ (fresh ∷ []) }) mem)
  | inr some_free ↦ rw some_free (refl, refl)
]
