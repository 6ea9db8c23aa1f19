-- ===== src/Spsc/Masks.antt =====
-- `& (2 ^ k - 1)` is the remainder by `2 ^ k`, and what remainders do to a run of indices.
use Prim.Native.Nat.{bit_and, bit_and-bitwise, digits, min}
use native.Mathlib.Nat.{
  mul-le-mul_left, min-zero, zero-mod, pow-succ', mod-one, mod-lt, div-add-mod,
  add-mul-mod_self_left, mod-eq_of_lt,
}
use matching_engine_cpp.Base.{
  ℕ, zero, suc, ◌+◌, ◌-◌, ◌*◌, ◌/◌, ◌%◌, ◌^◌, ◌≤◌, ◌<◌, ◌≡◌, sym, ap, ◌∙◌, inl, inr, false, arith,
  ltb, ◌==◌, ltb→lt, ==_iff, Bool-cases,
}

-- A remainder by `2 * m`, from its last binary digit up.
pub mod-double : (m a : ℕ) → 0 < m → a % (2 * m) ≡ a / 2 % m * 2 + a % 2
mod-double m a h =
    let low = a / 2 % m * 2 + a % 2 in
    let small : low < 2 * m = omega (arith, mod-lt (a / 2) h) in
    let parts : a ≡ low + 2 * m * (a / 2 / m) = grind (arith, div-add-mod (a / 2) m) in
    ap (λ x. x % (2 * m)) parts ∙ add-mul-mod_self_left low (2 * m) (a / 2 / m) ∙ mod-eq_of_lt small

pub pow_pos : (k : ℕ) → 0 < 2 ^ k
pow_pos zero = omega arith
pow_pos (suc k) = omega (arith, pow-succ' 2 k, pow_pos k)

pub min_bit : (a : ℕ) → min (a % 2) 1 ≡ a % 2
min_bit a = omega arith

-- The digits of `a` under a mask of `k` ones, on enough fuel.
pub masked_digits : (n k a : ℕ) → a ≤ n → digits (λ b. zero) min n a (2 ^ k - 1) ≡ a % 2 ^ k
masked_digits zero k zero h = sym (zero-mod (2 ^ k))
masked_digits (suc n) k zero h = sym (zero-mod (2 ^ k))
masked_digits zero k (suc a) h = absurd (omega arith)
masked_digits (suc n) zero (suc a) h = omega (
  arith,
  masked_digits n zero (suc a / 2) (omega arith),
  min-zero (suc a % 2),
  mod-one (suc a),
  mod-one (suc a / 2),
)
masked_digits (suc n) (suc k) (suc a) h =
    let positive : 0 < 2 ^ k = pow_pos k in
    let half : (2 ^ suc k - 1) / 2 ≡ 2 ^ k - 1 = omega (arith, pow-succ' 2 k) in
    let odd : (2 ^ suc k - 1) % 2 ≡ 1 = omega (arith, pow-succ' 2 k) in
    rw (half, odd, masked_digits n k (suc a / 2) (omega arith), min_bit (suc a), pow-succ' 2 k)
      (sym (mod-double (2 ^ k) (suc a) positive))

pub bit_and_mask : (k a : ℕ) → bit_and a (2 ^ k - 1) ≡ a % 2 ^ k
bit_and_mask k a = bit_and-bitwise a (2 ^ k - 1) ∙ masked_digits a k a (omega arith)

-- Two multiples of `m` are not less than `m` apart.
quotients_apart : (m p q r : ℕ) → m * p + r < m * q + r → m * q + r < m * p + r + m → ⊥
quotients_apart m p q r h k = elim (Bool-cases (ltb p q)) [
  | inl below ↦ grind (arith, ltb→lt p q below, mul-le-mul_left m (ltb→lt p q below))
  | inr above ↦ let le : q ≤ p = ground arith in omega (arith, mul-le-mul_left m le)
]

-- Two indices less than `m` apart have different remainders.
pub mod-ne : (m a b : ℕ) → a < b → b < a + m → (a % m == b % m) ≡ false
mod-ne m a b h k = elim (Bool-cases (a % m == b % m)) [
  | inr other ↦ other
  | inl same ↦
      let r : a % m ≡ b % m = (==_iff (a % m) (b % m)).0 same in
      absurd (
        quotients_apart m (a / m) (b / m) (b % m) (omega (arith, div-add-mod a m, div-add-mod b m))
          (omega (arith, div-add-mod a m, div-add-mod b m)))
]
