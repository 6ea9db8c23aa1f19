-- ===== src/Spsc/Capacity.antt =====
-- The rounding up of a capacity.
use native.Mathlib.Nat.{pow-succ', pow-le-pow_right}
use matching_engine_cpp.Base.{
  ℕ, zero, suc, ◌+◌, ◌*◌, ◌%◌, ◌^◌, ◌≤◌, ◌<◌, ◌≡◌, refl, ◌⊎◌, inl, inr, true, arith, ltb,
  Bool-cases, stuck, ok, err,
}
use matching_engine_cpp.Spsc.{word_size, grow_pow2, round_up_pow2}

powers : (i j : ℕ) → i ≤ j → 2 ^ i ≤ 2 ^ j
powers i j h = pow-le-pow_right (omega arith) h

doubled : (j v : ℕ) → 2 ^ j < v → v ≤ 2 ^ 63 → (j < 63) × (2 ^ j * 2 % word_size ≡ 2 ^ suc j)
doubled j v below small = elim (Bool-cases (ltb j 63)) [
  | inr above ↦ absurd (omega (arith, powers 63 j (ground (arith, above))))
  | inl h ↦
      let room = powers (suc j) 63 (ground (arith, h)) in
      (ground (arith, h), omega (arith, pow-succ' 2 j, room))
]

-- `p` is a power of two, at least `v`, and the least such.
abbrev pub IsRounded : ℕ → ℕ → ℕ → Type 0
IsRounded v k p = (k ≤ 63) × (p ≡ 2 ^ k) × (v ≤ p) × ((p ≡ 1) ⊎ (p < 2 * v))

grow-IsRounded :
    (fuel j v : ℕ)
    → v ≤ 2 ^ 63
    → j ≤ 63
    → 64 ≤ fuel + j
    → (2 ^ j ≡ 1) ⊎ (2 ^ j < 2 * v)
    → (k p : ℕ) × (grow_pow2 fuel (2 ^ j) v ≡ ok p) × IsRounded v k p
unfolding grow_pow2
grow-IsRounded zero j v small hj h least = absurd (omega arith)
grow-IsRounded (suc fuel) j v small hj h least = elim (Bool-cases (ltb (2 ^ j) v)) [
  | inr done ↦ rw done (j, 2 ^ j, refl, (hj, refl, ground (arith, done), least))
  | inl below ↦
      let lt : 2 ^ j < v = ground (arith, below) in
      let (next, e) = doubled j v lt small in
      rw (below, e)
        (grow-IsRounded fuel (suc j) v small next (omega arith)
          (inr (omega (arith, pow-succ' 2 j))))
]

-- For a size of at most 2 ^ 63 the loop of `round_up_pow2` ends, and gives the least power of two
-- that is not below the size, which is at most 2 ^ 63 too.
pub round_up_pow2-IsRounded :
    (v : ℕ) → v ≤ 2 ^ 63 → (k p : ℕ) × (round_up_pow2 v ≡ ok p) × IsRounded v k p
unfolding round_up_pow2
round_up_pow2-IsRounded v small = grow-IsRounded 65 0 v small (omega arith) (omega arith) (inl refl)

zero-stuck : (fuel v : ℕ) → 0 < v → grow_pow2 fuel 0 v ≡ err stuck
unfolding grow_pow2
zero-stuck zero v h = refl
zero-stuck (suc fuel) v h =
    let below : ltb 0 v ≡ true = ground arith in rw below (zero-stuck fuel v h)

grow-stuck : (fuel j v : ℕ) → j ≤ 63 → 2 ^ 63 < v → grow_pow2 fuel (2 ^ j) v ≡ err stuck
unfolding grow_pow2
grow-stuck zero j v hj h = refl
grow-stuck (suc fuel) j v hj h =
    let room = powers j 63 hj in
    let below : ltb (2 ^ j) v ≡ true = ground (arith, room) in
    elim (Bool-cases (ltb j 63)) [
      | inl next ↦
          let small = powers (suc j) 63 (ground (arith, next)) in
          let e : 2 ^ j * 2 % word_size ≡ 2 ^ suc j = omega (arith, pow-succ' 2 j, small) in
          rw (below, e) (grow-stuck fuel (suc j) v (ground (arith, next)) h)
      | inr last ↦
          let e : j ≡ 63 = ground (arith, last) in
          let e' : 2 ^ j * 2 % word_size ≡ 0 = rw e refl in
          rw (below, e') (zero-stuck fuel v (omega arith))
    ]

-- For a size above 2 ^ 63 no number of rounds ends the loop of `round_up_pow2`: the doubled power
-- wraps around to 0 and stays there.
pub grow_pow2-stuck : (fuel v : ℕ) → 2 ^ 63 < v → grow_pow2 fuel 1 v ≡ err stuck
grow_pow2-stuck fuel v h = grow-stuck fuel 0 v (omega arith) h
