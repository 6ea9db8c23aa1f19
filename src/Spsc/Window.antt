-- ===== src/Spsc/Window.antt =====
-- The slots between the two counters, and what a write and a counter's step do to them. Here the
-- counters do not wrap around; the queue keeps their remainders.
use Prim.Native.Nat.{bit_and, ◌∣◌}
use native.Mathlib.Nat.{pow-succ', pow-le-pow_right, mod-mod_of_dvd, dvd_refl, dvd-mul_left_of_dvd}
use matching_engine_cpp.Base.{
  ℕ, zero, suc, ◌+◌, ◌-◌, ◌%◌, ◌^◌, ◌≤◌, ◌<◌, ◌≡◌, refl, ap, subst, ◌∙◌, List, [], ◌∷◌, ◌++◌, arith,
  length,
}
use matching_engine_cpp.Spsc.{word_size, distance, store}
use matching_engine_cpp.Spsc.Masks.{bit_and_mask, mod-ne}

dvd-pow-add : (k j : ℕ) → 2 ^ k ∣ 2 ^ (k + j)
dvd-pow-add k zero = let e : k + 0 ≡ k = omega arith in rw e (dvd_refl (2 ^ k))
dvd-pow-add k (suc j) =
    let e : k + suc j ≡ suc (k + j) = omega arith in
    rw (e, pow-succ' 2 (k + j)) (dvd-mul_left_of_dvd (2 ^ k) (dvd-pow-add k j) 2)

pub index_lem : (k x : ℕ) → k ≤ 63 → bit_and (x % word_size) (2 ^ k - 1) ≡ x % 2 ^ k
index_lem k x h =
    let e : k + (64 - k) ≡ 64 = omega arith in
    bit_and_mask k (x % word_size)
    ∙ mod-mod_of_dvd (2 ^ k) x (subst (λ j. 2 ^ k ∣ 2 ^ j) e (dvd-pow-add k (64 - k)))

pub capacity_fits : (k : ℕ) → k ≤ 63 → 2 ^ k ≤ 2 ^ 63
capacity_fits k h = pow-le-pow_right (omega arith) h

pub distance_lem :
    (t n : ℕ)
    → n ≤ 2 ^ 63
    → distance (((t + n) % word_size + 1) % word_size) (t % word_size) ≡ n + 1
distance_lem t n h = omega arith

pub same_counter : (t n : ℕ) → n ≤ 2 ^ 63 → t % word_size ≡ (t + n) % word_size → n ≡ 0
same_counter t n h e = omega arith

module _ {ℓ} {T : Type ℓ} where
  unfoldable pub window : ℕ → (ℕ → T) → ℕ → ℕ → List T
  window k slots t zero = []
  window k slots t (suc n) = slots (t % 2 ^ k) ∷ window k slots (t + 1) n

  pub length-window : (k : ℕ) (slots : ℕ → T) (t n : ℕ) → length (window k slots t n) ≡ n
  unfolding window
  length-window k slots t zero = refl
  length-window k slots t (suc n) = ap suc (length-window k slots (t + 1) n)

  -- A write at the place of `h` changes no slot behind it.
  pub window-store :
      (k : ℕ) (slots : ℕ → T) (h : ℕ) (v : T) (t n : ℕ)
      → t + n ≤ h
      → h < t + 2 ^ k
      → window k (store (h % 2 ^ k) v slots) t n ≡ window k slots t n
  unfolding window
  window-store k slots h v t zero p q = refl
  window-store k slots h v t (suc n) p q =
      let apart = mod-ne (2 ^ k) t h (omega arith) (omega arith) in
      rw apart (
        ap (λ w. slots (t % 2 ^ k) ∷ w)
          (window-store k slots h v (t + 1) n (omega arith) (omega arith)))

  pub window-snoc :
      (k : ℕ) (slots : ℕ → T) (t n : ℕ)
      → window k slots t (suc n) ≡ window k slots t n ++ (slots ((t + n) % 2 ^ k) ∷ [])
  unfolding window
  window-snoc k slots t zero = let e : t + 0 ≡ t = omega arith in rw e
  window-snoc k slots t (suc n) =
      let e : t + suc n ≡ t + 1 + n = omega arith in
      rw e (ap (λ w. slots (t % 2 ^ k) ∷ w) (window-snoc k slots (t + 1) n))
