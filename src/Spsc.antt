-- ===== src/Spsc.antt =====
-- include/spsc_queue.hpp: the ring between one producing and one consuming thread.
-- A `std::size_t` is a number below 2 ^ 64 whose sums wrap around.
pub mod Masks
pub mod Window
pub mod Ring
pub mod Bounded
pub mod Capacity
pub mod Fifo
pub mod Threads
mod Tests
use Prim.Native.Nat.{bit_and}
use matching_engine_cpp.Base.{
  ℕ, zero, suc, ◌+◌, ◌-◌, ◌*◌, ◌%◌, ◌^◌, Bool, true, false, Option, none, some, ◌∷◌, ltb, ◌==◌,
  if◌then◌else◌, stuck, Result, ok, err, ◌>>=◌,
}

abbrev pub word_size : ℕ
word_size = 2 ^ 64

-- The loop of `round_up_pow2`: `p <<= 1` while it is below `v`.
unfoldable pub grow_pow2 : ℕ → ℕ → ℕ → Result ℕ
grow_pow2 zero p v = err stuck
grow_pow2 (suc fuel) p v =
    let more = grow_pow2 fuel (p * 2 % word_size) v in if ltb p v then more else ok p

unfoldable pub round_up_pow2 : ℕ → Result ℕ
unfolding grow_pow2
round_up_pow2 v = grow_pow2 65 1 v

-- The slots are a function of the index; those from `capacity` on are not there.
pub record SpscQueue {ℓ} (T : Type ℓ) : Type ℓ where
  pub capacity : ℕ
  pub mask : ℕ
  pub slots : ℕ → T
  pub head : ℕ
  pub tail : ℕ

-- `next - tail`
abbrev pub distance : ℕ → ℕ → ℕ
distance next tail = (next + word_size - tail) % word_size

module _ {ℓ} {T : Type ℓ} where
  -- `T()` is in every slot at first.
  unfoldable pub create : ℕ → T → Result (SpscQueue T)
  unfolding round_up_pow2
  create capacity blank = round_up_pow2 capacity >>= λ p.
      ok (record { capacity = p; mask = p - 1; slots = λ i. blank; head = 0; tail = 0 })

  abbrev pub store : ℕ → T → (ℕ → T) → ℕ → T
  store i value slots j = if j == i then value else slots j

  unfoldable pub push : SpscQueue T → T → SpscQueue T × Bool
  push q value =
      let next = (q.head + 1) % word_size in
      if ltb q.capacity (distance next q.tail)
      then (q, false)
      else (record q { slots = store (bit_and q.head q.mask) value q.slots; head = next }, true)

  unfoldable pub pop : SpscQueue T → SpscQueue T × Option T
  pop q =
      if q.tail == q.head
      then (q, none)
      else (record q { tail = (q.tail + 1) % word_size }, some (q.slots (bit_and q.tail q.mask)))

  unfoldable pub empty : SpscQueue T → Bool
  empty q = q.head == q.tail
