-- ===== src/Protocol.antt =====
-- include/protocol.hpp and src/protocol.cpp: the binary wire format. A buffer is the list of its
-- bytes.
pub mod Orders
pub mod Frames
pub mod OrdersBack
pub mod FramesBack
pub mod CommandsBack
mod Tests
use matching_engine_cpp.Base.{
  ℕ, zero, suc, ◌+◌, ◌-◌, ◌*◌, ◌/◌, ◌%◌, ◌^◌, ◌≤◌, ◌<◌, [], ◌∷◌, ltb, if◌then◌else◌, ℤ, pos, negsuc,
  pos_part, neg_part, take, drop, Text,
}

-- `static_cast<std::uint64_t>` of a `long long`, and back: two's complement.
unfoldable pub to_u64 : ℤ → ℕ
to_u64 (pos n) = n % 2 ^ 64
to_u64 (negsuc n) = 2 ^ 64 - 1 - n % 2 ^ 64

unfoldable pub from_u64 : ℕ → ℤ
from_u64 w = if ltb w (2 ^ 63) then pos w else negsuc (2 ^ 64 - 1 - w)

-- The values of a `long long`.
abbrev pub IsI64 : ℤ → Type 0
IsI64 z = (pos_part z < 2 ^ 63) × (neg_part z ≤ 2 ^ 63)

-- The low `k` bytes of a word, the highest first: the loops of `put_u32` and `put_u64`.
unfoldable pub put_bytes : ℕ → ℕ → Text
put_bytes zero v = []
put_bytes (suc k) v = (v / 256 ^ k % 256) ∷ put_bytes k v

unfoldable pub put_u8 : ℕ → Text
put_u8 v = (v % 256) ∷ []

unfoldable pub put_u32 : ℕ → Text
unfolding put_bytes
put_u32 v = put_bytes 4 v

unfoldable pub put_u64 : ℕ → Text
unfolding put_bytes
put_u64 v = put_bytes 8 v

-- `v = (v << 8) | byte` in a word with `m` values; the shifted word has no low bits, so `|` adds.
unfoldable pub get_bytes : ℕ → ℕ → Text → ℕ
get_bytes m v [] = v
get_bytes m v (b ∷ bs) = get_bytes m ((v * 256 + b) % m) bs

-- `buf.substr(offset, n)`; also the `n` bytes that the loops of `get_u32` and `get_u64` read, where
-- the buffer has them.
abbrev pub substr : Text → ℕ → ℕ → Text
substr buf offset n = take n (drop offset buf)

unfoldable pub get_u8 : Text → ℕ → ℕ
unfolding get_bytes
get_u8 buf offset = get_bytes 256 0 (substr buf offset 1)

unfoldable pub get_u32 : Text → ℕ → ℕ
unfolding get_bytes
get_u32 buf offset = get_bytes (2 ^ 32) 0 (substr buf offset 4)

unfoldable pub get_u64 : Text → ℕ → ℕ
unfolding get_bytes
get_u64 buf offset = get_bytes (2 ^ 64) 0 (substr buf offset 8)
