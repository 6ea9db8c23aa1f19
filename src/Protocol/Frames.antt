-- ===== src/Protocol/Frames.antt =====
-- include/checksum.hpp, and the frames of src/protocol.cpp with the commands in them.
use matching_engine_cpp.Base.{
  ℕ, zero, suc, ◌+◌, ◌-◌, ◌/◌, ◌%◌, ◌^◌, Option, none, some, [], ◌∷◌, ◌++◌, ltb, ◌==◌,
  if◌then◌else◌, length, Text, codes, threw, Result, ok, err, ◌>>=◌,
}
use Prim.Native.Nat.{bit_and, bit_xor}
use matching_engine_cpp.Gateway.{Command, add_order, cancel_order, replace_order}
use matching_engine_cpp.Protocol.{put_u8, put_u32, get_u8, get_u32, substr}
use matching_engine_cpp.Protocol.Orders.{
  pack_add_order, pack_cancel_order, pack_replace_order, unpack_add_order, unpack_cancel_order,
  unpack_replace_order,
}

-- An entry of the table: eight rounds of `c = (c & 1) ? (0xEDB88320u ^ (c >> 1)) : (c >> 1)`.
unfoldable pub table_rounds : ℕ → ℕ → ℕ
table_rounds zero c = c
table_rounds (suc k) c = table_rounds k (if c % 2 == 1 then bit_xor 0xEDB88320 (c / 2) else c / 2)

unfoldable pub table_entry : ℕ → ℕ
unfolding table_rounds
table_entry i = table_rounds 8 i

unfoldable pub crc_bytes : ℕ → Text → ℕ
unfolding table_entry
crc_bytes crc [] = crc
crc_bytes crc (b ∷ bs) =
    crc_bytes (bit_xor (table_entry (bit_and (bit_xor crc b) 0xFF)) (crc / 256)) bs

-- `crc32` with the seed 0: `~seed` is all ones, and so is the word that the result is taken from.
unfoldable pub crc32 : Text → ℕ
unfolding crc_bytes
crc32 s = 2 ^ 32 - 1 - crc_bytes (2 ^ 32 - 1) s

-- `MessageType`: a value of its `std::uint8_t`.
abbrev pub MessageType : Type 0
MessageType = ℕ

abbrev pub type_add : MessageType
type_add = 1

abbrev pub type_cancel : MessageType
type_cancel = 2

abbrev pub type_replace : MessageType
type_replace = 3

abbrev pub type_event : MessageType
type_event = 10

unfoldable pub frame_message : MessageType → Text → Text
frame_message type payload =
    put_u8 type ++ (put_u32 (length payload % 2 ^ 32) ++ (payload ++ put_u32 (crc32 payload)))

-- A difference of `std::size_t`.
abbrev pub sub_size : ℕ → ℕ → ℕ
sub_size a b = (a + 2 ^ 64 - b) % 2 ^ 64

-- What `parse_frame` stores when it returns true.
pub record Frame : Type 0 where
  pub offset : ℕ
  pub type : MessageType
  pub payload : Text

-- The frame whose header gives the length `len`: `none` where bytes are still missing.
unfoldable pub parse_body : Text → ℕ → MessageType → ℕ → Result (Option Frame)
parse_body buf p type len =
    if ltb (sub_size (length buf) p) (len + 4)
    then ok none
    else if crc32 (substr buf p len) == get_u32 buf (p + len)
    then ok (some (record { offset = p + len + 4; type = type; payload = substr buf p len }))
    else err (threw (codes "frame crc mismatch"))

unfoldable pub parse_frame : Text → ℕ → Result (Option Frame)
unfolding parse_body
parse_frame buf offset =
    if ltb (sub_size (length buf) offset) 5
    then ok none
    else parse_body buf (offset + 5) (get_u8 buf offset) (get_u32 buf (offset + 1))

unfoldable pub encode_command : Command → Result Text
unfolding frame_message pack_add_order pack_cancel_order pack_replace_order
encode_command (add_order c) = pack_add_order c >>= λ b. ok (frame_message type_add b)
encode_command (cancel_order c) = pack_cancel_order c >>= λ b. ok (frame_message type_cancel b)
encode_command (replace_order c) = pack_replace_order c >>= λ b. ok (frame_message type_replace b)

unfoldable pub decode_command : MessageType → Text → Result Command
unfolding unpack_add_order unpack_cancel_order unpack_replace_order
decode_command type payload =
    if type == type_add
    then (unpack_add_order payload >>= λ c. ok (add_order c))
    else if type == type_cancel
    then (unpack_cancel_order payload >>= λ c. ok (cancel_order c))
    else if type == type_replace
    then (unpack_replace_order payload >>= λ c. ok (replace_order c))
    else err (threw (codes "unsupported command message type"))
