-- ===== src/Protocol/CommandsBack.antt =====
-- A command comes back from the wire.
use matching_engine_cpp.Base.{
  ℕ, ◌+◌, ◌^◌, ◌≤◌, ◌<◌, ◌≡◌, refl, false, some, ◌++◌, arith, ◌==◌, length, length-append, Text, ok,
}
use matching_engine_cpp.Gateway.{Command, add_order, cancel_order, replace_order}
use matching_engine_cpp.Protocol.{IsI64}
use matching_engine_cpp.Protocol.Orders.{add_bytes, cancel_bytes, replace_bytes}
use matching_engine_cpp.Protocol.Frames.{
  type_event, MessageType, type_add, type_cancel, type_replace, frame_message, Frame, parse_frame,
  encode_command, decode_command,
}
use matching_engine_cpp.Protocol.OrdersBack.{
  unpack-pack_add, unpack-pack_cancel, unpack-pack_replace, add_header, cancel_fields,
  replace_fields,
}
use matching_engine_cpp.Protocol.FramesBack.{parse_frame-frame_message, length-frame_message}

-- The texts fit a length byte, and the numbers are values of a `long long`.
abbrev pub FitsWire : Command → Type 0
FitsWire (add_order c) =
    (length c.symbol ≤ 255)
    × (length c.participant_id ≤ 255)
    × IsI64 c.order_id
    × IsI64 c.price_ticks
    × IsI64 c.quantity
FitsWire (cancel_order c) = (length c.symbol ≤ 255) × IsI64 c.order_id
FitsWire (replace_order c) =
    (length c.symbol ≤ 255)
    × IsI64 c.order_id
    × IsI64 c.new_order_id
    × IsI64 c.new_price_ticks
    × IsI64 c.new_quantity

-- The command is read at `offset` of `buf`, and the next frame begins at `next`.
abbrev pub ReadsAt : Text → ℕ → Command → ℕ → Type 0
ReadsAt buf offset c next =
    (f : Frame) × (parse_frame buf offset ≡ ok (some f))
    × (f.offset ≡ next)
    × (decode_command f.type f.payload ≡ ok c)

-- A command that fits the wire is encoded as a frame that decodes to it.
pub encode-framed :
    (c : Command)
    → FitsWire c
    → (t : MessageType) × (p : Text) × (encode_command c ≡ ok (frame_message t p))
      × (t < 256)
      × (length p ≤ 600)
      × (decode_command t p ≡ ok c)
      × ((t == type_event) ≡ false)
unfolding encode_command decode_command
encode-framed (add_order c) (s, p, i, x, q) =
    let (packed, unpacked) = unpack-pack_add c s p i x q in
    let small = (add_header c s p i x q).0 in
    (type_add, add_bytes c, rw packed, omega arith, omega (arith, small), rw unpacked, refl)
encode-framed (cancel_order c) (s, i) =
    let (packed, unpacked) = unpack-pack_cancel c s i in
    let small = (cancel_fields c s i).0 in
    (type_cancel, cancel_bytes c, rw packed, omega arith, omega (arith, small), rw unpacked, refl)
encode-framed (replace_order c) (s, i, n, x, q) =
    let (packed, unpacked) = unpack-pack_replace c s i n x q in
    let small = (replace_fields c s i n x q).0 in
    (type_replace, replace_bytes c, rw packed, omega arith, omega (arith, small), rw unpacked, refl)

module _ (pre rest : Text) (space : length pre + length rest < 2 ^ 63) where
  pub frame_reads :
      (c : Command) (t : MessageType) (p : Text)
      → t < 256
      → length p ≤ 600
      → decode_command t p ≡ ok c
      → ReadsAt
          (pre ++ (frame_message t p ++ rest))
          (length pre)
          c
          (length pre + length (frame_message t p))
  frame_reads c t p ht hp e = (
    _,
    parse_frame-frame_message pre rest p t ht (omega arith) (
        omega (
          arith,
          length-append pre (frame_message t p ++ rest),
          length-append (frame_message t p) rest,
          length-frame_message t p,
        )),
    omega (arith, length-frame_message t p),
    e,
  )

  -- A command that fits the wire is encoded without an exception; with fewer than 2 ^ 63 bytes
  -- around its own in a buffer, reading and decoding at them gives the command back, and the offset
  -- moves behind them.
  pub decode-encode :
      (c : Command)
      → FitsWire c
      → (w : Text) × (encode_command c ≡ ok w)
        × ReadsAt (pre ++ (w ++ rest)) (length pre) c (length pre + length w)
  decode-encode c fits =
      let (t, p, encoded, ht, hp, decoded, other) = encode-framed c fits in
      (frame_message t p, encoded, frame_reads c t p ht hp decoded)
