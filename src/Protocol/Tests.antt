-- ===== src/Protocol/Tests.antt =====
-- Instances of the theorems of the wire format, and a run.
use matching_engine_cpp.Base.{
  ◌+◌, ◌≡◌, refl, none, [], ◌∷◌, ◌++◌, arith, pos, negsuc, length, take, Text, codes, ok,
}
use matching_engine_cpp.Types.{buy, fok, cancel_both, AddOrder}
use matching_engine_cpp.Gateway.{add_order}
use matching_engine_cpp.Protocol.Frames.{
  crc32, frame_message, parse_frame, encode_command, type_event,
}
use matching_engine_cpp.Protocol.{put_u8, put_u32, put_bytes}
use matching_engine_cpp.Protocol.FramesBack.{parse_frame_partial}
use matching_engine_cpp.Protocol.CommandsBack.{ReadsAt, decode-encode}

abbrev sample : AddOrder
sample = record {
  symbol = 65 ∷ 65 ∷ [];
  order_id = pos 42;
  participant_id = 68 ∷ [];
  side = buy;
  price_ticks = negsuc 3;
  quantity = pos 250;
  time_in_force = fok;
  stp = cancel_both;
}

-- The check value of CRC-32: the text "123456789".
crc32_check : crc32 (codes "123456789") ≡ 0xCBF43926
unfolding crc32 codes
crc32_check = refl

decode-encode_example :
    (w : Text) × (encode_command (add_order sample) ≡ ok w)
    × ReadsAt ((1 ∷ []) ++ (w ++ (2 ∷ []))) 1 (add_order sample) (1 + length w)
decode-encode_example =
    decode-encode (1 ∷ []) (2 ∷ []) (omega arith) (add_order sample) (omega arith)

parse_frame_partial_example :
    parse_frame ((1 ∷ []) ++ take 7 (frame_message type_event (5 ∷ 6 ∷ []))) 1 ≡ ok none
parse_frame_partial_example =
    parse_frame_partial (1 ∷ []) (5 ∷ 6 ∷ []) type_event (omega arith) 7 (omega arith)
      (unfold frame_message put_u8 put_u32 put_bytes in omega arith)
