-- ===== src/Net/Tests.antt =====
-- A session that receives a command in two pieces.
use matching_engine_cpp.Base.{
  ◌^◌, ◌<◌, ◌≡◌, refl, Bool, true, false, List, [], ◌∷◌, ◌++◌, arith, pos, length, take, drop, Text,
}
use matching_engine_cpp.Gateway.{Command, cancel_order}
use matching_engine_cpp.Protocol.{put_u8, put_u32, put_u64, put_bytes, to_u64}
use matching_engine_cpp.Protocol.Orders.{pack_cancel_order, cancel_bytes}
use matching_engine_cpp.Protocol.Frames.{
  encode_command, frame_message, crc32, crc_bytes, table_entry, table_rounds,
}
use matching_engine_cpp.Net.{drain_connection, frames}
use matching_engine_cpp.Net.Frames.{frames-Ends, Ends}
use matching_engine_cpp.Net.Wires.{wire, wires}
use matching_engine_cpp.Net.Handled.{after_all}
use matching_engine_cpp.Net.Reassembled.{
  open_conn, all_joined, drain_all, last_answers, drain_all-commands, drain_connection-last,
}

-- A handler that writes down what it is called with.
abbrev recorded : Command → List Command → List Command
recorded c seen = seen ++ (c ∷ [])

abbrev recording : Command → List Command → List Command × Bool
recording c seen = (recorded c seen, true)

abbrev one_command : List Command
one_command = cancel_order (record { symbol = 65 ∷ 65 ∷ []; order_id = pos 7 }) ∷ []

abbrev two_calls : List (List Text)
two_calls = (take 3 (wires one_command) ∷ []) ∷ (drop 3 (wires one_command) ∷ []) ∷ []

frames-Ends_example : Ends 4 (frames recording 5 (1 ∷ 2 ∷ 3 ∷ 4 ∷ []) 0 []).1
frames-Ends_example =
    frames-Ends recording 5 (1 ∷ 2 ∷ 3 ∷ 4 ∷ []) 0 [] (omega arith) (omega arith) (omega arith)

whole : all_joined two_calls ≡ wires one_command
unfolding wires wire encode_command frame_message pack_cancel_order cancel_bytes put_u8 put_u32
    put_u64 put_bytes to_u64 crc32 crc_bytes table_entry table_rounds
whole = refl

short : length (wires one_command) < 2 ^ 63
unfolding wires wire encode_command frame_message pack_cancel_order cancel_bytes put_u8 put_u32
    put_u64 put_bytes to_u64 crc32 crc_bytes table_entry table_rounds
short = omega arith

drain_all-commands_example :
    drain_all recording two_calls (open_conn []) [] ≡ (open_conn [], one_command)
unfolding after_all
drain_all-commands_example =
    drain_all-commands recording recorded (λ c s. refl) one_command two_calls [] (omega arith) whole
      short

drain_connection-last_example :
    drain_connection recording (last_answers (wires one_command ∷ [])) (open_conn []) []
    ≡ (record { is_open = false; buffer = wires one_command ++ [] }, [])
drain_connection-last_example =
    drain_connection-last recording (wires one_command ∷ []) (open_conn []) []
