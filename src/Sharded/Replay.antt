-- ===== src/Sharded/Replay.antt =====
-- `apply_record` and the replay of a shard's log.
pub mod Laws
pub mod Shards
pub mod Rejected
use matching_engine_cpp.Base.{
  Option, none, some, List, [], ◌∷◌, if◌then◌else◌, ℤ, pos, Text, codes, text_eq, threw, Result, ok,
  err, ◌>>=◌, int_eq, text_eq_instance,
}
use matching_engine_cpp.Json.{Json, object, find, as_int, as_string}
use matching_engine_cpp.Types.{
  AddOrder, CancelOrder, ReplaceOrder, SelfTradePrevention, none_stp, side_from_string,
  tif_from_string, stp_from_string,
}
use matching_engine_cpp.Engine.{Engine}
use matching_engine_cpp.Engine.Commands.{Output, add, cancel, replace}

abbrev string_or_empty : Option Json → Text
string_or_empty none = []
string_or_empty (some v) = as_string v

abbrev int_or_zero : Option Json → ℤ
int_or_zero none = pos 0
int_or_zero (some v) = as_int v

unfoldable pub get_str : Json → Text → Text
unfolding find as_string
get_str command key = string_or_empty (find key command)

unfoldable pub get_int : Json → Text → ℤ
unfolding find as_int
get_int command key = int_or_zero (find key command)

abbrev stp_or_none : Option Json → SelfTradePrevention
stp_or_none none = none_stp
stp_or_none (some v) = stp_from_string (as_string v)

unfoldable pub read_add : Json → AddOrder
unfolding get_str get_int find side_from_string tif_from_string stp_from_string
read_add command = record {
  symbol = get_str command (codes "symbol");
  order_id = get_int command (codes "order_id");
  participant_id = get_str command (codes "participant_id");
  side = side_from_string (get_str command (codes "side"));
  price_ticks = get_int command (codes "price_ticks");
  quantity = get_int command (codes "quantity");
  time_in_force = tif_from_string (get_str command (codes "time_in_force"));
  stp = stp_or_none (find (codes "stp") command);
}

unfoldable pub read_cancel : Json → CancelOrder
unfolding get_str get_int
read_cancel command = record {
  symbol = get_str command (codes "symbol");
  order_id = get_int command (codes "order_id");
}

unfoldable pub read_replace : Json → ReplaceOrder
unfolding get_str get_int tif_from_string
read_replace command = record {
  symbol = get_str command (codes "symbol");
  order_id = get_int command (codes "order_id");
  new_order_id = get_int command (codes "new_order_id");
  new_price_ticks = get_int command (codes "new_price_ticks");
  new_quantity = get_int command (codes "new_quantity");
  time_in_force = tif_from_string (get_str command (codes "time_in_force"));
}

abbrev pub engine_of : Output → Result Engine
engine_of out = ok out.0

-- What a record of the type `type` does; one of another type does nothing.
unfoldable pub apply_command : Engine → Text → Json → Result Engine
unfolding add cancel replace read_add read_cancel read_replace
apply_command e type command =
    if text_eq type (codes "add")
    then add e (read_add command) >>= engine_of
    else if text_eq type (codes "cancel")
    then cancel e (read_cancel command) >>= (λ out. ok out.0)
    else if text_eq type (codes "replace")
    then replace e (read_replace command) >>= engine_of
    else ok e

unfoldable pub apply_parts : Engine → Option Json → Option Json → Result Engine
unfolding apply_command as_string
apply_parts e (some type) (some (object fs)) = apply_command e (as_string type) (object fs)
apply_parts e type command = err (threw (codes "invalid wal record"))

unfoldable pub apply_record : Engine → Json → Result Engine
unfolding apply_parts find
apply_record e r = apply_parts e (find (codes "type") r) (find (codes "command") r)

-- The records of a log, one after the other. The loop of `replay_shard`.
unfoldable pub replay : Engine → List Json → Result Engine
unfolding apply_record
replay e [] = ok e
replay e (r ∷ rs) = apply_record e r >>= λ e'. replay e' rs
