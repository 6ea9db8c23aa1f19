-- ===== src/Types.antt =====
-- include/types.hpp: the enumerations with their names, the commands, trades and events.
-- A `long long` is an integer; where the code depends on its width the modules say so.
use matching_engine_cpp.Base.{
  text_eq_instance, ℤ, Text, codes, text_eq, List, Option, none, some, if◌then◌else◌, find,
}

pub data Side : Type 0 where
  buy sell : Side

unfoldable pub opposite : Side → Side
opposite buy = sell
opposite sell = buy

unfoldable pub side_to_string : Side → Text
side_to_string buy = codes "BUY"
side_to_string sell = codes "SELL"

unfoldable pub side_from_string : Text → Side
side_from_string value = if text_eq value (codes "BUY") then buy else sell

pub data TimeInForce : Type 0 where
  gtc ioc fok market : TimeInForce

unfoldable pub tif_to_string : TimeInForce → Text
tif_to_string gtc = codes "GTC"
tif_to_string ioc = codes "IOC"
tif_to_string fok = codes "FOK"
tif_to_string market = codes "MARKET"

unfoldable pub tif_from_string : Text → TimeInForce
tif_from_string value =
    if text_eq value (codes "IOC")
    then ioc
    else if text_eq value (codes "FOK")
    then fok
    else if text_eq value (codes "MARKET")
    then market
    else gtc

pub data SelfTradePrevention : Type 0 where
  none_stp cancel_aggressor cancel_passive cancel_both : SelfTradePrevention

unfoldable pub stp_to_string : SelfTradePrevention → Text
stp_to_string none_stp = codes "NONE"
stp_to_string cancel_aggressor = codes "CANCEL_AGGRESSOR"
stp_to_string cancel_passive = codes "CANCEL_PASSIVE"
stp_to_string cancel_both = codes "CANCEL_BOTH"

unfoldable pub stp_from_string : Text → SelfTradePrevention
stp_from_string value =
    if text_eq value (codes "CANCEL_AGGRESSOR")
    then cancel_aggressor
    else if text_eq value (codes "CANCEL_PASSIVE")
    then cancel_passive
    else if text_eq value (codes "CANCEL_BOTH")
    then cancel_both
    else none_stp

pub data EventType : Type 0 where
  accepted executed rested cancelled rejected : EventType

unfoldable pub event_to_string : EventType → Text
event_to_string accepted = codes "ACCEPTED"
event_to_string executed = codes "EXECUTED"
event_to_string rested = codes "RESTED"
event_to_string cancelled = codes "CANCELLED"
event_to_string rejected = codes "REJECTED"

pub record AddOrder : Type 0 where
  pub symbol : Text
  pub order_id : ℤ
  pub participant_id : Text
  pub side : Side
  pub price_ticks : ℤ
  pub quantity : ℤ
  pub time_in_force : TimeInForce
  pub stp : SelfTradePrevention

pub record CancelOrder : Type 0 where
  pub symbol : Text
  pub order_id : ℤ

pub record ReplaceOrder : Type 0 where
  pub symbol : Text
  pub order_id : ℤ
  pub new_order_id : ℤ
  pub new_price_ticks : ℤ
  pub new_quantity : ℤ
  pub time_in_force : TimeInForce

pub record Trade : Type 0 where
  pub symbol : Text
  pub price_ticks : ℤ
  pub quantity : ℤ
  pub buyer_order_id : ℤ
  pub seller_order_id : ℤ
  pub buyer_participant_id : Text
  pub seller_participant_id : Text
  pub passive_order_id : ℤ
  pub aggressive_order_id : ℤ

-- `std::variant<long long, std::string>`
pub data PayloadValue : Type 0 where
  int : ℤ → PayloadValue
  str : Text → PayloadValue

-- `std::map<std::string, PayloadValue>`, its entries in the order of the keys.
abbrev pub Payload : Type 0
Payload = List (Text × PayloadValue)

pub record ExecEvent : Type 0 where
  pub sequence : ℤ
  pub type : EventType
  pub symbol : Text
  pub payload : Payload

-- `std::get<long long>`: the other alternative throws.
abbrev get_int : Option PayloadValue → Option ℤ
get_int none = none
get_int (some (int n)) = some n
get_int (some (str s)) = none

abbrev get_str : Option PayloadValue → Option Text
get_str none = none
get_str (some (int n)) = none
get_str (some (str s)) = some s

-- `none` where the code throws: a missing key, or a value of the other kind.
unfoldable pub payload_int : Payload → Text → Option ℤ
unfolding find
payload_int payload key = get_int (find key payload)

unfoldable pub payload_str : Payload → Text → Option Text
unfolding find
payload_str payload key = get_str (find key payload)
