-- ===== src/Engine/Matching.antt =====
-- The matching loops of `MatchingEngine::add`.
pub mod Rounds
pub mod Safe
pub mod Outer
use matching_engine_cpp.Base.{
  int_eq, ℕ, zero, suc, ℤ, pos, ◌+ℤ◌, ◌-ℤ◌, eqb_ℤ, ltb_ℤ, Text, codes, text_eq, List, [], ◌∷◌, ◌++◌,
  Option, none, some, if◌then◌else◌, Bool, true, false, not, ◌&&◌, ◌||◌, is_empty, length, erase,
  Result, ok, err, ◌>>=◌, ◌>>◌, guard, while, threw,
}
use matching_engine_cpp.Types.{
  Side, buy, sell, TimeInForce, gtc, ioc, fok, market, SelfTradePrevention, none_stp,
  cancel_aggressor, cancel_passive, cancel_both, EventType, executed, cancelled, AddOrder, Trade,
  Payload, ExecEvent, int, str,
}
use matching_engine_cpp.Engine.{Index, event}
use matching_engine_cpp.Engine.PriceMap.{
  RestingOrder, NodeId, Level, Levels, put_level, first, last,
}

-- What the loops change besides the book: `index_`, `sequence_` and the locals of `add`.
pub record Tape : Type 0 where
  pub index : Index
  pub sequence : ℤ
  pub remaining : ℤ
  pub events : List ExecEvent
  pub trades : List Trade

-- `events.push_back(event(...))`
unfoldable pub emit : EventType → Text → Payload → Tape → Tape
unfolding event
emit type symbol payload t = record t {
  sequence = t.sequence +ℤ pos 1;
  events = t.events ++ (event t.sequence type symbol payload ∷ []);
}

unfoldable pub trade_of : Side → AddOrder → RestingOrder → ℤ → Trade
trade_of buy active passive qty = record {
  symbol = active.symbol;
  price_ticks = passive.price_ticks;
  quantity = qty;
  buyer_order_id = active.order_id;
  seller_order_id = passive.order_id;
  buyer_participant_id = active.participant_id;
  seller_participant_id = passive.participant_id;
  passive_order_id = passive.order_id;
  aggressive_order_id = active.order_id;
}
trade_of sell active passive qty = record {
  symbol = active.symbol;
  price_ticks = passive.price_ticks;
  quantity = qty;
  buyer_order_id = passive.order_id;
  seller_order_id = active.order_id;
  buyer_participant_id = passive.participant_id;
  seller_participant_id = active.participant_id;
  passive_order_id = passive.order_id;
  aggressive_order_id = active.order_id;
}

unfoldable pub build_trade : AddOrder → RestingOrder → ℤ → Result Trade
build_trade active passive qty = do
  guard (ltb_ℤ (pos 0) qty) (threw (codes "non-positive trade quantity"))
  guard (text_eq active.symbol passive.symbol) (threw (codes "symbol mismatch"))
  ok (trade_of active.side active passive qty)

-- The inner loop's state: the list under the best price.
pub record Sweep : Type 0 where
  pub level : Level
  pub tape : Tape

abbrev pub is_none_stp : SelfTradePrevention → Bool
is_none_stp none_stp = true
is_none_stp _ = false

abbrev pub cancels_passive : SelfTradePrevention → Bool
cancels_passive cancel_passive = true
cancels_passive cancel_both = true
cancels_passive _ = false

abbrev pub cancels_aggressor : SelfTradePrevention → Bool
cancels_aggressor cancel_aggressor = true
cancels_aggressor cancel_both = true
cancels_aggressor _ = false

abbrev pub stp_reason : Text
stp_reason = codes "SELF_TRADE_PREVENTION"

unfoldable pub is_self_trade : AddOrder → RestingOrder → Bool
is_self_trade cmd passive =
    text_eq passive.participant_id cmd.participant_id && not (is_none_stp cmd.stp)

unfoldable pub drop_passive : AddOrder → NodeId → RestingOrder → Level → Tape → Sweep
unfolding emit
drop_passive cmd n passive rest t =
    if cancels_passive cmd.stp
    then record {
      level = rest;
      tape =
          record (emit cancelled cmd.symbol
            ((codes "order_id", int passive.order_id)
              ∷ (codes "reason", str stp_reason)
              ∷ (codes "remaining", int passive.remaining)
              ∷ [])
            t) { index = erase passive.order_id t.index };
    }
    else record { level = (n, passive) ∷ rest; tape = t }

-- `remaining = 0; break;`: the loop then ends by its test.
unfoldable pub drop_aggressor : AddOrder → Tape → Tape
unfolding emit
drop_aggressor cmd t =
    if cancels_aggressor cmd.stp
    then record (emit cancelled cmd.symbol
        ((codes "order_id", int cmd.order_id)
          ∷ (codes "reason", str stp_reason)
          ∷ (codes "remaining", int t.remaining)
          ∷ [])
        t) { remaining = pos 0 }
    else t

unfoldable pub prevent : AddOrder → NodeId → RestingOrder → Level → Tape → Sweep
unfolding drop_passive drop_aggressor
prevent cmd n passive rest t =
    let s = drop_passive cmd n passive rest t in
    record { level = s.level; tape = drop_aggressor cmd s.tape }

abbrev pub fill_quantity : ℤ → ℤ → ℤ
fill_quantity remaining passive_remaining =
    if ltb_ℤ remaining passive_remaining then remaining else passive_remaining

-- The trade and its event, and the front of the list taken off when it is used up.
unfoldable pub record_fill : AddOrder → NodeId → RestingOrder → Level → Tape → ℤ → Trade → Sweep
unfolding emit
record_fill cmd n passive rest t fill trade =
    let t' =
      emit executed cmd.symbol
        ((codes "aggressive_order_id", int cmd.order_id)
          ∷ (codes "passive_order_id", int passive.order_id)
          ∷ (codes "price_ticks", int passive.price_ticks)
          ∷ (codes "qty", int fill)
          ∷ [])
        (record t { remaining = t.remaining -ℤ fill; trades = t.trades ++ (trade ∷ []) }) in
    if eqb_ℤ passive.remaining (pos 0)
    then record { level = rest; tape = record t' { index = erase passive.order_id t'.index } }
    else record { level = (n, passive) ∷ rest; tape = t' }

unfoldable pub fill_front : AddOrder → NodeId → RestingOrder → Level → Tape → Result Sweep
unfolding build_trade record_fill trade_of
fill_front cmd n passive rest t = do
  let fill = fill_quantity t.remaining passive.remaining
  guard (ltb_ℤ (pos 0) fill) (threw (codes "non-positive fill quantity"))
  let passive' = record passive { remaining = passive.remaining -ℤ fill }
  guard (not (ltb_ℤ passive'.remaining (pos 0))) (threw (codes "passive overfill"))
  trade ← build_trade cmd passive' fill
  ok (record_fill cmd n passive' rest t fill trade)

-- One round of the inner loop, at a list that is not empty.
unfoldable pub visit_front : AddOrder → Level → Tape → Result Sweep
unfolding is_self_trade prevent fill_front
visit_front cmd [] t = ok (record { level = []; tape = t })
visit_front cmd ((n, passive) ∷ rest) t =
    if is_self_trade cmd passive
    then ok (prevent cmd n passive rest t)
    else fill_front cmd n passive rest t

unfoldable pub visit : AddOrder → Sweep → Result Sweep
unfolding visit_front
visit cmd s = visit_front cmd s.level s.tape

abbrev pub sweep_test : Sweep → Bool
sweep_test s = ltb_ℤ (pos 0) s.tape.remaining && not (is_empty s.level)

unfoldable pub sweep : AddOrder → Level → Tape → Result Sweep
unfolding visit while
sweep cmd level t =
    while (suc (length level)) sweep_test (visit cmd) (record { level = level; tape = t })

-- The outer loop's state: the opposite side of the book.
pub record Matching : Type 0 where
  pub levels : Levels
  pub tape : Tape

unfoldable pub best : Side → Levels → Option (ℤ × Level)
unfolding first last
best buy levels = first levels
best sell levels = last levels

abbrev pub is_market : TimeInForce → Bool
is_market market = true
is_market _ = false

-- The price test at the head of the outer loop's body, where it does not `break`.
abbrev pub within : Side → ℤ → ℤ → Bool
within buy limit price = not (ltb_ℤ limit price)
within sell limit price = not (ltb_ℤ price limit)

unfoldable pub crosses : AddOrder → ℤ → Bool
crosses cmd price = is_market cmd.time_in_force || within cmd.side cmd.price_ticks price

abbrev pub best_crosses : AddOrder → Option (ℤ × Level) → Bool
best_crosses cmd none = false
best_crosses cmd (some (price, level)) = crosses cmd price

-- The outer loop goes on: volume is left, the side is not empty, and its best price crosses.
unfoldable pub match_test : AddOrder → Matching → Bool
unfolding best crosses
match_test cmd s = ltb_ℤ (pos 0) s.tape.remaining && best_crosses cmd (best cmd.side s.levels)

unfoldable pub match_best : AddOrder → Option (ℤ × Level) → Matching → Result Matching
unfolding sweep put_level
match_best cmd none s = ok s
match_best cmd (some (price, level)) s = do
  r ← sweep cmd level s.tape
  ok (record { levels = put_level price r.level s.levels; tape = r.tape })

unfoldable pub match_step : AddOrder → Matching → Result Matching
unfolding match_best best
match_step cmd s = match_best cmd (best cmd.side s.levels) s

unfoldable pub match_all : AddOrder → Levels → Tape → Result Matching
unfolding match_step match_test while
match_all cmd levels t =
    while (suc (length levels)) (match_test cmd) (match_step cmd)
      (record { levels = levels; tape = t })
