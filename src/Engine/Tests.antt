-- ===== src/Engine/Tests.antt =====
-- Runs of the engine on small inputs, and instances of its theorems.
mod Sessions
use matching_engine_cpp.Base.{
  ◌+ℤ◌, ◌-ℤ◌, ◌^◌, ◌≡◌, refl, sym, ap, subst, List, [], ◌∷◌, map, arith, ℤ, pos, ◌<ℤ◌, Text, codes,
  text_eq, find, Result, ok, err, ◌>>=◌, int_eq, text_eq_instance,
}
use matching_engine_cpp.Types.{
  Side, buy, sell, TimeInForce, gtc, fok, none_stp, AddOrder, ReplaceOrder, EventType, accepted,
  executed, ExecEvent,
}
use matching_engine_cpp.Engine.{Engine, initial, book_for}
use matching_engine_cpp.Engine.Commands.{Output, add, cancel, replace}
use matching_engine_cpp.Engine.Invariant.{IsValid, initial-IsValid}
use matching_engine_cpp.Engine.Priority.{queue, crossing}
use matching_engine_cpp.Engine.Priority.Volume.{volume}
use matching_engine_cpp.Engine.Priority.Whole.{traded, all_or_none, queue_of, add-all_or_none}
use matching_engine_cpp.Engine.Invariant.Adding.{add-IsValid}
use matching_engine_cpp.Engine.Invariant.Removing.{cancel-IsValid, replace-IsValid}

abbrev order : ℤ → Text → Side → ℤ → ℤ → TimeInForce → AddOrder
order id who side price qty tif = record {
  symbol = 78 ∷ [];
  order_id = id;
  participant_id = who;
  side = side;
  price_ticks = price;
  quantity = qty;
  time_in_force = tif;
  stp = none_stp;
}

abbrev run : Engine → List AddOrder → Result Output
run e [] = ok (e, [], [])
run e (c ∷ []) = add e c
run e (c ∷ d ∷ cs) = add e c >>= λ (e', evs, ts). run e' (d ∷ cs)

abbrev two_sells_then_buy : List AddOrder
two_sells_then_buy =
    order (pos 1) (65 ∷ []) sell (pos 100) (pos 5) gtc
    ∷ order (pos 2) (66 ∷ []) sell (pos 100) (pos 5) gtc
    ∷ order (pos 3) (67 ∷ []) buy (pos 101) (pos 7) gtc
    ∷ []

abbrev trades_of : Result Output → List (ℤ × ℤ × ℤ)
trades_of (err x) = []
trades_of (ok (e, evs, ts)) = map (λ t. (t.seller_order_id, t.price_ticks, t.quantity)) ts

abbrev types_of : Result Output → List EventType
types_of (err x) = []
types_of (ok (e, evs, ts)) = map (λ t. t.type) evs

-- test_price_time_priority_and_passive_price of tests/test_engine.cpp.
fifo_run :
    (trades_of (run initial two_sells_then_buy)
      ≡ (pos 1, pos 100, pos 5) ∷ (pos 2, pos 100, pos 2) ∷ [])
    × (types_of (run initial two_sells_then_buy) ≡ accepted ∷ executed ∷ executed ∷ [])
unfolding add initial find text_eq ◌-ℤ◌ ◌+ℤ◌
fifo_run = (refl, refl)

abbrev pub sell_order : AddOrder
sell_order = order (pos 1) (65 ∷ []) sell (pos 100) (pos 5) gtc

abbrev pub buy_order : AddOrder
buy_order = order (pos 3) (67 ∷ []) buy (pos 101) (pos 7) gtc

-- The engine with a sell order at rest.
abbrev pub one_sell : (out : Output) × (add initial sell_order ≡ ok out) × IsValid out.0
one_sell = add-IsValid initial sell_order initial-IsValid

add-IsValid_example : (out : Output) × (add one_sell.0.0 buy_order ≡ ok out) × IsValid out.0
add-IsValid_example = add-IsValid one_sell.0.0 buy_order one_sell.2

cancel-IsValid_example :
    (out : Engine × List ExecEvent) × (cancel one_sell.0.0
        (record { symbol = 78 ∷ []; order_id = pos 1 })
      ≡ ok out)
    × IsValid out.0
cancel-IsValid_example =
    cancel-IsValid one_sell.0.0 (record { symbol = 78 ∷ []; order_id = pos 1 }) one_sell.2

abbrev pub new_price : ReplaceOrder
new_price = record {
  symbol = 78 ∷ [];
  order_id = pos 1;
  new_order_id = pos 2;
  new_price_ticks = pos 99;
  new_quantity = pos 6;
  time_in_force = gtc;
}

replace-IsValid_example : (out : Output) × (replace one_sell.0.0 new_price ≡ ok out) × IsValid out.0
replace-IsValid_example = replace-IsValid one_sell.0.0 new_price one_sell.2

abbrev fok_order : AddOrder
fok_order = order (pos 3) (67 ∷ []) buy (pos 101) (pos 4) fok

-- That engine, by its computation.
abbrev engine_of : Result Output → Engine
engine_of (ok out) = out.0
engine_of (err why) = initial

abbrev resting : Engine
resting = engine_of (add initial sell_order)

resting-IsValid : IsValid resting
resting-IsValid = subst IsValid (sym (ap engine_of one_sell.1)) one_sell.2

resting-volume : volume (queue_of resting fok_order) ≡ pos 5
unfolding volume queue crossing add initial text_eq find ◌+ℤ◌ book_for codes
resting-volume = refl

resting-fits : volume (queue_of resting fok_order) <ℤ pos (2 ^ 63)
resting-fits = subst (λ x. x <ℤ pos (2 ^ 63)) (sym resting-volume) (omega arith)

add-all_or_none_example :
    (out : Output) × (add resting fok_order ≡ ok out)
    × (traded out.2 ≡ all_or_none (volume (queue_of resting fok_order)) (pos 4))
add-all_or_none_example =
    add-all_or_none resting fok_order resting-IsValid refl refl (omega arith) resting-fits
