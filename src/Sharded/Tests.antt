-- ===== src/Sharded/Tests.antt =====
-- Two shards that take an order.
use matching_engine_cpp.Sharded.Replay.Rejected.{refused_event, refusal}
use matching_engine_cpp.Base.{
  ◌<◌, ◌≡◌, refl, ◌≢◌, none, some, List, [], ◌∷◌, arith, pos, ◌+ℤ◌, codes, ok,
}
use matching_engine_cpp.Types.{AddOrder, buy, gtc, none_stp, ExecEvent, Trade}
use matching_engine_cpp.Gateway.{add_order}
use matching_engine_cpp.Engine.{Engine, initial}
use matching_engine_cpp.Risk.{default_limits, check_add, mul_i64}
use matching_engine_cpp.Sharded.{
  shard, hash, Sharded, Answer, shard_add, fresh_shard, dispatch, validate_ingress, create,
}
use matching_engine_cpp.Sharded.Routing.{symbol_of, dispatch-others}
use matching_engine_cpp.Sharded.Replay.{replay}
use matching_engine_cpp.Sharded.Replay.Rejected.{shard_add-refused}
use matching_engine_cpp.Sharded.Replay.Shards.{
  AllRecoverable, create-AllRecoverable, dispatch-AllRecoverable,
}

abbrev two_shards : Sharded
two_shards = record { shard_count = 2; shards = λ i. fresh_shard; risk = default_limits }

abbrev first_order : AddOrder
first_order = record {
  symbol = codes "AAPL";
  order_id = pos 1;
  participant_id = codes "A";
  side = buy;
  price_ticks = pos 100;
  quantity = pos 5;
  time_in_force = gtc;
  stp = none_stp;
}

two_shards-AllRecoverable : AllRecoverable two_shards
unfolding create
two_shards-AllRecoverable = create-AllRecoverable (pos 2) default_limits two_shards refl

in_order_and_safe :
    ((validate_ingress fresh_shard (some (pos 1)) (codes "AAPL") (pos 1)).0 ≡ none)
    × (check_add default_limits first_order ≡ some none)
unfolding validate_ingress check_add mul_i64
in_order_and_safe = (refl, refl)

dispatch-AllRecoverable_example :
    (out : Sharded × List ExecEvent × List Trade) × (dispatch two_shards
        (add_order first_order)
        (some (pos 1))
      ≡ ok out)
    × AllRecoverable out.0
dispatch-AllRecoverable_example =
    dispatch-AllRecoverable two_shards (add_order first_order) (some (pos 1))
      two_shards-AllRecoverable in_order_and_safe

abbrev large_order : AddOrder
large_order = record first_order { quantity = pos 1_000_001 }

large_order-refused :
    ((validate_ingress fresh_shard none (codes "AAPL") (pos 1)).0 ≡ none)
    × (check_add default_limits large_order ≡ some (some (codes "RISK_QTY_TOO_LARGE")))
unfolding validate_ingress check_add
large_order-refused = (refl, refl)

shard_add-refused_example :
    (a : Answer) × (shard_add default_limits fresh_shard large_order none ≡ ok a)
    × (a.1 ≡ refused_event initial large_order (codes "RISK_QTY_TOO_LARGE") ∷ [])
    × (a.2 ≡ [])
    × (a.0.engine ≡ record initial { sequence = initial.sequence +ℤ pos 1 })
    × (a.0.wal ≡ refusal large_order (codes "RISK_QTY_TOO_LARGE") ∷ [])
    × ((e : Engine) → replay e a.0.wal ≡ replay e [])
shard_add-refused_example =
    shard_add-refused default_limits fresh_shard large_order none (codes "RISK_QTY_TOO_LARGE")
      large_order-refused.0 large_order-refused.1

-- The order goes to shard 1.
other_shard : 0 ≢ shard two_shards (symbol_of (add_order first_order))
unfolding shard hash codes
other_shard = omega arith

abbrev first_taken :
    (out : Sharded × List ExecEvent × List Trade) × (dispatch two_shards
        (add_order first_order)
        (some (pos 1))
      ≡ ok out)
    × AllRecoverable out.0
first_taken =
    dispatch-AllRecoverable two_shards (add_order first_order) (some (pos 1))
      two_shards-AllRecoverable in_order_and_safe

dispatch-others_example :
    (shard two_shards (codes "AAPL") < 2) × (first_taken.0.0.shards 0 ≡ fresh_shard)
dispatch-others_example =
    dispatch-others two_shards (add_order first_order) (some (pos 1)) first_taken.0 0 (omega arith)
      other_shard first_taken.1
