-- ===== src/Risk/Tests.antt =====
-- An instance of the theorem on the risk checks, and a run.
use matching_engine_cpp.Base.{◌≡◌, refl, ◌↔◌, Option, none, some, [], ◌∷◌, arith, pos, Text, codes}
use matching_engine_cpp.Types.{buy, gtc, none_stp, AddOrder}
use matching_engine_cpp.Risk.{mul_i64, default_limits, check_add}
use matching_engine_cpp.Risk.Laws.{WithinLimits, check_add_lem}

abbrev large : AddOrder
large = record {
  symbol = 65 ∷ [];
  order_id = pos 1;
  participant_id = 66 ∷ [];
  side = buy;
  price_ticks = pos 10_000_000_000;
  quantity = pos 1_000_000;
  time_in_force = gtc;
  stp = none_stp;
}

large_rejected : check_add default_limits large ≡ some (some (codes "RISK_NOTIONAL_EXCEEDED"))
unfolding check_add mul_i64
large_rejected = refl

check_add_lem_example :
    (reason : Option Text) × (check_add default_limits large ≡ some reason)
    × ((reason ≡ none) ↔ WithinLimits default_limits large)
check_add_lem_example = check_add_lem default_limits large (omega arith)
