-- ===== src/Risk.antt =====
-- include/risk.hpp: the checks before an order reaches the engine.
mod Laws
mod Tests
use matching_engine_cpp.Base.{
  ◌^◌, Bool, true, false, ◌&&◌, ◌||◌, Option, none, some, ◌∷◌, ltb, leb, if◌then◌else◌, ℤ, pos,
  pos_part, neg_part, ◌*ℤ◌, ltb_ℤ, leb_ℤ, Text, codes,
}
use matching_engine_cpp.Types.{AddOrder, TimeInForce, market}
use matching_engine_cpp.Engine.Matching.{is_market}

pub record RiskLimits : Type 0 where
  pub max_order_quantity : ℤ
  pub min_price_ticks : ℤ
  pub max_price_ticks : ℤ
  pub max_notional_ticks : ℤ

abbrev pub default_limits : RiskLimits
default_limits = record {
  max_order_quantity = pos 1_000_000;
  min_price_ticks = pos 1;
  max_price_ticks = pos 10_000_000_000;
  max_notional_ticks = pos 10_000_000_000_000;
}

-- The result of a `long long` multiplication: `none` where it overflows, which is undefined.
unfoldable pub mul_i64 : ℤ → ℤ → Option ℤ
unfolding ◌*ℤ◌
mul_i64 a b =
    let p = a *ℤ b in
    if ltb (pos_part p) (2 ^ 63) && leb (neg_part p) (2 ^ 63) then some p else none

abbrev exceeds : ℤ → Option ℤ → Option Bool
exceeds limit none = none
exceeds limit (some p) = some (ltb_ℤ limit p)

abbrev pub reason_if : Text → Option Bool → Option (Option Text)
reason_if reason none = none
reason_if reason (some true) = some (some reason)
reason_if reason (some false) = some none

-- The reason for a rejection, if there is one. The outer `none` is an overflow of the product.
unfoldable pub check_add : RiskLimits → AddOrder → Option (Option Text)
check_add limits cmd =
    if leb_ℤ cmd.quantity (pos 0)
    then some (some (codes "RISK_QTY_NON_POSITIVE"))
    else if ltb_ℤ limits.max_order_quantity cmd.quantity
    then some (some (codes "RISK_QTY_TOO_LARGE"))
    else if is_market cmd.time_in_force
    then some none
    else if ltb_ℤ cmd.price_ticks limits.min_price_ticks
        || ltb_ℤ limits.max_price_ticks cmd.price_ticks
    then some (some (codes "RISK_PRICE_OUT_OF_RANGE"))
    else reason_if (codes "RISK_NOTIONAL_EXCEEDED")
        (exceeds limits.max_notional_ticks (mul_i64 cmd.price_ticks cmd.quantity))
