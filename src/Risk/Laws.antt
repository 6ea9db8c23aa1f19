-- ===== src/Risk/Laws.antt =====
-- What an order that passes the checks satisfies, and that the product does not overflow.
use matching_engine_cpp.Base.{
  ℕ, ◌*◌, ◌^◌, ◌≤◌, ◌<◌, ◌≡◌, ap, ◌∙◌, ◌≢◌, ◌↔◌, inl, inr, false, Option, none, some, arith,
  Option-cases, ℤ, pos, negsuc, pos_part, ◌*ℤ◌, ◌≤ℤ◌, ◌<ℤ◌, Text,
}
use matching_engine_cpp.Types.{AddOrder}
use matching_engine_cpp.Engine.Matching.{is_market}
use matching_engine_cpp.Risk.{RiskLimits, mul_i64, check_add}

-- The limits stated outright, without the order of the checks.
pub record WithinLimits (limits : RiskLimits) (cmd : AddOrder) : Type 0 where
  pub positive : pos 0 <ℤ cmd.quantity
  pub quantity : cmd.quantity ≤ℤ limits.max_order_quantity
  pub price :
      is_market cmd.time_in_force ≡ false
      → (limits.min_price_ticks ≤ℤ cmd.price_ticks)
        × (cmd.price_ticks ≤ℤ limits.max_price_ticks)
        × (cmd.price_ticks *ℤ cmd.quantity ≤ℤ limits.max_notional_ticks)

-- The product of the largest price and the largest quantity is a `long long`.
abbrev pub NoOverflow : RiskLimits → Type 0
NoOverflow limits =
    (pos 0 ≤ℤ limits.min_price_ticks)
    × (pos_part limits.max_price_ticks * pos_part limits.max_order_quantity < 2 ^ 63)

product-le : (a b c d : ℕ) → a ≤ b → c ≤ d → a * c ≤ b * d
product-le a b c d h k = grind arith

-- The only product that `check_add` forms does not overflow.
mul_i64-some :
    (limits : RiskLimits) (price qty : ℤ)
    → NoOverflow limits
    → pos 0 <ℤ qty
    → qty ≤ℤ limits.max_order_quantity
    → limits.min_price_ticks ≤ℤ price
    → price ≤ℤ limits.max_price_ticks
    → mul_i64 price qty ≡ some (price *ℤ qty)
unfolding mul_i64 ◌*ℤ◌
mul_i64-some limits (pos p) (pos q) (z, n) h1 h2 h3 h4 =
    ground
      (arith, product-le p (pos_part limits.max_price_ticks) q (pos_part limits.max_order_quantity))
mul_i64-some limits (negsuc p) q (z, n) h1 h2 h3 h4 = absurd (omega arith)
mul_i64-some limits (pos p) (negsuc q) (z, n) h1 h2 h3 h4 = absurd (omega arith)

module _ (limits : RiskLimits) (cmd : AddOrder) (h : NoOverflow limits) where
  no_overflow : check_add limits cmd ≢ none
  unfolding check_add
  no_overflow e = ground (arith, mul_i64-some limits cmd.price_ticks cmd.quantity h)

  passes : check_add limits cmd ≡ some none → WithinLimits limits cmd
  unfolding check_add
  passes e = ground (arith, mul_i64-some limits cmd.price_ticks cmd.quantity h)

  accepted : WithinLimits limits cmd → check_add limits cmd ≡ some none
  unfolding check_add
  accepted w = ground (arith, mul_i64-some limits cmd.price_ticks cmd.quantity h, w.price)

-- Under limits whose lowest price is not negative, and whose largest price times whose largest quantity
-- is below 2^63, `check_add` always gives an answer (its product never overflows), and accepts exactly
-- the orders within the limits.
pub check_add_lem :
    (limits : RiskLimits) (cmd : AddOrder)
    → NoOverflow limits
    → (reason : Option Text) × (check_add limits cmd ≡ some reason)
      × ((reason ≡ none) ↔ WithinLimits limits cmd)
check_add_lem limits cmd h = elim (Option-cases (check_add limits cmd)) [
  | inl e ↦ absurd (no_overflow limits cmd h e)
  | inr (reason, e) ↦ (
    reason,
    e,
    (λ r. passes limits cmd h (e ∙ ap some r), λ w. ground (arith, accepted limits cmd h w)),
  )
]
