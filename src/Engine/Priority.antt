-- ===== src/Engine/Priority.antt =====
-- Price-time priority as a specification: an incoming order takes from the resting orders in one
-- queue, best price first and oldest first, until it is filled.
pub mod Inner
pub mod Order
pub mod Outer
pub mod Adding
pub mod Volume
pub mod Whole
use matching_engine_cpp.Base.{
  ◌≡◌, refl, inl, inr, Bool, true, false, ◌||◌, List, [], ◌∷◌, ◌++◌, reverse, arith, if◌then◌else◌,
  Bool-cases, ℤ, pos, ◌-ℤ◌, ltb_ℤ, leb_ℤ, eq_of_parts,
}
use matching_engine_cpp.Engine.PriceMap.{RestingOrder, NodeId, Level, Levels}
use matching_engine_cpp.Engine.Matching.{crosses, within, is_market, fill_quantity}
use matching_engine_cpp.Types.{Side, buy, sell, TimeInForce, gtc, ioc, fok, market, AddOrder, Trade}

abbrev pub orders_of : Level → List RestingOrder
orders_of [] = []
orders_of ((n, o) ∷ l) = o ∷ orders_of l

-- The levels from the best price for an order of side `d`.
abbrev pub best_first_for : Side → Levels → Levels
best_first_for buy m = m
best_first_for sell m = reverse m

-- The prices that an order accepts: a market order every price, a buy order its limit and below, and
-- a sell order its limit and above.
abbrev pub accepts_limit : Side → ℤ → ℤ → Bool
accepts_limit buy limit price = leb_ℤ price limit
accepts_limit sell limit price = leb_ℤ limit price

abbrev pub accepts : TimeInForce → Side → ℤ → ℤ → Bool
accepts market d limit price = true
accepts gtc d limit price = accepts_limit d limit price
accepts ioc d limit price = accepts_limit d limit price
accepts fok d limit price = accepts_limit d limit price

pub within-accepts_limit :
    (d : Side) (limit price : ℤ) → within d limit price ≡ accepts_limit d limit price
within-accepts_limit buy limit price = ground arith
within-accepts_limit sell limit price = ground arith

-- The test of the outer loop is that the order accepts the price.
pub crosses-accepts :
    (cmd : AddOrder) (price : ℤ)
    → crosses cmd price ≡ accepts cmd.time_in_force cmd.side cmd.price_ticks price
unfolding crosses
crosses-accepts cmd price = tested cmd.time_in_force
  where
    tested :
        (tif : TimeInForce)
        → (is_market tif || within cmd.side cmd.price_ticks price)
          ≡ accepts tif cmd.side cmd.price_ticks price
    tested market = refl
    tested gtc = within-accepts_limit cmd.side cmd.price_ticks price
    tested ioc = within-accepts_limit cmd.side cmd.price_ticks price
    tested fok = within-accepts_limit cmd.side cmd.price_ticks price

-- The smaller of two quantities.
abbrev pub lesser : ℤ → ℤ → ℤ
lesser a b = if leb_ℤ a b then a else b

pub fill_quantity-lesser : (a b : ℤ) → fill_quantity a b ≡ lesser a b
fill_quantity-lesser a b = elim (Bool-cases (ltb_ℤ a b)) [
  | inl below ↦ let le : leb_ℤ a b ≡ true = ground arith in rw (below, le) refl
  | inr other ↦ elim (Bool-cases (leb_ℤ a b)) [
    | inl le ↦ rw (other, le) (eq_of_parts b a (ground arith))
    | inr above ↦ rw (other, above) refl
  ]
]

-- The orders at the prices that `cmd` accepts, up to the first price that it does not.
unfoldable pub crossing : AddOrder → Levels → List RestingOrder
crossing cmd [] = []
crossing cmd ((p, l) ∷ m) =
    if accepts cmd.time_in_force cmd.side cmd.price_ticks p
    then orders_of l ++ crossing cmd m
    else []

unfoldable pub queue : AddOrder → Levels → List RestingOrder
unfolding crossing
queue cmd m = crossing cmd (best_first_for cmd.side m)

-- The order takes what it wants of the first, then of the next.
unfoldable pub fills : ℤ → List RestingOrder → List (RestingOrder × ℤ)
fills wanted [] = []
fills wanted (o ∷ os) =
    if ltb_ℤ (pos 0) wanted
    then (o, lesser wanted o.remaining) ∷ fills (wanted -ℤ lesser wanted o.remaining) os
    else []

-- What the buyer has, where an order of side `d` brings `active` and meets `passive`.
abbrev pub of_buyer {ℓ} : {A : Type ℓ} → Side → A → A → A
of_buyer buy active passive = active
of_buyer sell active passive = passive

abbrev pub of_seller {ℓ} : {A : Type ℓ} → Side → A → A → A
of_seller d active passive = of_buyer d passive active

abbrev pub trade_between : Side → AddOrder → RestingOrder → ℤ → Trade
trade_between d cmd o qty = record {
  symbol = cmd.symbol;
  price_ticks = o.price_ticks;
  quantity = qty;
  buyer_order_id = of_buyer d cmd.order_id o.order_id;
  seller_order_id = of_seller d cmd.order_id o.order_id;
  buyer_participant_id = of_buyer d cmd.participant_id o.participant_id;
  seller_participant_id = of_seller d cmd.participant_id o.participant_id;
  passive_order_id = o.order_id;
  aggressive_order_id = cmd.order_id;
}

-- The trades that those fills are, each at the resting order's price.
unfoldable pub trades_for : AddOrder → List (RestingOrder × ℤ) → List Trade
trades_for cmd [] = []
trades_for cmd ((o, q) ∷ fs) = trade_between cmd.side cmd o q ∷ trades_for cmd fs

pub fills_none :
    (wanted : ℤ) (os : List RestingOrder) → ltb_ℤ (pos 0) wanted ≡ false → fills wanted os ≡ []
unfolding fills
fills_none wanted [] h = refl
fills_none wanted (o ∷ os) h = rw h
