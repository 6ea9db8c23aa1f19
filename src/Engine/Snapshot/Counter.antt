-- ===== src/Engine/Snapshot/Counter.antt =====
-- Orders that go to rest again count no event.
use matching_engine_cpp.Base.{
  ◌≡◌, refl, ◌∙◌, Option, none, some, Text, codes, int_eq, text_eq_instance,
}
use matching_engine_cpp.Types.{Side}
use matching_engine_cpp.Json.{Json, array, Items, item, no_items, find}
use matching_engine_cpp.Engine.{Engine}
use matching_engine_cpp.Engine.Commands.{rest_order}
use matching_engine_cpp.Engine.Snapshot.{
  rest_order, restore_order, restore_orders, restore_level, restore_levels, restore_side,
  rest_again,
}

restore_order-sequence :
    (symbol : Text) (d : Side) (price : Json) (i p r : Option Json) (e : Engine)
    → (restore_order symbol d price i p r e).sequence ≡ e.sequence
unfolding restore_order rest_again rest_order
restore_order-sequence symbol d price (some i) (some p) (some r) e = refl
restore_order-sequence symbol d price (some i) (some p) none e = refl
restore_order-sequence symbol d price (some i) none r e = refl
restore_order-sequence symbol d price none p r e = refl

restore_orders-sequence :
    (symbol : Text) (d : Side) (price : Json) (os : Items) (e : Engine)
    → (restore_orders symbol d price os e).sequence ≡ e.sequence
unfolding restore_orders
restore_orders-sequence symbol d price no_items e = refl
restore_orders-sequence symbol d price (item o os) e =
    restore_orders-sequence symbol d price os _
    ∙ restore_order-sequence symbol d price (find (codes "order_id") o)
        (find (codes "participant_id") o) (find (codes "remaining") o) e

restore_level-sequence :
    (symbol : Text) (d : Side) (price orders : Option Json) (e : Engine)
    → (restore_level symbol d price orders e).sequence ≡ e.sequence
unfolding restore_level
restore_level-sequence symbol d (some price) (some (array orders)) e =
    restore_orders-sequence symbol d price orders e
restore_level-sequence symbol d (some price) _ e = refl
restore_level-sequence symbol d none _ e = refl

restore_levels-sequence :
    (symbol : Text) (d : Side) (ls : Items) (e : Engine)
    → (restore_levels symbol d ls e).sequence ≡ e.sequence
unfolding restore_levels
restore_levels-sequence symbol d no_items e = refl
restore_levels-sequence symbol d (item l ls) e =
    restore_levels-sequence symbol d ls _
    ∙ restore_level-sequence symbol d (find (codes "price_ticks") l) (find (codes "orders") l) e

pub restore_side-sequence :
    (symbol : Text) (levels : Option Json) (d : Side) (e : Engine)
    → (restore_side symbol levels d e).sequence ≡ e.sequence
unfolding restore_side
restore_side-sequence symbol (some (array levels)) d e = restore_levels-sequence symbol d levels _
restore_side-sequence symbol _ d e = refl
