-- ===== src/Engine/Snapshot/Sides.antt =====
-- The levels of one side, written and restored.
use matching_engine_cpp.Base.{
  ◌≡◌, refl, sym, ap, ◌∙◌, Bool, true, false, ◌&&◌, some, List, [], ◌∷◌, ◌++◌, append-nil,
  append_assoc, if◌then◌else◌, ℤ, eqb_ℤ, Text, codes, text_eq, int_eq, text_eq_instance,
}
use matching_engine_cpp.Types.{Side, AddOrder, gtc, none_stp}
use matching_engine_cpp.Json.{as_int, as_string, int, string, set, find}
use matching_engine_cpp.Engine.PriceMap.{RestingOrder, Level, Levels}
use matching_engine_cpp.Engine.{Engine}
use matching_engine_cpp.Engine.Invariant.Holding.{is_side}
use matching_engine_cpp.Engine.Snapshot.{
  level_json, as_string, as_int, order_json, orders_json, levels_json, restore_order,
  restore_orders, restore_level, restore_levels, rest_again,
}
use matching_engine_cpp.Engine.Snapshot.Again.{
  Seen, seen, seen_order, seen_at, is_place, added_at, seen_at-rest_again,
}

-- Adding in two steps.
pub added_twice :
    (here : Bool) (old new more : List Seen)
    → added_at here (added_at here old new) more ≡ added_at here old (new ++ more)
added_twice true old new more = append_assoc old new more
added_twice false old new more = refl

pub added_none : (here : Bool) (old : List Seen) → added_at here old [] ≡ old
added_none true old = append-nil old
added_none false old = refl

order_fields :
    (o : RestingOrder)
    → (find (codes "order_id") (order_json o) ≡ some (int o.order_id))
      × (find (codes "participant_id") (order_json o) ≡ some (string o.participant_id))
      × (find (codes "remaining") (order_json o) ≡ some (int o.remaining))
unfolding find order_json set text_eq codes
order_fields o = (refl, refl, refl)

abbrev restored : Text → Side → ℤ → RestingOrder → AddOrder
restored symbol side price o = record {
  symbol = symbol;
  order_id = o.order_id;
  participant_id = o.participant_id;
  side = side;
  price_ticks = price;
  quantity = o.remaining;
  time_in_force = gtc;
  stp = none_stp;
}

restore_order_json :
    (symbol : Text) (side : Side) (price : ℤ) (o : RestingOrder) (e : Engine)
    → restore_order symbol side
        (int price)
        (find (codes "order_id") (order_json o))
        (find (codes "participant_id") (order_json o))
        (find (codes "remaining") (order_json o))
        e
      ≡ rest_again symbol (restored symbol side price o) e
unfolding restore_order as_int as_string
restore_order_json symbol side price o e =
    let (id, participant, remaining) = order_fields o in rw (id, participant, remaining) refl

restore_orders-seen :
    (symbol : Text) (side : Side) (price : ℤ) (l : Level) (e : Engine) (s : Text) (d : Side) (p : ℤ)
    → seen_at (restore_orders symbol side (int price) (orders_json l) e).books s d p
      ≡ added_at (is_place symbol side price s d p) (seen_at e.books s d p) (seen l)
unfolding restore_orders orders_json
restore_orders-seen symbol side price [] e s d p =
    sym (added_none (is_place symbol side price s d p) (seen_at e.books s d p))
restore_orders-seen symbol side price ((n, o) ∷ l) e s d p =
    let here = is_place symbol side price s d p in
    let e' = rest_again symbol (restored symbol side price o) e in
    ap (λ x. seen_at (restore_orders symbol side (int price) (orders_json l) x).books s d p)
      (restore_order_json symbol side price o e)
    ∙ restore_orders-seen symbol side price l e' s d p
    ∙ ap (λ old. added_at here old (seen l))
        (seen_at-rest_again symbol (restored symbol side price o) e s d p)
    ∙ added_twice here (seen_at e.books s d p) (seen_order o ∷ []) (seen l)

-- All that the levels hold at a price.
abbrev pub all_at : ℤ → Levels → List Seen
all_at p [] = []
all_at p ((q, l) ∷ m) = if eqb_ℤ q p then seen l ++ all_at p m else all_at p m

restore_level_json :
    (symbol : Text) (side : Side) (price : ℤ) (l : Level) (e : Engine)
    → restore_level symbol side
        (find (codes "price_ticks") (level_json price l))
        (find (codes "orders") (level_json price l))
        e
      ≡ restore_orders symbol side (int price) (orders_json l) e
unfolding restore_level find level_json set text_eq codes
restore_level_json symbol side price l e = refl

-- Whether a symbol and a side are those of some levels.
abbrev pub is_on : Text → Side → Text → Side → Bool
is_on symbol side s d = text_eq symbol s && is_side side d

added_level :
    (a b c : Bool) (old new more : List Seen)
    → added_at (a && b) (added_at (a && b && c) old new) more
      ≡ added_at (a && b) old (if c then new ++ more else more)
added_level false b c old new more = refl
added_level true false c old new more = refl
added_level true true true old new more = append_assoc old new more
added_level true true false old new more = refl

pub restore_levels-seen :
    (symbol : Text) (side : Side) (m : Levels) (e : Engine) (s : Text) (d : Side) (p : ℤ)
    → seen_at (restore_levels symbol side (levels_json m) e).books s d p
      ≡ added_at (is_on symbol side s d) (seen_at e.books s d p) (all_at p m)
unfolding restore_levels levels_json
restore_levels-seen symbol side [] e s d p =
    sym (added_none (is_on symbol side s d) (seen_at e.books s d p))
restore_levels-seen symbol side ((q, l) ∷ m) e s d p =
    let on = is_on symbol side s d in
    ap (λ x. seen_at (restore_levels symbol side (levels_json m) x).books s d p)
      (restore_level_json symbol side q l e)
    ∙ restore_levels-seen symbol side m (restore_orders symbol side (int q) (orders_json l) e) s d p
    ∙ ap (λ old. added_at on old (all_at p m)) (restore_orders-seen symbol side q l e s d p)
    ∙ added_level (text_eq symbol s) (is_side side d) (eqb_ℤ q p) (seen_at e.books s d p) (seen l)
        (all_at p m)
