-- ===== src/Engine/PriceMap.antt =====
-- The price levels of one side of a book: `std::map<long long, std::list<RestingOrder>>`. A map is
-- the list of its entries by rising price; a list node is its address with its element.
pub mod Laws
pub mod Nodes
use matching_engine_cpp.Base.{
  add_i64, ℕ, Option, none, some, List, [], ◌∷◌, ◌==◌, if◌then◌else◌, ℤ, ltb_ℤ, eqb_ℤ, is_empty,
  Text,
}
use matching_engine_cpp.Types.{Side}

pub record RestingOrder : Type 0 where
  pub symbol : Text
  pub order_id : ℤ
  pub participant_id : Text
  pub side : Side
  pub price_ticks : ℤ
  pub remaining : ℤ
  pub entered_sequence : ℤ

abbrev pub NodeId : Type 0
NodeId = ℕ

abbrev pub Level : Type 0
Level = List (NodeId × RestingOrder)

abbrev pub Levels : Type 0
Levels = List (ℤ × Level)

-- `*iter`, where the node is in the list.
unfoldable pub find_node : NodeId → Level → Option RestingOrder
find_node n [] = none
find_node n ((m, o) ∷ l) = if m == n then some o else find_node n l

-- `level.erase(iter)`
unfoldable pub erase_node : NodeId → Level → Level
erase_node n [] = []
erase_node n ((m, o) ∷ l) = if m == n then erase_node n l else (m, o) ∷ erase_node n l

-- The list under a price; `[]` where the map has no such key.
unfoldable pub level_at : ℤ → Levels → Level
level_at p [] = []
level_at p ((q, l) ∷ m) = if eqb_ℤ q p then l else level_at p m

-- Stores a list under a price, in the place that the order of the keys gives it.
unfoldable pub set_level : ℤ → Level → Levels → Levels
set_level p l [] = (p, l) ∷ []
set_level p l ((q, k) ∷ m) =
    if eqb_ℤ q p
    then (q, l) ∷ m
    else if ltb_ℤ p q
    then (p, l) ∷ (q, k) ∷ m
    else (q, k) ∷ set_level p l m

unfoldable pub erase_level : ℤ → Levels → Levels
erase_level p [] = []
erase_level p ((q, k) ∷ m) = if eqb_ℤ q p then erase_level p m else (q, k) ∷ erase_level p m

-- After a change of the list under a price: `if (level.empty()) side_map.erase(level_it);`
unfoldable pub put_level : ℤ → Level → Levels → Levels
unfolding set_level erase_level
put_level p l m = if is_empty l then erase_level p m else set_level p l m

-- `begin()` and `std::prev(end())`
unfoldable pub first : Levels → Option (ℤ × Level)
first [] = none
first (x ∷ m) = some x

unfoldable pub last : Levels → Option (ℤ × Level)
last [] = none
last (x ∷ []) = some x
last (x ∷ y ∷ m) = last (y ∷ m)

-- `total += order.remaining;` for each order of the list.
unfoldable pub level_volume : ℤ → Level → ℤ
unfolding add_i64
level_volume total [] = total
level_volume total ((n, o) ∷ l) = level_volume (add_i64 total o.remaining) l
