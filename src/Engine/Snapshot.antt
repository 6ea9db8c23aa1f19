-- ===== src/Engine/Snapshot.antt =====
-- `snapshot` and `load_snapshot` of `MatchingEngine`: the books as a JSON value, and back.
pub mod Again
pub mod Sides
pub mod Counter
pub mod Books
pub mod Keys
pub mod Restored
use matching_engine_cpp.Base.{
  Option, none, some, List, [], ◌∷◌, reverse, ℤ, pos, Text, codes, threw, Result, ok, err, int_eq,
  text_eq_instance,
}
use matching_engine_cpp.Json.{
  Json, int, string, array, object, Items, no_items, item, Fields, no_fields, field, make_object,
  set, find, as_int, as_string,
}
use matching_engine_cpp.Types.{Side, buy, sell, AddOrder, gtc, none_stp}
use matching_engine_cpp.Engine.PriceMap.{RestingOrder, Level, Levels}
use matching_engine_cpp.Engine.{Engine, Book, book_for}
use matching_engine_cpp.Engine.Commands.{put_book, rest_order}

unfoldable pub order_json : RestingOrder → Json
order_json o = set (codes "remaining") (int o.remaining) (
    set (codes "participant_id") (string o.participant_id)
      (set (codes "order_id") (int o.order_id) make_object))

unfoldable pub orders_json : Level → Items
orders_json [] = no_items
orders_json ((n, o) ∷ l) = item (order_json o) (orders_json l)

unfoldable pub level_json : ℤ → Level → Json
level_json price level =
    set (codes "orders") (array (orders_json level))
      (set (codes "price_ticks") (int price) make_object)

unfoldable pub levels_json : Levels → Items
levels_json [] = no_items
levels_json ((price, level) ∷ m) = item (level_json price level) (levels_json m)

-- The bids go from the highest price, the asks from the lowest.
unfoldable pub serialize_side : Book → Side → Json
serialize_side book buy = array (levels_json (reverse book.bids))
serialize_side book sell = array (levels_json book.asks)

unfoldable pub book_json : Book → Json
book_json b =
    set (codes "asks") (serialize_side b sell)
      (set (codes "bids") (serialize_side b buy) make_object)

unfoldable pub books_json : List (Text × Book) → Fields
books_json [] = no_fields
books_json ((symbol, b) ∷ bs) = field symbol (book_json b) (books_json bs)

unfoldable pub snapshot : Engine → Json
snapshot e =
    set (codes "books") (object (books_json e.books))
      (set (codes "sequence") (int e.sequence) make_object)

-- The order that a snapshot holds goes to rest again, as a limit order without events.
abbrev restored_order : Text → Side → Json → Json → Json → Json → AddOrder
restored_order symbol side price order_id participant remaining = record {
  symbol = symbol;
  order_id = as_int order_id;
  participant_id = as_string participant;
  side = side;
  price_ticks = as_int price;
  quantity = as_int remaining;
  time_in_force = gtc;
  stp = none_stp;
}

unfoldable pub rest_again : Text → AddOrder → Engine → Engine
rest_again symbol cmd e =
    let (e', book) = rest_order e (book_for e.books symbol) cmd cmd.quantity in
    put_book symbol book e'

-- A value without one of the three keys is passed over.
unfoldable pub restore_order :
    Text → Side → Json → Option Json → Option Json → Option Json → Engine → Engine
restore_order symbol side price (some i) (some p) (some r) e =
    rest_again symbol (restored_order symbol side price i p r) e
restore_order symbol side price (some i) (some p) none e = e
restore_order symbol side price (some i) none r e = e
restore_order symbol side price none p r e = e

unfoldable pub restore_orders : Text → Side → Json → Items → Engine → Engine
restore_orders symbol side price no_items e = e
restore_orders symbol side price (item o os) e = restore_orders symbol side price os (
    restore_order symbol side price (find (codes "order_id") o) (find (codes "participant_id") o)
      (find (codes "remaining") o) e)

-- A level without a price, or whose orders are no array, is passed over.
unfoldable pub restore_level : Text → Side → Option Json → Option Json → Engine → Engine
restore_level symbol side (some price) (some (array orders)) e =
    restore_orders symbol side price orders e
restore_level symbol side (some price) _ e = e
restore_level symbol side none _ e = e

unfoldable pub restore_levels : Text → Side → Items → Engine → Engine
restore_levels symbol side no_items e = e
restore_levels symbol side (item level levels) e =
    restore_levels symbol side levels
      (restore_level symbol side (find (codes "price_ticks") level) (find (codes "orders") level) e)

-- The book is there from now on, even when no order is.
unfoldable pub restore_side : Text → Option Json → Side → Engine → Engine
restore_side symbol (some (array levels)) side e =
    restore_levels symbol side levels (put_book symbol (book_for e.books symbol) e)
restore_side symbol _ side e = e

unfoldable pub restore_books : Fields → Engine → Result Engine
restore_books no_fields e = ok e
restore_books (field symbol (object data_fields) books) e = restore_books books (
    restore_side symbol (find (codes "asks") (object data_fields)) sell
      (restore_side symbol (find (codes "bids") (object data_fields)) buy e))
restore_books (field symbol _ books) e =
    err (threw (codes "invalid snapshot: book data must be an object"))

abbrev sequence_of : Option Json → ℤ
sequence_of none = pos 0
sequence_of (some j) = as_int j

abbrev pub cleared : Engine → Json → Engine
cleared e snap = record e {
  books = [];
  index = [];
  sequence = sequence_of (find (codes "sequence") snap);
}

unfoldable pub restore_root : Option Json → Engine → Result Engine
restore_root (some (object books)) e = restore_books books e
restore_root _ e = err (threw (codes "invalid snapshot: 'books' must be an object"))

unfoldable pub load_snapshot : Engine → Json → Result Engine
load_snapshot e snap = restore_root (find (codes "books") snap) (cleared e snap)
