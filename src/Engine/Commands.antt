-- ===== src/Engine/Commands.antt =====
-- The public operations of `MatchingEngine` that change its state: `add`, `cancel` and `replace`.
-- An exception loses the state here; `Engine.Invariant` shows that none is thrown.
use matching_engine_cpp.Base.{
  suc, Bool, true, false, ◌&&◌, Option, none, some, List, [], ◌∷◌, ◌++◌, reverse, if◌then◌else◌, ℤ,
  pos, ltb_ℤ, Text, codes, find, insert, erase, threw, dangling, Result, ok, err, ◌>>=◌, ◌>>◌,
  guard, int_eq, text_eq_instance,
}
use matching_engine_cpp.Types.{
  Side, buy, sell, opposite, TimeInForce, gtc, ioc, fok, market, none_stp, accepted, rested,
  cancelled, AddOrder, CancelOrder, ReplaceOrder, Trade, ExecEvent, int, PayloadValue,
}
use matching_engine_cpp.Engine.{
  Engine, Book, Location, book_for, side_of, set_side, event, next_sequence, reject,
}
use matching_engine_cpp.Engine.PriceMap.{
  RestingOrder, Level, Levels, find_node, erase_node, level_at, set_level, put_level, first, last,
  level_volume,
}
use matching_engine_cpp.Engine.Matching.{Tape, emit, Matching, match_all, within}

-- What is on the side `side` at prices that an order of the other side with this limit accepts:
-- the map is walked from its best price and left at the first price beyond the limit.
unfoldable pub volume_within : Side → ℤ → ℤ → Levels → ℤ
unfolding level_volume
volume_within side limit total [] = total
volume_within side limit total ((price, level) ∷ m) =
    let more = volume_within side limit (level_volume total level) m in
    if within side limit price then more else total

abbrev pub best_first : Side → Levels → Levels
best_first sell m = m
best_first buy m = reverse m

unfoldable pub available_volume : Book → Side → ℤ → ℤ
unfolding volume_within opposite
available_volume book side limit =
    volume_within (opposite side) limit (pos 0) (best_first side (side_of side book))

abbrev pub new_resting : AddOrder → ℤ → ℤ → RestingOrder
new_resting cmd remaining sequence = record {
  symbol = cmd.symbol;
  order_id = cmd.order_id;
  participant_id = cmd.participant_id;
  side = cmd.side;
  price_ticks = cmd.price_ticks;
  remaining = remaining;
  entered_sequence = sequence;
}

abbrev pub put_book : Text → Book → Engine → Engine
put_book symbol book e = record e { books = insert symbol book e.books }

-- The order goes to the end of the list under its price, in a fresh node.
unfoldable pub rest_order : Engine → Book → AddOrder → ℤ → Engine × Book
unfolding set_level level_at insert
rest_order e book cmd remaining = (
  record e {
    index =
        insert cmd.order_id
          (record {
            symbol = cmd.symbol;
            side = cmd.side;
            price = cmd.price_ticks;
            iter = e.next_node;
          })
          e.index;
    next_node = suc e.next_node;
  },
  set_side cmd.side
      (set_level cmd.price_ticks
        (level_at cmd.price_ticks (side_of cmd.side book)
          ++ ((e.next_node, new_resting cmd remaining e.sequence) ∷ []))
        (side_of cmd.side book))
      book,
)

abbrev pub not_crossed : Option (ℤ × Level) → Option (ℤ × Level) → Bool
not_crossed none ask = true
not_crossed (some bid) none = true
not_crossed (some (bb, l)) (some (ba, k)) = ltb_ℤ bb ba

unfoldable pub check_not_crossed : Text → Book → Result (Unit {0})
unfolding first last
check_not_crossed symbol book =
    guard (not_crossed (last book.bids) (first book.asks))
      (threw (codes "crossed book on " ++ symbol))

abbrev pub Output : Type 0
Output = Engine × List ExecEvent × List Trade

-- `{{"order_id", id}, {"remaining", remaining}}`
abbrev pub remaining_payload : ℤ → ℤ → List (Text × PayloadValue)
remaining_payload id remaining =
    (codes "order_id", int id) ∷ (codes "remaining", int remaining) ∷ []

-- What becomes of the engine when the loops have ended with the book `book`.
abbrev pub close : Engine → Text → Book → Tape → Output
close e symbol book t = (put_book symbol book e, t.events, t.trades)

abbrev pub with_tape : Engine → Tape → Engine
with_tape e t = record e { index = t.index; sequence = t.sequence }

-- The part of `add` behind the loops.
unfoldable pub settle : TimeInForce → AddOrder → Engine → Book → Tape → Result Output
unfolding rest_order check_not_crossed emit
settle gtc cmd e book t =
    let (e', book') = rest_order (with_tape e t) book cmd t.remaining in
    let t' = emit rested cmd.symbol (remaining_payload cmd.order_id t.remaining) t in
    check_not_crossed cmd.symbol book'
    >> ok (close (record e' { sequence = t'.sequence }) cmd.symbol book' t')
settle ioc cmd e book t =
    let t' = emit cancelled cmd.symbol (remaining_payload cmd.order_id t.remaining) t in
    ok (close (with_tape e t') cmd.symbol book t')
settle market cmd e book t =
    let t' = emit cancelled cmd.symbol (remaining_payload cmd.order_id t.remaining) t in
    ok (close (with_tape e t') cmd.symbol book t')
settle fok cmd e book t = ok (close (with_tape e t) cmd.symbol book t)

unfoldable pub finish : AddOrder → Engine → Book → Matching → Result Output
unfolding settle
finish cmd e book m =
    let book' = set_side (opposite cmd.side) m.levels book in
    if ltb_ℤ (pos 0) m.tape.remaining
    then settle cmd.time_in_force cmd e book' m.tape
    else ok (close (with_tape e m.tape) cmd.symbol book' m.tape)

abbrev pub is_fok : TimeInForce → Bool
is_fok fok = true
is_fok _ = false

-- The tape with the first event, `Accepted`.
unfoldable pub opening : AddOrder → Engine → Tape
unfolding emit
opening cmd e =
    emit accepted cmd.symbol
      ((codes "order_id", int cmd.order_id) ∷ (codes "qty", int cmd.quantity) ∷ [])
      (record {
        index = e.index;
        sequence = e.sequence;
        remaining = cmd.quantity;
        events = [];
        trades = [];
      })

unfoldable pub is_unfillable : AddOrder → Book → Bool
unfolding available_volume
is_unfillable cmd book =
    is_fok cmd.time_in_force
    && ltb_ℤ (available_volume book (opposite cmd.side) cmd.price_ticks) cmd.quantity

unfoldable pub add : Engine → AddOrder → Result Output
unfolding is_unfillable finish opening match_all book_for reject
add e cmd =
    let book = book_for e.books cmd.symbol in
    if is_unfillable cmd book
    then (let (ev, e') = reject e cmd.symbol cmd.order_id (codes "FOK_UNFILLABLE") in
        ok (put_book cmd.symbol book e', ev ∷ [], []))
    else (match_all cmd (side_of (opposite cmd.side) book) (opening cmd e) >>= finish cmd e book)

-- `*loc.iter`
unfoldable pub deref : Engine → Location → Option RestingOrder
unfolding book_for level_at find_node
deref e loc =
    find_node loc.iter (level_at loc.price (side_of loc.side (book_for e.books loc.symbol)))

-- `remove_resting` at an index entry that was found.
unfoldable pub remove_at : Engine → ℤ → Location → Engine
unfolding put_level level_at erase_node book_for
remove_at e order_id loc =
    let book = book_for e.books loc.symbol in
    let levels = side_of loc.side book in
    let level = erase_node loc.iter (level_at loc.price levels) in
    record (put_book loc.symbol (set_side loc.side (put_level loc.price level levels) book) e) {
      index = erase order_id e.index;
    }

unfoldable pub remove_resting : Engine → ℤ → Engine
unfolding remove_at
remove_resting e order_id = elim (find order_id e.index) [
  | none ↦ e
  | some loc ↦ remove_at e order_id loc
]

abbrev pub unknown_order : Text
unknown_order = codes "UNKNOWN_ORDER"

-- `cancel` at an index entry that was found, with what its iterator points to.
unfoldable pub cancel_at : Engine → CancelOrder → Option RestingOrder → Result (Engine × ExecEvent)
unfolding remove_resting
cancel_at e cmd none = err dangling
cancel_at e cmd (some order) = ok (
  record (remove_resting e cmd.order_id) { sequence = next_sequence e },
  event e.sequence cancelled cmd.symbol (remaining_payload cmd.order_id order.remaining),
)

unfoldable pub cancel : Engine → CancelOrder → Result (Engine × List ExecEvent)
unfolding cancel_at deref
cancel e cmd = elim (find cmd.order_id e.index) [
  | none ↦ let (ev, e') = reject e cmd.symbol cmd.order_id unknown_order in ok (e', ev ∷ [])
  | some loc ↦ cancel_at e cmd (deref e loc) >>= λ (e', ev). ok (e', ev ∷ [])
]

abbrev pub replacement : ReplaceOrder → Text → Side → AddOrder
replacement cmd participant side = record {
  symbol = cmd.symbol;
  order_id = cmd.new_order_id;
  participant_id = participant;
  side = side;
  price_ticks = cmd.new_price_ticks;
  quantity = cmd.new_quantity;
  time_in_force = cmd.time_in_force;
  stp = none_stp;
}

unfoldable pub replace_at : Engine → ReplaceOrder → Side → Option RestingOrder → Result Output
unfolding cancel add
replace_at e cmd side none = err dangling
replace_at e cmd side (some order) = do
  (e', events) ← cancel e (record { symbol = cmd.symbol; order_id = cmd.order_id })
  (e'', more, trades) ← add e' (replacement cmd order.participant_id side)
  ok (e'', events ++ more, trades)

unfoldable pub replace : Engine → ReplaceOrder → Result Output
unfolding replace_at deref
replace e cmd = elim (find cmd.order_id e.index) [
  | none ↦ let (ev, e') = reject e cmd.symbol cmd.order_id unknown_order in ok (e', ev ∷ [], [])
  | some loc ↦ replace_at e cmd loc.side (deref e loc)
]

abbrev price_of : Option (ℤ × Level) → Option ℤ
price_of none = none
price_of (some (p, l)) = some p

unfoldable pub best_bid : Engine → Text → Option ℤ
unfolding last
best_bid e symbol = price_of (last (book_for e.books symbol).bids)

unfoldable pub best_ask : Engine → Text → Option ℤ
unfolding first
best_ask e symbol = price_of (first (book_for e.books symbol).asks)
