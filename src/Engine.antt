-- ===== src/Engine.antt =====
-- include/matching_engine.hpp and src/matching_engine.cpp: the state of the matching engine.
-- Its operations are those of the children `Matching`, `Commands` and `Snapshot`.
pub mod PriceMap
pub mod Matching
pub mod Commands
pub mod Invariant
pub mod Priority
pub mod Snapshot
pub mod Counted
pub mod Reached
mod Tests
use matching_engine_cpp.Base.{
  text_eq_instance, ℕ, ℤ, pos, ◌+ℤ◌, Text, codes, List, [], ◌∷◌, Option, none, some, find, insert,
  ◌++◌,
}
use matching_engine_cpp.Types.{Side, buy, sell, EventType, rejected, Payload, ExecEvent, int, str}
use PriceMap.{Levels, NodeId}

pub record Book : Type 0 where
  pub bids : Levels
  pub asks : Levels

-- `iter` is the address of a list node.
pub record Location : Type 0 where
  pub symbol : Text
  pub side : Side
  pub price : ℤ
  pub iter : NodeId

abbrev pub Index : Type 0
Index = List (ℤ × Location)

-- `next_node` is the address of the next node that the pool hands out: nodes that are alive have
-- different addresses. The pool's reuse of memory is not visible, as no iterator to a freed node
-- is kept (`Engine.Invariant`).
pub record Engine : Type 0 where
  pub books : List (Text × Book)
  pub sequence : ℤ
  pub index : Index
  pub next_node : ℕ

abbrev pub empty_book : Book
empty_book = record { bids = []; asks = [] }

unfoldable pub initial : Engine
initial = record { books = []; sequence = pos 0; index = []; next_node = 0 }

abbrev pub or_empty : Option Book → Book
or_empty none = empty_book
or_empty (some b) = b

-- `books_[symbol]`: a missing book is an empty one, which the caller's write creates.
unfoldable pub book_for : List (Text × Book) → Text → Book
book_for books symbol = or_empty (find symbol books)

abbrev pub side_of : Side → Book → Levels
side_of buy b = b.bids
side_of sell b = b.asks

abbrev pub set_side : Side → Levels → Book → Book
set_side buy m b = record b { bids = m }
set_side sell m b = record b { asks = m }

unfoldable pub next_sequence : Engine → ℤ
next_sequence e = e.sequence +ℤ pos 1

-- `event` at the counter's old value; the caller stores the new one.
unfoldable pub event : ℤ → EventType → Text → Payload → ExecEvent
event sequence type symbol payload = record {
  sequence = sequence +ℤ pos 1;
  type = type;
  symbol = symbol;
  payload = payload;
}

unfoldable pub reject : Engine → Text → ℤ → Text → ExecEvent × Engine
unfolding event next_sequence
reject e symbol order_id reason = (
  event e.sequence rejected symbol
      ((codes "order_id", int order_id) ∷ (codes "reason", str reason) ∷ []),
  record e { sequence = next_sequence e },
)
