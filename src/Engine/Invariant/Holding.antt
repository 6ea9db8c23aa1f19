-- ===== src/Engine/Invariant/Holding.antt =====
-- The engine while `add` works on a reference to one book: the other books and the index are in
-- order, and so is the book that is held.
use matching_engine_cpp.Base.{
  ◌≡◌, refl, sym, ap, subst, ◌∙◌, inl, inr, Bool, true, false, ◌&&◌, Option, List, arith,
  if◌then◌else◌, Bool-cases, Text, text_eq, text_eq_iff, insert, find-insert, int_eq,
  text_eq_instance,
}
use matching_engine_cpp.Engine.PriceMap.{Levels, find_node, level_at, RestingOrder}
use matching_engine_cpp.Engine.Matching.Rounds.{AllLive}
use matching_engine_cpp.Engine.Matching.Outer.{read_levels, AllLive-ext}
use matching_engine_cpp.Engine.Commands.{deref, put_book}
use matching_engine_cpp.Engine.{Engine, Book, book_for, side_of, set_side, Location}
use matching_engine_cpp.Types.{Side, buy, sell}
use matching_engine_cpp.Engine.Invariant.{IsValid, BookOk}

pub book_for-insert :
    (s r : Text) (b : Book) (m : List (Text × Book))
    → book_for (insert s b m) r ≡ (if text_eq s r then b else book_for m r)
unfolding book_for
book_for-insert s r b m = ground (arith, find-insert s r b m)

-- How iterators are read while the book of `symbol` is held.
abbrev pub read_book : Text → Book → Engine → Location → Option RestingOrder
read_book symbol b e loc =
    if text_eq symbol loc.symbol
    then find_node loc.iter (level_at loc.price (side_of loc.side b))
    else deref e loc

pub record Holding (e : Engine) (symbol : Text) (b : Book) : Type 0 where
  pub others : (s : Text) → BookOk s e.next_node (book_for e.books s)
  pub held : BookOk symbol e.next_node b
  pub live : AllLive (read_book symbol b e) e.index

pub deref-put_book :
    (symbol : Text) (b : Book) (e : Engine) (loc : Location)
    → read_book symbol b e loc ≡ deref (put_book symbol b e) loc
unfolding deref
deref-put_book symbol b e loc = ground (arith, book_for-insert symbol loc.symbol b e.books)

-- The book is written back.
pub put_book-IsValid :
    (e : Engine) (symbol : Text) (b : Book) → Holding e symbol b → IsValid (put_book symbol b e)
put_book-IsValid e symbol b h = record {
  books = λ s. elim (Bool-cases (text_eq symbol s)) [
    | inl same ↦
        rw (book_for-insert symbol s b e.books, same)
          (subst (λ r. BookOk r e.next_node b) ((text_eq_iff symbol s).0 same) h.held)
    | inr other ↦ rw (book_for-insert symbol s b e.books, other) (h.others s)
  ];
  live = AllLive-ext _ _ e.index (deref-put_book symbol b e) h.live;
}

read_book-book_for :
    (symbol : Text) (e : Engine) (loc : Location)
    → deref e loc ≡ read_book symbol (book_for e.books symbol) e loc
unfolding deref
read_book-book_for symbol e loc = elim (Bool-cases (text_eq symbol loc.symbol)) [
  | inl same ↦ rw (same, (text_eq_iff symbol loc.symbol).0 same) refl
  | inr other ↦ rw other refl
]

-- A valid engine's book is taken up.
pub IsValid-Holding :
    (e : Engine) (symbol : Text) → IsValid e → Holding e symbol (book_for e.books symbol)
IsValid-Holding e symbol v = record {
  others = v.books;
  held = v.books symbol;
  live = AllLive-ext _ _ e.index (read_book-book_for symbol e) v.live;
}

abbrev pub is_side : Side → Side → Bool
is_side buy buy = true
is_side sell sell = true
is_side _ _ = false

-- The iterators into one side of the held book.
abbrev pub on_side : Text → Side → Location → Bool
on_side symbol d loc = text_eq symbol loc.symbol && is_side loc.side d

pub read_levels-read_book :
    (symbol : Text) (d : Side) (m : Levels) (b : Book) (e : Engine) (loc : Location)
    → read_levels (on_side symbol d) (read_book symbol b e) m loc
      ≡ read_book symbol (set_side d m b) e loc
read_levels-read_book symbol buy m b e loc = ground arith
read_levels-read_book symbol sell m b e loc = ground arith

set_side-side_of : (d : Side) (b : Book) → set_side d (side_of d b) b ≡ b
set_side-side_of buy b = refl
set_side-side_of sell b = refl

pub read_levels_start :
    (symbol : Text) (d : Side) (b : Book) (e : Engine) (loc : Location)
    → read_book symbol b e loc
      ≡ read_levels (on_side symbol d) (read_book symbol b e) (side_of d b) loc
read_levels_start symbol d b e loc =
    ap (λ c. read_book symbol c e loc) (sym (set_side-side_of d b))
    ∙ sym (read_levels-read_book symbol d (side_of d b) b e loc)
