-- ===== src/Engine/Snapshot/Books.antt =====
-- Whole books, written and restored.
use matching_engine_cpp.Base.{
  ◌≡◌, refl, sym, ap, ◌∙◌, inl, inr, Bool, true, false, ◌&&◌, some, List, [], ◌∷◌, ◌++◌, reverse,
  append-nil, append_assoc, arith, if◌then◌else◌, Bool-cases, ℤ, eqb_ℤ, All, Text, codes, text_eq,
  ok, int_eq, text_eq_instance,
}
use mathlib.Core.List.{reverse-cons}
use matching_engine_cpp.Types.{Side, buy, sell}
use matching_engine_cpp.Json.{Fields, set, find}
use matching_engine_cpp.Engine.PriceMap.{Levels, level_at}
use matching_engine_cpp.Engine.PriceMap.Laws.{Above, IsSorted}
use matching_engine_cpp.Engine.{Engine, Book, side_of}
use matching_engine_cpp.Engine.Invariant.Holding.{is_side}
use matching_engine_cpp.Engine.Snapshot.{
  field, serialize_side, book_json, books_json, restore_side, restore_books,
}
use matching_engine_cpp.Engine.Snapshot.Again.{Seen, seen, seen_at, added_at, seen_at-put_book_self}
use matching_engine_cpp.Engine.Snapshot.Counter.{restore_side-sequence}
use matching_engine_cpp.Engine.Snapshot.Sides.{all_at, is_on, restore_levels-seen}

all_at_none : (p q : ℤ) (m : Levels) → eqb_ℤ q p ≡ true → Above q m → all_at p m ≡ []
all_at_none p q [] same h = refl
all_at_none p q ((r, l) ∷ m) same h =
    let other : eqb_ℤ r p ≡ false = ground (arith, h.0, same) in
    rw other (all_at_none p q m same h.1)

all_at-level_at : (p : ℤ) (m : Levels) → IsSorted m → all_at p m ≡ seen (level_at p m)
unfolding level_at
all_at-level_at p [] h = refl
all_at-level_at p ((q, l) ∷ m) h = elim (Bool-cases (eqb_ℤ q p)) [
  | inr other ↦ rw other (all_at-level_at p m h.1)
  | inl same ↦ rw (same, all_at_none p q m same h.0) (append-nil (seen l))
]

all_at-append : (p : ℤ) (m k : Levels) → all_at p (m ++ k) ≡ all_at p m ++ all_at p k
all_at-append p [] k = refl
all_at-append p ((q, l) ∷ m) k = elim (Bool-cases (eqb_ℤ q p)) [
  | inr other ↦ rw other (all_at-append p m k)
  | inl same ↦ rw same (
      ap (λ x. seen l ++ x) (all_at-append p m k)
      ∙ sym (append_assoc (seen l) (all_at p m) (all_at p k)))
]

all_at-reverse : (p : ℤ) (m : Levels) → IsSorted m → all_at p (reverse m) ≡ all_at p m
all_at-reverse p [] h = refl
all_at-reverse p ((q, l) ∷ m) h =
    ap (all_at p) (reverse-cons (q, l) m)
    ∙ all_at-append p (reverse m) ((q, l) ∷ [])
    ∙ ap (λ x. x ++ all_at p ((q, l) ∷ [])) (all_at-reverse p m h.1)
    ∙ elim (Bool-cases (eqb_ℤ q p)) [
      | inr other ↦ rw other (append-nil (all_at p m))
      | inl same ↦ rw (same, all_at_none p q m same h.0) refl
    ]

-- One side of a book, in the order that the snapshot gives it.
restore_side-seen :
    (symbol : Text) (c : Side) (b : Book) (e : Engine) (s : Text) (d : Side) (p : ℤ)
    → IsSorted (side_of c b)
    → seen_at (restore_side symbol (some (serialize_side b c)) c e).books s d p
      ≡ added_at (is_on symbol c s d) (seen_at e.books s d p) (seen (level_at p (side_of c b)))
unfolding restore_side serialize_side
restore_side-seen symbol buy b e s d p h =
    restore_levels-seen symbol buy (reverse b.bids) _ s d p
    ∙ ap (λ old. added_at (is_on symbol buy s d) old (all_at p (reverse b.bids)))
        (seen_at-put_book_self symbol e.books s d p)
    ∙ ap (added_at (is_on symbol buy s d) (seen_at e.books s d p))
        (all_at-reverse p b.bids h ∙ all_at-level_at p b.bids h)
restore_side-seen symbol sell b e s d p h =
    restore_levels-seen symbol sell b.asks _ s d p
    ∙ ap (λ old. added_at (is_on symbol sell s d) old (all_at p b.asks))
        (seen_at-put_book_self symbol e.books s d p)
    ∙ ap (added_at (is_on symbol sell s d) (seen_at e.books s d p)) (all_at-level_at p b.asks h)

-- Both sides of a book.
abbrev restored_book : Text → Book → Engine → Engine
restored_book symbol b e =
    restore_side symbol (some (serialize_side b sell)) sell
      (restore_side symbol (some (serialize_side b buy)) buy e)

two_sides :
    (here : Bool) (d : Side) (old : List Seen) (b : Book) (p : ℤ)
    → added_at
        (here && is_side sell d)
        (added_at (here && is_side buy d) old (seen (level_at p b.bids)))
        (seen (level_at p b.asks))
      ≡ added_at here old (seen (level_at p (side_of d b)))
two_sides false d old b p = refl
two_sides true buy old b p = refl
two_sides true sell old b p = refl

restored_book-seen :
    (symbol : Text) (b : Book) (e : Engine) (s : Text) (d : Side) (p : ℤ)
    → IsSorted b.bids
    → IsSorted b.asks
    → seen_at (restored_book symbol b e).books s d p
      ≡ added_at (text_eq symbol s) (seen_at e.books s d p) (seen (level_at p (side_of d b)))
restored_book-seen symbol b e s d p h k =
    restore_side-seen symbol sell b (restore_side symbol (some (serialize_side b buy)) buy e) s d p
      k
    ∙ ap (λ old. added_at (is_on symbol sell s d) old (seen (level_at p b.asks)))
        (restore_side-seen symbol buy b e s d p h)
    ∙ two_sides (text_eq symbol s) d (seen_at e.books s d p) b p

-- All that some books hold at a place.
abbrev pub books_at : List (Text × Book) → Text → Side → ℤ → List Seen
books_at [] s d p = []
books_at ((symbol, b) ∷ bs) s d p =
    if text_eq symbol s
    then seen (level_at p (side_of d b)) ++ books_at bs s d p
    else books_at bs s d p

-- The prices of every book rise.
abbrev pub SidesSorted : List (Text × Book) → Type 0
SidesSorted = All (λ x. IsSorted x.1.bids × IsSorted x.1.asks)

-- No symbol has two books.
abbrev pub Distinct : List (Text × Book) → Type 0
Distinct [] = Unit {0}
Distinct ((symbol, b) ∷ bs) = All (λ x. text_eq symbol x.0 ≡ false) bs × Distinct bs

added_books :
    (here : Bool) (old new more : List Seen)
    → added_at here old new ++ more ≡ old ++ (if here then new ++ more else more)
added_books true old new more = append_assoc old new more
added_books false old new more = refl

restore_book_json :
    (symbol : Text) (b : Book) (books : Fields) (e : Engine)
    → restore_books (field symbol (book_json b) books) e
      ≡ restore_books books (restored_book symbol b e)
unfolding restore_books find book_json set text_eq codes
restore_book_json symbol b books e = refl

-- The engine that the books give, in an engine that may have some.
pub restore_books-seen :
    (bs : List (Text × Book)) (e : Engine)
    → SidesSorted bs
    → (e' : Engine) × (restore_books (books_json bs) e ≡ ok e')
      × (e'.sequence ≡ e.sequence)
      × ((s : Text) (d : Side) (p : ℤ)
          → seen_at e'.books s d p ≡ seen_at e.books s d p ++ books_at bs s d p)
unfolding restore_books books_json
restore_books-seen [] e h = (e, refl, refl, λ s d p. sym (append-nil (seen_at e.books s d p)))
restore_books-seen ((symbol, b) ∷ bs) e h =
    let (e', ran, sequence, same) = restore_books-seen bs (restored_book symbol b e) h.1 in
    (
      e',
      restore_book_json symbol b (books_json bs) e ∙ ran,
      sequence
          ∙ restore_side-sequence symbol (some (serialize_side b sell)) sell _
          ∙ restore_side-sequence symbol (some (serialize_side b buy)) buy e,
      λ s d p.
          same s d p
          ∙ ap (λ old. old ++ books_at bs s d p) (restored_book-seen symbol b e s d p h.0.0 h.0.1)
          ∙ added_books (text_eq symbol s) (seen_at e.books s d p) (seen (level_at p (side_of d b)))
              (books_at bs s d p),
    )
