-- ===== src/Engine/Snapshot/Again.antt =====
-- What an engine shows at a symbol, a side and a price, and what an order that goes to rest again adds.
use matching_engine_cpp.Base.{
  ℕ, ◌≡◌, refl, ap, ◌∙◌, inl, inr, Bool, true, ◌&&◌, List, [], ◌∷◌, ◌++◌, arith, if◌then◌else◌,
  Bool-cases, ℤ, eqb_ℤ, eqb_ℤ_iff, Text, text_eq, text_eq_iff, insert, int_eq, text_eq_instance,
}
use matching_engine_cpp.Types.{Side, buy, sell, AddOrder}
use matching_engine_cpp.Engine.PriceMap.{RestingOrder, Level, level_at, set_level}
use matching_engine_cpp.Engine.PriceMap.Laws.{level_at-set_level}
use matching_engine_cpp.Engine.{Engine, Book, book_for, side_of, set_side}
use matching_engine_cpp.Engine.Commands.{rest_order, new_resting}
use matching_engine_cpp.Engine.Invariant.Holding.{is_side, book_for-insert}
use matching_engine_cpp.Engine.Invariant.Resting.{is_side-eq}
use matching_engine_cpp.Engine.Snapshot.{rest_again}

-- Of a resting order: its id, its participant and what is left of it.
abbrev pub Seen : Type 0
Seen = ℤ × Text × ℤ

abbrev pub seen_order : RestingOrder → Seen
seen_order o = (o.order_id, o.participant_id, o.remaining)

abbrev pub seen : Level → List Seen
seen [] = []
seen ((n, o) ∷ l) = seen_order o ∷ seen l

pub seen-append : (l k : Level) → seen (l ++ k) ≡ seen l ++ seen k
seen-append [] k = refl
seen-append ((n, o) ∷ l) k = ap (λ x. seen_order o ∷ x) (seen-append l k)

-- The orders at rest, in the order of the queue.
unfoldable pub seen_at : List (Text × Book) → Text → Side → ℤ → List Seen
seen_at books s d p = seen (level_at p (side_of d (book_for books s)))

pub seen_at-insert :
    (symbol : Text) (b : Book) (books : List (Text × Book)) (s : Text) (d : Side) (p : ℤ)
    → seen_at (insert symbol b books) s d p
      ≡ (if text_eq symbol s then seen (level_at p (side_of d b)) else seen_at books s d p)
unfolding seen_at
seen_at-insert symbol b books s d p = ground (arith, book_for-insert symbol s b books)

-- A book that is written back as it was is no change.
pub seen_at-put_book_self :
    (symbol : Text) (books : List (Text × Book)) (s : Text) (d : Side) (p : ℤ)
    → seen_at (insert symbol (book_for books symbol) books) s d p ≡ seen_at books s d p
unfolding seen_at
seen_at-put_book_self symbol books s d p = elim (Bool-cases (text_eq symbol s)) [
  | inl same ↦
      rw
        (
          book_for-insert symbol s (book_for books symbol) books,
          same,
          (text_eq_iff symbol s).0 same,
        )
        refl
  | inr other ↦ rw (book_for-insert symbol s (book_for books symbol) books, other) refl
]

-- Whether a symbol, a side and a price are those of an order.
abbrev pub is_place : Text → Side → ℤ → Text → Side → ℤ → Bool
is_place symbol side price s d p = text_eq symbol s && is_side side d && eqb_ℤ price p

abbrev pub added_at : Bool → List Seen → List Seen → List Seen
added_at here old new = if here then old ++ new else old

and_two : (a b : Bool) → (a && b) ≡ true → (a ≡ true) × (b ≡ true)
and_two a b h = ground arith

level_at-side :
    (c d : Side) (q p : ℤ) (l : Level) (b : Book)
    → level_at p (side_of d (set_side c (set_level q l (side_of c b)) b))
      ≡ (if is_side c d && eqb_ℤ q p then l else level_at p (side_of d b))
level_at-side buy buy q p l b = level_at-set_level q p l b.bids
level_at-side buy sell q p l b = refl
level_at-side sell buy q p l b = refl
level_at-side sell sell q p l b = level_at-set_level q p l b.asks

-- A node at the end of a list, seen at a place.
seen-set_level :
    (c d : Side) (q p : ℤ) (n : ℕ) (o : RestingOrder) (b : Book)
    → seen (
        level_at p (
          side_of d
            (set_side c (set_level q (level_at q (side_of c b) ++ ((n, o) ∷ [])) (side_of c b)) b)))
      ≡ added_at (is_side c d && eqb_ℤ q p) (seen (level_at p (side_of d b))) (seen_order o ∷ [])
seen-set_level c d q p n o b =
    let old = level_at q (side_of c b) in
    ap seen (level_at-side c d q p (old ++ ((n, o) ∷ [])) b)
    ∙ elim (Bool-cases (is_side c d && eqb_ℤ q p)) [
      | inr miss ↦ rw miss refl
      | inl hit ↦
          let (side, price) = and_two (is_side c d) (eqb_ℤ q p) hit in
          rw hit (
            rw (← (is_side-eq c d side), ← ((eqb_ℤ_iff q p).0 price))
              (seen-append old ((n, o) ∷ [])))
    ]

pub seen_at-rest_again :
    (symbol : Text) (cmd : AddOrder) (e : Engine) (s : Text) (d : Side) (p : ℤ)
    → seen_at (rest_again symbol cmd e).books s d p
      ≡ added_at
          (is_place symbol cmd.side cmd.price_ticks s d p)
          (seen_at e.books s d p)
          ((cmd.order_id, cmd.participant_id, cmd.quantity) ∷ [])
unfolding rest_again rest_order
seen_at-rest_again symbol cmd e s d p =
    let o = new_resting cmd cmd.quantity e.sequence in
    seen_at-insert symbol _ e.books s d p ∙ elim (Bool-cases (text_eq symbol s)) [
      | inr other ↦ rw other refl
      | inl same ↦ rw same (
          rw (← ((text_eq_iff symbol s).0 same)) (
            unfold seen_at in
            seen-set_level cmd.side d cmd.price_ticks p e.next_node o (book_for e.books symbol)))
    ]
