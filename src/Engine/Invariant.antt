-- ===== src/Engine/Invariant.antt =====
-- When the state of the engine is in order: every book holds well-formed orders in rising price
-- lists that are not crossed, and every entry of the index points to a live node of its order.

pub mod Holding
pub mod Resting
pub mod Adding
pub mod Removing
use matching_engine_cpp.Base.{
  ℕ, ◌≡◌, inl, inr, true, [], ◌∷◌, arith, Option-cases, ℤ, ◌<ℤ◌, lt→ltb_ℤ, All, All-mono, Text,
  find, int_eq, text_eq_instance,
}
use matching_engine_cpp.Engine.PriceMap.Laws.{Above, first-All, last-All, IsSorted}
use matching_engine_cpp.Engine.PriceMap.Nodes.{IsSide}
use matching_engine_cpp.Engine.PriceMap.{Levels, Level, first, last, find_node, level_at}
use matching_engine_cpp.Engine.Matching.Rounds.{AllLive}
use matching_engine_cpp.Engine.Commands.{deref, not_crossed}
use matching_engine_cpp.Engine.{
  Engine, Book, empty_book, book_for, side_of, set_side, initial, Location,
}
use matching_engine_cpp.Types.{Side, buy, sell, opposite}

-- A price on the side `d` does not cross the prices of the other side.
abbrev pub Beyond : Side → ℤ → Levels → Type 0
Beyond buy p m = Above p m
Beyond sell p m = All (λ x. x.0 <ℤ p) m

-- No price on one side crosses the other side.
abbrev pub Apart : Side → Levels → Levels → Type 0
Apart d own other = All (λ x. Beyond d x.0 other) own

pub record BookOk (symbol : Text) (next : ℕ) (b : Book) : Type 0 where
  pub bids : IsSide symbol buy next b.bids
  pub asks : IsSide symbol sell next b.asks
  pub apart : Apart buy b.bids b.asks

pub record IsValid (e : Engine) : Type 0 where
  pub books : (symbol : Text) → BookOk symbol e.next_node (book_for e.books symbol)
  pub live : AllLive (deref e) e.index

pub empty-BookOk : (symbol : Text) (next : ℕ) → BookOk symbol next empty_book
empty-BookOk symbol next = record {
  bids = record { entries = tt; sorted = tt };
  asks = record { entries = tt; sorted = tt };
  apart = tt;
}

pub initial-IsValid : IsValid initial
unfolding initial book_for find
initial-IsValid = record { books = λ s. empty-BookOk s 0; live = λ k loc h. absurd (ground arith) }

All-swap :
    (R : ℤ × Level → ℤ × Level → Type 0) (xs ys : Levels)
    → All (λ x. All (R x) ys) xs
    → All (λ y. All (λ x. R x y) xs) ys
All-swap R xs [] h = tt
All-swap R xs (y ∷ ys) h = (
  All-mono (λ x. All (R x) (y ∷ ys)) (λ x. R x y) xs (λ x a. a.0) h,
  All-swap R xs ys (All-mono (λ x. All (R x) (y ∷ ys)) (λ x. All (R x) ys) xs (λ x a. a.1) h),
)

module _ {symbol : Text} {next : ℕ} {b : Book} where
  pub BookOk-side : BookOk symbol next b → (d : Side) → IsSide symbol d next (side_of d b)
  BookOk-side v buy = v.bids
  BookOk-side v sell = v.asks

  -- The two sides see one another alike.
  pub BookOk-Apart :
      BookOk symbol next b → (d : Side) → Apart d (side_of d b) (side_of (opposite d) b)
  unfolding opposite
  BookOk-Apart v buy = v.apart
  BookOk-Apart v sell = All-swap (λ x y. x.0 <ℤ y.0) b.bids b.asks v.apart

  -- One side of a book in order is replaced.
  pub set_side-BookOk :
      (d : Side) (m : Levels)
      → BookOk symbol next b
      → IsSide symbol d next m
      → Apart d m (side_of (opposite d) b)
      → BookOk symbol next (set_side d m b)
  unfolding opposite
  set_side-BookOk buy m v s a = record { bids = s; asks = v.asks; apart = a }
  set_side-BookOk sell m v s a = record {
    bids = v.bids;
    asks = s;
    apart = All-swap (λ x y. y.0 <ℤ x.0) m b.bids a;
  }

  -- The check at the end of `add` passes on a book in order.
  pub BookOk-not_crossed : BookOk symbol next b → not_crossed (last b.bids) (first b.asks) ≡ true
  BookOk-not_crossed v = elim (Option-cases (last b.bids)) [
    | inl e ↦ rw e
    | inr ((bb, l), e) ↦ elim (Option-cases (first b.asks)) [
      | inl f ↦ rw (e, f)
      | inr ((ba, k), f) ↦
          rw (e, f)
            (lt→ltb_ℤ bb ba (
              first-All (λ y. bb <ℤ y.0) b.asks f
                (last-All (λ x. Above x.0 b.asks) b.bids e v.apart)))
    ]
  ]
