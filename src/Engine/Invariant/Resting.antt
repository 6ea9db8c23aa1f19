-- ===== src/Engine/Invariant/Resting.antt =====
-- `rest_order` keeps the held book and the index in order.
use matching_engine_cpp.Base.{
  ℕ, suc, ◌≤◌, ◌≡◌, refl, sym, ◌∙◌, ◌≢◌, ◌⊎◌, inl, inr, Bool, true, false, ◌&&◌, some, [], ◌∷◌,
  ◌++◌, arith, if◌then◌else◌, Bool-cases, ℤ, pos, ◌<ℤ◌, eqb_ℤ, eqb_ℤ_iff, is_empty, All-append,
  Text, text_eq, text_eq_refl, find, find-insert-some, int_eq, text_eq_instance,
}
use matching_engine_cpp.Engine.PriceMap.Laws.{set_level-All, level_at-set_level, set_level-IsSorted}
use matching_engine_cpp.Engine.PriceMap.Nodes.{
  IsSide, IsSide-mono, level_at-Orders, Orders, Orders-mono, find_node-append,
  find_node-append_self, IsResting, IsEntry,
}
use matching_engine_cpp.Engine.PriceMap.{
  Levels, Level, find_node, level_at, RestingOrder, set_level, NodeId,
}
use matching_engine_cpp.Engine.Matching.Rounds.{Target}
use matching_engine_cpp.Engine.Commands.{deref, rest_order, new_resting}
use matching_engine_cpp.Engine.{Engine, Book, side_of, set_side, Location}
use matching_engine_cpp.Types.{Side, buy, sell, opposite, AddOrder}
use matching_engine_cpp.Engine.Invariant.{
  BookOk, BookOk-side, BookOk-Apart, Beyond, set_side-BookOk,
}
use matching_engine_cpp.Engine.Invariant.Holding.{Holding, read_book, is_side}

BookOk-mono : (symbol : Text) (j k : ℕ) (b : Book) → j ≤ k → BookOk symbol j b → BookOk symbol k b
BookOk-mono symbol j k b h v = record {
  bids = IsSide-mono symbol buy j k b.bids h v.bids;
  asks = IsSide-mono symbol sell j k b.asks h v.asks;
  apart = v.apart;
}

read_book-set_level :
    (symbol : Text) (d : Side) (p : ℤ) (l : Level) (b : Book) (e : Engine) (loc : Location)
    → read_book symbol (set_side d (set_level p l (side_of d b)) b) e loc ≡ (
        if text_eq symbol loc.symbol && is_side loc.side d && eqb_ℤ p loc.price
        then find_node loc.iter l
        else read_book symbol b e loc)
read_book-set_level symbol buy p l b e loc = ground (arith, level_at-set_level p loc.price l b.bids)
read_book-set_level symbol sell p l b e loc =
    ground (arith, level_at-set_level p loc.price l b.asks)

is_empty-append_one : (l : Level) (x : NodeId × RestingOrder) → is_empty (l ++ (x ∷ [])) ≡ false
is_empty-append_one [] x = refl
is_empty-append_one (y ∷ l) x = refl

pub is_side_refl : (d : Side) → is_side d d ≡ true
is_side_refl buy = refl
is_side_refl sell = refl

pub is_side-eq : (c d : Side) → is_side c d ≡ true → c ≡ d
is_side-eq buy buy h = refl
is_side-eq buy sell h = cc
is_side-eq sell buy h = cc
is_side-eq sell sell h = refl

-- An iterator into the list that was extended reads that list.
pub read_book_here :
    (symbol : Text) (d : Side) (p : ℤ) (b : Book) (e : Engine) (loc : Location)
    → (text_eq symbol loc.symbol ≡ true) × (is_side loc.side d ≡ true) × (eqb_ℤ p loc.price ≡ true)
    → read_book symbol b e loc ≡ find_node loc.iter (level_at p (side_of d b))
read_book_here symbol d p b e loc (s, t, q) =
    rw (s, (eqb_ℤ_iff p loc.price).0 q, is_side-eq loc.side d t) refl

pub and_three : (a b c : Bool) → (a && b && c) ≡ true → (a ≡ true) × (b ≡ true) × (c ≡ true)
and_three a b c h = ground arith

module _ (e : Engine) (b : Book) (cmd : AddOrder) (r : ℤ) (v : Holding e cmd.symbol b)
    (h : pos 0 <ℤ r) where
  abbrev own : Levels
  own = side_of cmd.side b

  abbrev resting : RestingOrder
  resting = new_resting cmd r e.sequence

  abbrev extended : Level
  extended = level_at cmd.price_ticks own ++ ((e.next_node, resting) ∷ [])

  own-Orders : Orders cmd.symbol cmd.side e.next_node cmd.price_ticks (level_at cmd.price_ticks own)
  own-Orders =
      level_at-Orders cmd.symbol cmd.side e.next_node cmd.price_ticks own
        (BookOk-side v.held cmd.side)

  extended-Orders : Orders cmd.symbol cmd.side (suc e.next_node) cmd.price_ticks extended
  extended-Orders =
      All-append (IsResting cmd.symbol cmd.side cmd.price_ticks (suc e.next_node))
        (level_at cmd.price_ticks own) ((e.next_node, resting) ∷ [])
        (Orders-mono cmd.symbol cmd.side cmd.price_ticks e.next_node (suc e.next_node) _
          (omega arith) own-Orders)
        (
          record {
            same_symbol = refl;
            same_side = refl;
            same_price = refl;
            positive = h;
            allocated = omega arith;
          },
          tt,
        )

  extended-IsSide :
      IsSide cmd.symbol cmd.side (suc e.next_node) (set_level cmd.price_ticks extended own)
  extended-IsSide =
      let old =
        IsSide-mono cmd.symbol cmd.side e.next_node (suc e.next_node) own (omega arith)
          (BookOk-side v.held cmd.side) in
      record {
        entries =
            set_level-All (IsEntry cmd.symbol cmd.side (suc e.next_node)) cmd.price_ticks extended
              own
              (
                is_empty-append_one (level_at cmd.price_ticks own) (e.next_node, resting),
                extended-Orders,
              )
              old.entries;
        sorted = set_level-IsSorted cmd.price_ticks extended own old.sorted;
      }

  -- Where the index pointed before, the same order is read.
  read_old :
      (loc : Location) (o : RestingOrder)
      → read_book cmd.symbol b e loc ≡ some o
      → read_book cmd.symbol (set_side cmd.side (set_level cmd.price_ticks extended own) b) e loc
        ≡ some o
  read_old loc o eq =
      rw (read_book-set_level cmd.symbol cmd.side cmd.price_ticks extended b e loc)
        (elim (Bool-cases (
          text_eq cmd.symbol loc.symbol
          && is_side loc.side cmd.side
          && eqb_ℤ cmd.price_ticks loc.price)) [
            | inl hit ↦ rw hit (
                find_node-append loc.iter e.next_node o resting (level_at cmd.price_ticks own) (
                  sym (
                    read_book_here cmd.symbol cmd.side cmd.price_ticks b e loc (
                      and_three (text_eq cmd.symbol loc.symbol) (is_side loc.side cmd.side)
                        (eqb_ℤ cmd.price_ticks loc.price) hit))
                  ∙ eq))
            | inr miss ↦ rw miss eq
          ])

  read_new :
      read_book cmd.symbol
        (set_side cmd.side (set_level cmd.price_ticks extended own) b)
        e
        (record {
          symbol = cmd.symbol;
          side = cmd.side;
          price = cmd.price_ticks;
          iter = e.next_node;
        })
      ≡ some resting
  read_new =
      rw
        (
          read_book-set_level cmd.symbol cmd.side cmd.price_ticks extended b e (record {
            symbol = cmd.symbol;
            side = cmd.side;
            price = cmd.price_ticks;
            iter = e.next_node;
          }),
          text_eq_refl cmd.symbol,
          is_side_refl cmd.side,
          (eqb_ℤ_iff cmd.price_ticks cmd.price_ticks).1 refl,
        )
        (find_node-append_self cmd.symbol cmd.side cmd.price_ticks e.next_node resting
          (level_at cmd.price_ticks own) own-Orders)

  -- An order that does not cross the other side goes to rest.
  pub rest_order-Holding :
      Beyond cmd.side cmd.price_ticks (side_of (opposite cmd.side) b)
      → Holding (rest_order e b cmd r).0 cmd.symbol (rest_order e b cmd r).1
  unfolding rest_order deref
  rest_order-Holding beyond = record {
    others = λ s. BookOk-mono s e.next_node (suc e.next_node) _ (omega arith) (v.others s);
    held =
        set_side-BookOk cmd.side (set_level cmd.price_ticks extended own)
          (BookOk-mono cmd.symbol e.next_node (suc e.next_node) b (omega arith) v.held)
          extended-IsSide
          (set_level-All (λ x. Beyond cmd.side x.0 (side_of (opposite cmd.side) b)) cmd.price_ticks
            extended own beyond (BookOk-Apart v.held cmd.side));
    live = λ k loc f. live_cases k loc (find-insert-some cmd.order_id k _ e.index f);
  }
    where
      live_cases :
          (k : ℤ) (loc : Location)
          → ((cmd.order_id ≡ k)
              × (record {
                symbol = cmd.symbol;
                side = cmd.side;
                price = cmd.price_ticks;
                iter = e.next_node;
              }
                  ≡ loc))
            ⊎ ((cmd.order_id ≢ k) × (find k e.index ≡ some loc))
          → Target k (
              read_book cmd.symbol
                (set_side cmd.side (set_level cmd.price_ticks extended own) b)
                e
                loc)
      live_cases k loc (inl (i, l)) = rw (← l) (resting, read_new, i)
      live_cases k loc (inr (i, f)) = let (o, eq, j) = v.live k loc f in (o, read_old loc o eq, j)
