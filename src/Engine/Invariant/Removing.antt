-- ===== src/Engine/Invariant/Removing.antt =====
-- `cancel` and `replace` follow no dangling iterator, throw nothing, and keep the engine in order.
use matching_engine_cpp.Base.{
  ◌≡◌, refl, sym, ◌∙◌, ◌≢◌, ◌⊎◌, inl, inr, true, false, ◌&&◌, some, List, [], ◌∷◌, arith,
  if◌then◌else◌, Bool-cases, Option-cases, ℤ, eqb_ℤ, eqb_ℤ_iff, is_empty, Text, text_eq,
  text_eq_refl, find, erase, find-erase-some, ok, int_eq, text_eq_instance,
}
use matching_engine_cpp.Engine.PriceMap.Laws.{put_level-All, level_at-put_level, level_at-All}
use matching_engine_cpp.Engine.PriceMap.Nodes.{
  level_at-Orders, put_level-IsSide, erase_node-Orders, find_node-erase_node,
}
use matching_engine_cpp.Engine.PriceMap.{
  Levels, Level, NodeId, find_node, erase_node, level_at, put_level, RestingOrder,
}
use matching_engine_cpp.Engine.Commands.{
  deref, Output, remove_at, remove_resting, cancel_at, cancel, replace_at, replace, replacement,
}
use matching_engine_cpp.Engine.{Engine, Book, book_for, side_of, set_side, Location, reject}
use matching_engine_cpp.Types.{Side, buy, sell, opposite, CancelOrder, ReplaceOrder, ExecEvent}
use matching_engine_cpp.Engine.Invariant.{
  IsValid, BookOk-side, BookOk-Apart, Beyond, set_side-BookOk,
}
use matching_engine_cpp.Engine.Invariant.Holding.{
  Holding, read_book, put_book-IsValid, IsValid-Holding, is_side,
}
use matching_engine_cpp.Engine.Invariant.Resting.{is_side_refl, read_book_here, and_three}
use matching_engine_cpp.Engine.Invariant.Adding.{add-IsValid}

read_book-put_level :
    (symbol : Text) (d : Side) (p : ℤ) (l : Level) (b : Book) (e : Engine) (loc : Location)
    → read_book symbol (set_side d (put_level p l (side_of d b)) b) e loc ≡ (
        if text_eq symbol loc.symbol && is_side loc.side d && eqb_ℤ p loc.price
        then find_node loc.iter l
        else read_book symbol b e loc)
read_book-put_level symbol buy p l b e loc = ground (arith, level_at-put_level p loc.price l b.bids)
read_book-put_level symbol sell p l b e loc =
    ground (arith, level_at-put_level p loc.price l b.asks)

is_empty-erase_node :
    (n : NodeId) (l : Level) → is_empty (erase_node n l) ≡ false → is_empty l ≡ false
unfolding erase_node
is_empty-erase_node n [] h = h
is_empty-erase_node n (x ∷ l) h = refl

module _ (e : Engine) (v : IsValid e) (id : ℤ) (loc : Location)
    (found : find id e.index ≡ some loc) where
  abbrev book : Book
  book = book_for e.books loc.symbol

  abbrev levels : Levels
  levels = side_of loc.side book

  abbrev shorter : Level
  shorter = erase_node loc.iter (level_at loc.price levels)

  held : Holding e loc.symbol book
  held = IsValid-Holding e loc.symbol v

  -- The price of a list that is there does not cross the other side.
  price_Apart :
      is_empty shorter ≡ false → Beyond loc.side loc.price (side_of (opposite loc.side) book)
  price_Apart h = by_cases (
      level_at-All (λ x. Beyond loc.side x.0 (side_of (opposite loc.side) book)) loc.price levels
        (BookOk-Apart held.held loc.side))
    where
      by_cases :
          (level_at loc.price levels ≡ [])
            ⊎ Beyond loc.side loc.price (side_of (opposite loc.side) book)
          → Beyond loc.side loc.price (side_of (opposite loc.side) book)
      by_cases (inl none_there) =
          absurd (ground (arith, is_empty-erase_node loc.iter (level_at loc.price levels) h))
      by_cases (inr apart) = apart

  -- Another entry's iterator still reads its order.
  read_other :
      (k : ℤ) (other : Location) (o : RestingOrder)
      → id ≢ k
      → read_book loc.symbol book e other ≡ some o
      → o.order_id ≡ k
      → read_book loc.symbol (set_side loc.side (put_level loc.price shorter levels) book) e other
        ≡ some o
  read_other k other o ne r i =
      rw (read_book-put_level loc.symbol loc.side loc.price shorter book e other)
        (elim (Bool-cases (
          text_eq loc.symbol other.symbol
          && is_side other.side loc.side
          && eqb_ℤ loc.price other.price)) [
            | inl hit ↦ rw hit (same_list (and_three _ _ _ hit))
            | inr miss ↦ rw miss r
          ])
    where
      same_list :
          (text_eq loc.symbol other.symbol ≡ true)
            × (is_side other.side loc.side ≡ true)
            × (eqb_ℤ loc.price other.price ≡ true)
          → find_node other.iter shorter ≡ some o
      same_list hits =
          let (x, at, j) = held.live id loc found in
          let there = sym (read_book_here loc.symbol loc.side loc.price book e other hits) ∙ r in
          let here =
            sym (
              read_book_here loc.symbol loc.side loc.price book e loc (
                text_eq_refl loc.symbol,
                is_side_refl loc.side,
                (eqb_ℤ_iff loc.price loc.price).1 refl,
              ))
            ∙ at in
          ground (
            arith,
            find_node-erase_node loc.iter other.iter (level_at loc.price levels),
            here,
            there,
          )

  pub remove_at-IsValid : IsValid (remove_at e id loc)
  unfolding remove_at deref
  remove_at-IsValid =
      put_book-IsValid (record e { index = erase id e.index }) loc.symbol _
        (record {
          others = held.others;
          held =
              set_side-BookOk loc.side (put_level loc.price shorter levels) held.held
                (put_level-IsSide loc.symbol loc.side e.next_node loc.price shorter levels
                  (erase_node-Orders loc.symbol loc.side e.next_node loc.price loc.iter _ (
                    level_at-Orders loc.symbol loc.side e.next_node loc.price levels
                      (BookOk-side held.held loc.side)))
                  (BookOk-side held.held loc.side))
                (put_level-All (λ x. Beyond loc.side x.0 (side_of (opposite loc.side) book))
                  loc.price shorter levels price_Apart (BookOk-Apart held.held loc.side));
          live = λ k other f.
              let (ne, there) = find-erase-some id k e.index f in
              let (o, r, i) = held.live k other there in (o, read_other k other o ne r i, i);
        })

IsValid-sequence : (e : Engine) (n : ℤ) → IsValid e → IsValid (record e { sequence = n })
unfolding deref
IsValid-sequence e n v = record { books = v.books; live = v.live }

-- `remove_resting` keeps the engine in order, also at an id that it does not know.
remove_resting-IsValid : (e : Engine) (id : ℤ) → IsValid e → IsValid (remove_resting e id)
unfolding remove_resting
remove_resting-IsValid e id v = elim (Option-cases (find id e.index)) [
  | inl missing ↦ rw (missing, remove_resting) v
  | inr (loc, found) ↦ rw (found, remove_resting) (remove_at-IsValid e v id loc found)
]

-- On an engine in order `cancel` reads no freed node, and leaves the engine in order.
pub cancel-IsValid :
    (e : Engine) (cmd : CancelOrder)
    → IsValid e
    → (out : Engine × List ExecEvent) × (cancel e cmd ≡ ok out) × IsValid out.0
unfolding cancel cancel_at remove_resting reject
cancel-IsValid e cmd v = elim (Option-cases (find cmd.order_id e.index)) [
  | inl e0 ↦ rw (e0, cancel) (_, refl, IsValid-sequence e _ v)
  | inr (loc, found) ↦
      let (o, at, i) = v.live cmd.order_id loc found in
      rw (found, cancel, at)
        (
          _,
          refl,
          IsValid-sequence (remove_resting e cmd.order_id) _
              (remove_resting-IsValid e cmd.order_id v),
        )
]

-- On an engine in order `replace`, which cancels and adds, returns, throws nothing and reads no
-- freed node, and leaves the engine in order.
pub replace-IsValid :
    (e : Engine) (cmd : ReplaceOrder)
    → IsValid e
    → (out : Output) × (replace e cmd ≡ ok out) × IsValid out.0
unfolding replace replace_at reject
replace-IsValid e cmd v = elim (Option-cases (find cmd.order_id e.index)) [
  | inl e0 ↦ rw (e0, replace) (_, refl, IsValid-sequence e _ v)
  | inr (loc, found) ↦
      let (o, at, i) = v.live cmd.order_id loc found in
      let ((e', events), ran, v') =
        cancel-IsValid e (record { symbol = cmd.symbol; order_id = cmd.order_id }) v in
      let (out, added, v'') = add-IsValid e' (replacement cmd o.participant_id loc.side) v' in
      rw (found, replace, at, ran, added) (_, refl, v'')
]
