-- ===== src/Engine/Invariant/Adding.antt =====
-- `add` throws nothing and keeps the engine in order.
use matching_engine_cpp.Base.{
  ◌≡◌, refl, sym, subst, inl, inr, Bool, true, false, some, arith, Bool-cases, ℤ, pos, ◌<ℤ◌, ltb_ℤ,
  ltb_ℤ→lt, Text, Error, Result, ok, ◌>>◌, guard, int_eq, text_eq_instance,
}
use matching_engine_cpp.Engine.PriceMap.Laws.{IsSorted, first-Above, last-Below}
use matching_engine_cpp.Engine.PriceMap.{Levels, Level}
use matching_engine_cpp.Engine.Matching.{
  Tape, emit, Matching, best, crosses, match_test, within, is_market,
}
use matching_engine_cpp.Engine.Matching.Outer.{AllLive-ext, MatchOk, match_all-Ends}
use matching_engine_cpp.Engine.Commands.{
  deref, Output, with_tape, settle, finish, opening, is_unfillable, add, check_not_crossed,
}
use matching_engine_cpp.Engine.{Engine, Book, book_for, side_of, set_side, reject}
use matching_engine_cpp.Types.{
  Side, buy, sell, opposite, AddOrder, TimeInForce, gtc, ioc, fok, market,
}
use matching_engine_cpp.Engine.Invariant.{
  IsValid, BookOk-side, BookOk-Apart, BookOk-not_crossed, Apart, Beyond, set_side-BookOk,
}
use matching_engine_cpp.Engine.Invariant.Holding.{
  Holding, read_book, put_book-IsValid, IsValid-Holding, on_side, read_levels-read_book,
  read_levels_start,
}
use matching_engine_cpp.Engine.Invariant.Resting.{rest_order-Holding}

-- The counter of events is no part of the invariant.
pub Holding-sequence :
    (e : Engine) (symbol : Text) (b : Book) (n : ℤ)
    → Holding e symbol b
    → Holding (record e { sequence = n }) symbol b
unfolding deref
Holding-sequence e symbol b n v = record { others = v.others; held = v.held; live = v.live }

best-Beyond :
    (d : Side) (limit : ℤ) (m : Levels)
    → IsSorted m
    → ((p : ℤ) (l : Level) → best d m ≡ some (p, l) → within d limit p ≡ false)
    → Beyond d limit m
unfolding best
best-Beyond buy limit m s h = first-Above limit m s (λ p l e. ground (arith, h p l e))
best-Beyond sell limit m s h = last-Below limit m s (λ p l e. ground (arith, h p l e))

-- When the loops have ended with volume left, a limit order does not cross what is there.
done-Beyond :
    (cmd : AddOrder) (m : Matching)
    → IsSorted m.levels
    → match_test cmd m ≡ false
    → ltb_ℤ (pos 0) m.tape.remaining ≡ true
    → is_market cmd.time_in_force ≡ false
    → Beyond cmd.side cmd.price_ticks m.levels
unfolding match_test crosses
done-Beyond cmd m s done left limit =
    best-Beyond cmd.side cmd.price_ticks m.levels s λ p l e. ground arith

abbrev pub Succeeds : Result Output → Type 0
Succeeds r = (out : Output) × (r ≡ ok out) × IsValid out.0

Succeeds-ok : (out : Output) → IsValid out.0 → Succeeds (ok out)
Succeeds-ok out v = (out, refl, v)

Succeeds-guard :
    (c : Bool) (x : Error) (r : Result Output) → c ≡ true → Succeeds r → Succeeds (guard c x >> r)
Succeeds-guard c x r e h = rw e h

settle-Succeeds :
    (tif : TimeInForce) (cmd : AddOrder) (e : Engine) (b : Book) (t : Tape)
    → Holding (with_tape e t) cmd.symbol b
    → pos 0 <ℤ t.remaining
    → (is_market tif ≡ false → Beyond cmd.side cmd.price_ticks (side_of (opposite cmd.side) b))
    → Succeeds (settle tif cmd e b t)
unfolding settle check_not_crossed
settle-Succeeds gtc cmd e b t v h beyond =
    let w = rest_order-Holding (with_tape e t) b cmd t.remaining v h (beyond refl) in
    Succeeds-guard _ _ _ (BookOk-not_crossed w.held)
      (Succeeds-ok _ (put_book-IsValid _ cmd.symbol _ (Holding-sequence _ cmd.symbol _ _ w)))
settle-Succeeds ioc cmd e b t v h beyond =
    Succeeds-ok _
      (put_book-IsValid _ cmd.symbol b (Holding-sequence (with_tape e t) cmd.symbol b _ v))
settle-Succeeds fok cmd e b t v h beyond = Succeeds-ok _ (put_book-IsValid _ cmd.symbol b v)
settle-Succeeds market cmd e b t v h beyond =
    Succeeds-ok _
      (put_book-IsValid _ cmd.symbol b (Holding-sequence (with_tape e t) cmd.symbol b _ v))

opposite_twice : (d : Side) → opposite (opposite d) ≡ d
unfolding opposite
opposite_twice buy = refl
opposite_twice sell = refl

side_of-set_side : (d : Side) (m : Levels) (b : Book) → side_of d (set_side d m b) ≡ m
side_of-set_side buy m b = refl
side_of-set_side sell m b = refl

-- What the loops of `add` keep: the opposite side and the index in order, and its prices apart from
-- the order's own side.
abbrev pub AddOk : (cmd : AddOrder) → Engine → Book → Matching → Type 0
AddOk cmd e b =
    MatchOk cmd e.next_node (on_side cmd.symbol (opposite cmd.side)) (read_book cmd.symbol b e)
      (λ p. Beyond (opposite cmd.side) p (side_of cmd.side b))

pub AddOk-start :
    (cmd : AddOrder) (e : Engine) (b : Book)
    → Holding e cmd.symbol b
    → AddOk cmd e b (record { levels = side_of (opposite cmd.side) b; tape = opening cmd e })
unfolding opening emit
AddOk-start cmd e b v = record {
  side = BookOk-side v.held (opposite cmd.side);
  keys =
      subst (λ d. Apart (opposite cmd.side) (side_of (opposite cmd.side) b) (side_of d b))
        (opposite_twice cmd.side) (BookOk-Apart v.held (opposite cmd.side));
  live = AllLive-ext _ _ e.index (read_levels_start cmd.symbol (opposite cmd.side) b e) v.live;
}

pub AddOk-Holding :
    (cmd : AddOrder) (e : Engine) (b : Book) (m : Matching)
    → Holding e cmd.symbol b
    → AddOk cmd e b m
    → Holding (with_tape e m.tape) cmd.symbol (set_side (opposite cmd.side) m.levels b)
unfolding deref
AddOk-Holding cmd e b m v w = record {
  others = v.others;
  held = set_side-BookOk (opposite cmd.side) m.levels v.held w.side (
      subst (λ d. Apart (opposite cmd.side) m.levels (side_of d b)) (sym (opposite_twice cmd.side))
        w.keys);
  live =
      AllLive-ext _ _ m.tape.index
        (read_levels-read_book cmd.symbol (opposite cmd.side) m.levels b e) w.live;
}

finish-Succeeds :
    (cmd : AddOrder) (e : Engine) (b : Book) (m : Matching)
    → Holding e cmd.symbol b
    → AddOk cmd e b m
    → match_test cmd m ≡ false
    → Succeeds (finish cmd e b m)
unfolding finish
finish-Succeeds cmd e b m v w done =
    let after = AddOk-Holding cmd e b m v w in
    elim (Bool-cases (ltb_ℤ (pos 0) m.tape.remaining)) [
      | inr none_left ↦ rw none_left (Succeeds-ok _ (put_book-IsValid _ cmd.symbol _ after))
      | inl left ↦ rw left (
          settle-Succeeds cmd.time_in_force cmd e _ m.tape after (ltb_ℤ→lt (pos 0) _ left) λ limit.
            rw (side_of-set_side (opposite cmd.side) m.levels b)
              (done-Beyond cmd m w.side.sorted done left limit))
    ]

-- On an engine in order `add` returns, throws nothing, and leaves the engine in order.
pub add-IsValid :
    (e : Engine) (cmd : AddOrder)
    → IsValid e
    → (out : Output) × (add e cmd ≡ ok out) × IsValid out.0
unfolding add reject
add-IsValid e cmd v =
    let b = book_for e.books cmd.symbol in
    let held = IsValid-Holding e cmd.symbol v in
    elim (Bool-cases (is_unfillable cmd b)) [
      | inl refused ↦
          rw refused (
            Succeeds-ok _
              (put_book-IsValid _ cmd.symbol b (Holding-sequence e cmd.symbol b _ held)))
      | inr taken ↦
          let (m, eq, w, done) =
            match_all-Ends cmd e.next_node (on_side cmd.symbol (opposite cmd.side))
              (read_book cmd.symbol b e) (λ p. Beyond (opposite cmd.side) p (side_of cmd.side b))
              (side_of (opposite cmd.side) b) (opening cmd e) (AddOk-start cmd e b held) in
          rw (taken, eq) (finish-Succeeds cmd e b m held w done)
    ]
