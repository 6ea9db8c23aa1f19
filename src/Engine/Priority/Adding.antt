-- ===== src/Engine/Priority/Adding.antt =====
-- `add` against the specification: its trades are those of the queue.
use matching_engine_cpp.Base.{
  ◌≡◌, refl, sym, ap, ◌∙◌, inl, inr, false, List, Bool-cases, ℤ, pos, ltb_ℤ, Result, ok, err, ◌>>◌,
  ok-injective, int_eq, text_eq_instance,
}
use matching_engine_cpp.Engine.Matching.{Tape, emit, Matching}
use matching_engine_cpp.Engine.Matching.Outer.{match_all-Ends}
use matching_engine_cpp.Engine.Commands.{
  Output, with_tape, rest_order, settle, finish, opening, is_unfillable, add, check_not_crossed,
}
use matching_engine_cpp.Engine.{Engine, Book, book_for, side_of}
use matching_engine_cpp.Engine.Priority.{queue, fills, trades_for}
use matching_engine_cpp.Engine.Priority.Outer.{match_all-trades}
use matching_engine_cpp.Engine.Invariant.{IsValid, Beyond}
use matching_engine_cpp.Engine.Invariant.Holding.{read_book, IsValid-Holding, on_side}
use matching_engine_cpp.Engine.Invariant.Adding.{AddOk-start, add-IsValid}
use matching_engine_cpp.Types.{
  opposite, AddOrder, TimeInForce, gtc, ioc, fok, market, Trade, ExecEvent, none_stp,
}

then_trades :
    (r : Result (Unit {0})) (e : Engine) (evs : List ExecEvent) (ts : List Trade) (out : Output)
    → (r >> ok (e, evs, ts)) ≡ ok out
    → ts ≡ out.2
then_trades (ok u) e evs ts out run = ap (λ o. o.2) (ok-injective run)
then_trades (err x) e evs ts out run = absurd (cc)

-- What follows the loops makes no trade.
settle-trades :
    (tif : TimeInForce) (cmd : AddOrder) (e : Engine) (b : Book) (t : Tape) (out : Output)
    → settle tif cmd e b t ≡ ok out
    → out.2 ≡ t.trades
unfolding settle emit
settle-trades gtc cmd e b t out run =
    let b' = (rest_order (with_tape e t) b cmd t.remaining).1 in
    sym (then_trades (check_not_crossed cmd.symbol b') _ _ _ out run)
settle-trades ioc cmd e b t out run = sym (ap (λ o. o.2) (ok-injective run))
settle-trades fok cmd e b t out run = sym (ap (λ o. o.2) (ok-injective run))
settle-trades market cmd e b t out run = sym (ap (λ o. o.2) (ok-injective run))

finish-trades :
    (cmd : AddOrder) (e : Engine) (b : Book) (m : Matching) (out : Output)
    → finish cmd e b m ≡ ok out
    → out.2 ≡ m.tape.trades
unfolding finish
finish-trades cmd e b m out run = elim (Bool-cases (ltb_ℤ (pos 0) m.tape.remaining)) [
  | inl left ↦ settle-trades cmd.time_in_force cmd e _ m.tape out (rw left at run)
  | inr none_left ↦ sym (ap (λ o. o.2) (ok-injective (rw none_left at run)))
]

-- The trades that price-time priority gives an order on these books.
unfoldable pub priority_trades : Engine → AddOrder → List Trade
unfolding trades_for fills queue
priority_trades e cmd =
    trades_for cmd
      (fills cmd.quantity (queue cmd (side_of (opposite cmd.side) (book_for e.books cmd.symbol))))

pub add-trades :
    (e : Engine) (cmd : AddOrder)
    → IsValid e
    → cmd.stp ≡ none_stp
    → is_unfillable cmd (book_for e.books cmd.symbol) ≡ false
    → (out : Output) × (add e cmd ≡ ok out) × (out.2 ≡ priority_trades e cmd)
unfolding add priority_trades opening emit
add-trades e cmd v no_stp taken =
    let b = book_for e.books cmd.symbol in
    let held = IsValid-Holding e cmd.symbol v in
    let start = AddOk-start cmd e b held in
    let beyond : ℤ → Type 0 = λ p. Beyond (opposite cmd.side) p (side_of cmd.side b) in
    let (m, eq, w, done) =
      match_all-Ends cmd e.next_node (on_side cmd.symbol (opposite cmd.side))
        (read_book cmd.symbol b e) beyond (side_of (opposite cmd.side) b) (opening cmd e) start in
    let (out, run, _) = add-IsValid e cmd v in
    let end : finish cmd e b m ≡ ok out = rw (taken, eq) at run in
    (
      out,
      run,
      finish-trades cmd e b m out end
          ∙ match_all-trades cmd (priority_trades e cmd) no_stp e.next_node
              (on_side cmd.symbol (opposite cmd.side)) (read_book cmd.symbol b e) beyond
              (side_of (opposite cmd.side) b) (opening cmd e) m start refl eq done,
    )
