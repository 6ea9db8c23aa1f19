-- ===== src/Engine/Priority/Whole.antt =====
-- Fill-or-kill orders: the volume test of `add` is the volume of the queue.
use matching_engine_cpp.Base.{
  ◌^◌, ◌≡◌, refl, ap, ◌∙◌, inl, inr, true, false, ◌&&◌, List, [], ◌∷◌, arith, if◌then◌else◌,
  Bool-cases, ℤ, pos, ◌+ℤ◌, ◌-ℤ◌, ◌≤ℤ◌, ◌<ℤ◌, ltb_ℤ, leb_ℤ, +ℤ_parts, -ℤ_parts, eq_of_parts,
  int_laws, +ℤ-zero, ltb_ℤ-false, codes, ok, int_eq, text_eq_instance,
}
use matching_engine_cpp.Engine.PriceMap.{RestingOrder}
use matching_engine_cpp.Engine.Commands.{
  Output, is_fok, is_unfillable, add, available_volume, put_book,
}
use matching_engine_cpp.Engine.{Engine, book_for, side_of, reject}
use matching_engine_cpp.Engine.Priority.{queue, fills, trades_for, fills_none}
use matching_engine_cpp.Engine.Priority.Adding.{priority_trades, add-trades}
use matching_engine_cpp.Engine.Invariant.{IsValid, BookOk-side}
use matching_engine_cpp.Engine.Priority.Volume.{volume, available_volume-queue}
use matching_engine_cpp.Types.{opposite, AddOrder, fok, Trade, none_stp}

unfoldable total : List (RestingOrder × ℤ) → ℤ
total [] = pos 0
total ((o, q) ∷ fs) = q +ℤ total fs

unfoldable pub traded : List Trade → ℤ
traded [] = pos 0
traded (t ∷ ts) = t.quantity +ℤ traded ts

traded-trades_for :
    (cmd : AddOrder) (fs : List (RestingOrder × ℤ)) → traded (trades_for cmd fs) ≡ total fs
unfolding traded total trades_for
traded-trades_for cmd [] = refl
traded-trades_for cmd ((o, q) ∷ fs) = rw (traded-trades_for cmd fs)

take_back : (a b : ℤ) → b +ℤ (a -ℤ b) ≡ a
take_back a b = omega int_laws

nothing_left : (a : ℤ) → ltb_ℤ (pos 0) (a -ℤ a) ≡ false
nothing_left a = ground (arith, -ℤ_parts a a)

-- An order that wants no more than there is gets all it wants.
fills-whole :
    (wanted : ℤ) (os : List RestingOrder)
    → pos 0 ≤ℤ wanted
    → wanted ≤ℤ volume os
    → total (fills wanted os) ≡ wanted
unfolding fills volume total
fills-whole wanted [] a b = eq_of_parts (pos 0) wanted (omega arith)
fills-whole wanted (o ∷ os) a b = elim (Bool-cases (ltb_ℤ (pos 0) wanted)) [
  | inr h ↦ rw h (eq_of_parts (pos 0) wanted (ground arith))
  | inl h ↦ elim (Bool-cases (leb_ℤ wanted o.remaining)) [
    | inl small ↦
        rw (h, small, fills_none (wanted -ℤ wanted) os (nothing_left wanted)) (+ℤ-zero wanted)
    | inr big ↦
        let r = o.remaining in
        let below : r ≤ℤ wanted = ground (arith, big) in
        let rest : total (fills (wanted -ℤ r) os) ≡ wanted -ℤ r =
          fills-whole (wanted -ℤ r) os (omega (arith, -ℤ_parts wanted r))
            (omega (arith, -ℤ_parts wanted r, +ℤ_parts r (volume os))) in
        rw (h, big, rest) (take_back wanted r)
  ]
]

-- All of `quantity` where there is so much, and nothing otherwise.
abbrev pub all_or_none : ℤ → ℤ → ℤ
all_or_none available quantity = if ltb_ℤ available quantity then pos 0 else quantity

abbrev pub queue_of : Engine → AddOrder → List RestingOrder
queue_of e cmd = queue cmd (side_of (opposite cmd.side) (book_for e.books cmd.symbol))

is_unfillable-volume :
    (e : Engine) (cmd : AddOrder)
    → IsValid e
    → cmd.time_in_force ≡ fok
    → volume (queue_of e cmd) <ℤ pos (2 ^ 63)
    → is_unfillable cmd (book_for e.books cmd.symbol) ≡ ltb_ℤ (volume (queue_of e cmd)) cmd.quantity
unfolding is_unfillable
is_unfillable-volume e cmd v f small =
    let b = book_for e.books cmd.symbol in
    let there = available_volume b (opposite cmd.side) cmd.price_ticks in
    ap (λ tif. is_fok tif && ltb_ℤ there cmd.quantity) f
    ∙ ap (λ a. ltb_ℤ a cmd.quantity)
        (available_volume-queue cmd.symbol (opposite cmd.side) e.next_node cmd b f
          (BookOk-side (v.books cmd.symbol) (opposite cmd.side)) small)

refused-trades :
    (e : Engine) (cmd : AddOrder)
    → is_unfillable cmd (book_for e.books cmd.symbol) ≡ true
    → (out : Output) × (add e cmd ≡ ok out) × (traded out.2 ≡ pos 0)
unfolding add traded
refused-trades e cmd h =
    let b = book_for e.books cmd.symbol in
    let (ev, e') = reject e cmd.symbol cmd.order_id (codes "FOK_UNFILLABLE") in
    ((put_book cmd.symbol b e', ev ∷ [], []), rw h, refl)

-- On an engine in order, `add` of a fill-or-kill order without self-trade prevention, whose quantity is
-- not negative, returns where the resting orders at the prices it crosses have less than 2^63 left
-- together, so that their sum does not overflow. Its trades add up to its whole quantity where these
-- orders have that much left together, and to nothing otherwise.
pub add-all_or_none :
    (e : Engine) (cmd : AddOrder)
    → IsValid e
    → cmd.stp ≡ none_stp
    → cmd.time_in_force ≡ fok
    → pos 0 ≤ℤ cmd.quantity
    → volume (queue_of e cmd) <ℤ pos (2 ^ 63)
    → (out : Output) × (add e cmd ≡ ok out)
      × (traded out.2 ≡ all_or_none (volume (queue_of e cmd)) cmd.quantity)
unfolding priority_trades
add-all_or_none e cmd v no_stp f positive small =
    let test = is_unfillable-volume e cmd v f small in
    elim (Bool-cases (ltb_ℤ (volume (queue_of e cmd)) cmd.quantity)) [
      | inl short ↦
          let (out, run, none_traded) = refused-trades e cmd (test ∙ short) in
          (out, run, rw short none_traded)
      | inr enough ↦
          let (out, run, trades) = add-trades e cmd v no_stp (test ∙ enough) in
          (
            out,
            run,
            rw (enough, trades)
                (traded-trades_for cmd (fills cmd.quantity (queue_of e cmd))
                  ∙ fills-whole cmd.quantity (queue_of e cmd) positive
                      (ltb_ℤ-false (volume (queue_of e cmd)) cmd.quantity enough)),
          )
    ]
