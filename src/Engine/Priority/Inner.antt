-- ===== src/Engine/Priority/Inner.antt =====
-- The inner loop follows the queue.
use matching_engine_cpp.Base.{
  ℕ, suc, ◌≡◌, refl, sym, subst, ◌∙◌, inl, inr, Bool, true, false, Option, List, [], ◌∷◌, ◌++◌,
  append_assoc, arith, Bool-cases, ℤ, pos, ◌-ℤ◌, ◌<ℤ◌, ltb_ℤ, eqb_ℤ, -ℤ_parts, lt→ltb_ℤ, length, ok,
  ok-injective, while-keeps,
}
use matching_engine_cpp.Engine.PriceMap.{RestingOrder, NodeId, Level}
use matching_engine_cpp.Engine.Matching.{
  Tape, Sweep, trade_of, record_fill, is_self_trade, visit_front, visit, sweep, sweep_test, emit,
}
use matching_engine_cpp.Engine.Matching.Rounds.{after_fill, fill_at, filled, fill_front_lem}
use matching_engine_cpp.Engine.Matching.Safe.{SweepOk, visit_front-Goes}
use matching_engine_cpp.Engine.{Location}
use matching_engine_cpp.Engine.Priority.{
  fill_quantity-lesser, orders_of, fills, trades_for, trade_between, fills_none,
}
use matching_engine_cpp.Types.{Side, buy, sell, AddOrder, Trade, none_stp}

trade_of-after_fill :
    (d : Side) (cmd : AddOrder) (o : RestingOrder) (f q : ℤ)
    → trade_of d cmd (after_fill o f) q ≡ trade_between d cmd o q
unfolding trade_of
trade_of-after_fill buy cmd o f q = refl
trade_of-after_fill sell cmd o f q = refl

is_self_trade_none :
    (cmd : AddOrder) (o : RestingOrder) → cmd.stp ≡ none_stp → is_self_trade cmd o ≡ false
unfolding is_self_trade
is_self_trade_none cmd o h = ground arith

-- The trades made so far, with those that the queue `os` still gives, are `all`.
abbrev pub Follows : AddOrder → List Trade → Tape → List RestingOrder → Type 0
Follows cmd all t os = t.trades ++ trades_for cmd (fills t.remaining os) ≡ all

module _ (cmd : AddOrder) (all : List Trade) (behind : List RestingOrder) where
  abbrev pub SweepFollows : Sweep → Type 0
  SweepFollows s = Follows cmd all s.tape (orders_of s.level ++ behind)

  -- What is left of the order after a fill that does not use up the front.
  spent :
      (t : Tape) (o : RestingOrder)
      → eqb_ℤ (o.remaining -ℤ fill_at t o) (pos 0) ≡ false
      → ltb_ℤ (pos 0) (t.remaining -ℤ fill_at t o) ≡ false
  spent t o h =
      ground (arith, -ℤ_parts o.remaining (fill_at t o), -ℤ_parts t.remaining (fill_at t o))

  -- The trade is the one that the queue gives next.
  made :
      (o : RestingOrder) (t : Tape) (os : List RestingOrder)
      → ltb_ℤ (pos 0) t.remaining ≡ true
      → Follows cmd all t (o ∷ os)
      → (t.trades ++ (trade_of cmd.side cmd (after_fill o (fill_at t o)) (fill_at t o) ∷ []))
          ++ trades_for cmd (fills (t.remaining -ℤ fill_at t o) os)
        ≡ all
  unfolding fills trades_for
  made o t os h follows =
      let least =
        subst
          (λ x.
            t.trades
              ++ (trade_between cmd.side cmd o x ∷ trades_for cmd (fills (t.remaining -ℤ x) os))
            ≡ all)
          (sym (fill_quantity-lesser t.remaining o.remaining)) (rw h at follows) in
      append_assoc t.trades _ _
      ∙ rw (trade_of-after_fill cmd.side cmd o (fill_at t o) (fill_at t o)) least

  filled-Follows :
      (n : NodeId) (o : RestingOrder) (rest : Level) (t : Tape)
      → ltb_ℤ (pos 0) t.remaining ≡ true
      → Follows cmd all t (o ∷ (orders_of rest ++ behind))
      → SweepFollows (filled cmd n o rest t)
  unfolding record_fill emit
  filled-Follows n o rest t h follows =
      let next = made o t (orders_of rest ++ behind) h follows in
      elim (Bool-cases (eqb_ℤ (o.remaining -ℤ fill_at t o) (pos 0))) [
        | inl used ↦ rw used next
        | inr kept ↦
            let e = spent t o kept in
            rw (kept, fills_none _ (after_fill o (fill_at t o) ∷ (orders_of rest ++ behind)) e)
              (rw (fills_none _ (orders_of rest ++ behind) e) at next)
      ]

module _ (cmd : AddOrder) (all : List Trade) (behind : List RestingOrder)
    (no_stp : cmd.stp ≡ none_stp) (price : ℤ) (next : ℕ) (here : Location → Bool)
    (elsewhere : Location → Option RestingOrder) where
  visit_front-Follows :
      (level : Level) (t : Tape) (s : Sweep)
      → SweepOk cmd price next here elsewhere (record { level = level; tape = t })
      → SweepFollows cmd all behind (record { level = level; tape = t })
      → sweep_test (record { level = level; tape = t }) ≡ true
      → visit_front cmd level t ≡ ok s
      → SweepFollows cmd all behind s
  unfolding visit_front
  visit_front-Follows [] t s v follows test e = absurd (ground arith)
  visit_front-Follows ((n, o) ∷ rest) t s v follows test e =
      let h : pos 0 <ℤ t.remaining = ground arith in
      let run : ok (filled cmd n o rest t) ≡ ok s =
        sym (fill_front_lem cmd n o rest t h v.orders.0.positive v.orders.0.same_symbol)
        ∙ (rw (is_self_trade_none cmd o no_stp) at e) in
      subst (SweepFollows cmd all behind) (ok-injective run)
        (filled-Follows cmd all behind n o rest t (lt→ltb_ℤ (pos 0) t.remaining h) follows)

  abbrev Both : Sweep → Type 0
  Both s = SweepOk cmd price next here elsewhere s × SweepFollows cmd all behind s

  round-Both : (s s' : Sweep) → Both s → sweep_test s ≡ true → visit cmd s ≡ ok s' → Both s'
  unfolding visit
  round-Both s s' (v, f) test e =
      let (r, eq, w, _) = visit_front-Goes cmd price next here elsewhere s.level s.tape v test in
      (
        subst (SweepOk cmd price next here elsewhere) (ok-injective (sym eq ∙ e)) w,
        visit_front-Follows s.level s.tape s' v f test e,
      )

  -- The inner loop makes the trades that the queue gives, and leaves the rest of the queue.
  pub sweep-Follows :
      (level : Level) (t : Tape) (r : Sweep)
      → SweepOk cmd price next here elsewhere (record { level = level; tape = t })
      → SweepFollows cmd all behind (record { level = level; tape = t })
      → sweep cmd level t ≡ ok r
      → SweepFollows cmd all behind r
  unfolding sweep
  sweep-Follows level t r v f e =
      (while-keeps Both sweep_test (visit cmd) round-Both (suc (length level)) _ r (v, f) e).1
