-- ===== src/Engine/Priority/Outer.antt =====
-- The outer loop follows the queue, to its end.
use matching_engine_cpp.Base.{
  ℕ, suc, ◌≡◌, refl, sym, ap, subst, ◌∙◌, inl, inr, Bool, true, false, Option, some, List, [], ◌∷◌,
  ◌++◌, append-nil, arith, Bool-cases, Option-cases, ℤ, pos, ltb_ℤ, length, ok, ok-injective,
  bind-ok, while-keeps,
}
use matching_engine_cpp.Engine.PriceMap.{RestingOrder, Level, Levels}
use matching_engine_cpp.Engine.Matching.{
  Tape, sweep, Matching, best, crosses, match_test, match_best, match_step, match_all,
}
use matching_engine_cpp.Engine.Matching.Safe.{SweepOk}
use matching_engine_cpp.Engine.Matching.Outer.{
  read_levels, at_price, read_before, AllLive-ext, best-IsEntry, MatchOk, match_step-Advances,
}
use matching_engine_cpp.Engine.{Location}
use matching_engine_cpp.Engine.Priority.{
  crosses-accepts, orders_of, best_first_for, crossing, queue, fills, trades_for, fills_none,
}
use matching_engine_cpp.Engine.Priority.Inner.{Follows, sweep-Follows}
use matching_engine_cpp.Engine.Priority.Order.{entry_of, best-none, best-BeginsWith}
use matching_engine_cpp.Types.{Side, buy, sell, opposite, AddOrder, Trade, none_stp}

-- The queue when the best price crosses: its list, then the rest.
crossing-entry_of :
    (cmd : AddOrder) (p : ℤ) (l : Level) (rest : Levels)
    → crosses cmd p ≡ true
    → crossing cmd (entry_of p l ++ rest) ≡ orders_of l ++ crossing cmd rest
unfolding crossing
crossing-entry_of cmd p [] rest h = refl
crossing-entry_of cmd p (x ∷ l) rest h = rw (sym (crosses-accepts cmd p) ∙ h)

crossing-cons :
    (cmd : AddOrder) (p : ℤ) (l : Level) (rest : Levels)
    → crosses cmd p ≡ true
    → crossing cmd ((p, l) ∷ rest) ≡ orders_of l ++ crossing cmd rest
unfolding crossing
crossing-cons cmd p l rest h = rw (sym (crosses-accepts cmd p) ∙ h)

crossing-stop :
    (cmd : AddOrder) (p : ℤ) (l : Level) (rest : Levels)
    → crosses cmd p ≡ false
    → crossing cmd ((p, l) ∷ rest) ≡ []
unfolding crossing
crossing-stop cmd p l rest h = rw (sym (crosses-accepts cmd p) ∙ h)

crossing-none : (cmd : AddOrder) (d : Side) → crossing cmd (best_first_for d []) ≡ []
unfolding crossing
crossing-none cmd buy = refl
crossing-none cmd sell = refl

fills-nothing : (wanted : ℤ) (os : List RestingOrder) → os ≡ [] → fills wanted os ≡ []
unfolding fills
fills-nothing wanted os e = rw e

module _ (cmd : AddOrder) (all : List Trade) (no_stp : cmd.stp ≡ none_stp) (next : ℕ)
    (here : Location → Bool) (elsewhere : Location → Option RestingOrder) (Q : ℤ → Type 0) where
  abbrev Ok : Matching → Type 0
  Ok = MatchOk cmd next here elsewhere Q

  abbrev pub QueueFollows : Matching → Type 0
  QueueFollows s = Follows cmd all s.tape (queue cmd s.levels)

  match_best-Follows :
      (s s' : Matching) (p : ℤ) (l : Level)
      → Ok s
      → QueueFollows s
      → crosses cmd p ≡ true
      → best cmd.side s.levels ≡ some (p, l)
      → match_best cmd (some (p, l)) s ≡ ok s'
      → QueueFollows s'
  unfolding match_best queue
  match_best-Follows s s' p l v f cross e run =
      let (at, entry) =
        best-IsEntry cmd.symbol (opposite cmd.side) cmd.side next s.levels p l v.side e in
      let (rest, shape, put) = best-BeginsWith cmd.side p l s.levels v.side.sorted e in
      let (r, swept, out) = bind-ok (sweep cmd l s.tape) _ run in
      let start : SweepOk cmd p next (at_price here p) (read_levels here elsewhere s.levels)
          (record { level = l; tape = s.tape }) =
        record {
          orders = entry.1;
          live =
              rw (← at)
                (AllLive-ext _ _ s.tape.index (read_before here elsewhere p s.levels) v.live);
        } in
      let before : Follows cmd all s.tape (orders_of l ++ crossing cmd rest) =
        subst (Follows cmd all s.tape) (ap (crossing cmd) shape ∙ crossing-cons cmd p l rest cross)
          f in
      let after =
        sweep-Follows cmd all (crossing cmd rest) no_stp p next (at_price here p)
          (read_levels here elsewhere s.levels) l s.tape r start before swept in
      subst QueueFollows (ok-injective out) (
        subst (Follows cmd all r.tape)
          (sym (ap (crossing cmd) (put r.level) ∙ crossing-entry_of cmd p r.level rest cross))
          after)

  step-Follows :
      (s s' : Matching)
      → Ok s × QueueFollows s
      → match_test cmd s ≡ true
      → match_step cmd s ≡ ok s'
      → Ok s' × QueueFollows s'
  unfolding match_step match_test
  step-Follows s s' (v, f) test run =
      let (t, eq, w, _) = match_step-Advances cmd next here elsewhere Q s v test in
      (
        subst Ok (ok-injective (sym eq ∙ run)) w,
        elim (Option-cases (best cmd.side s.levels)) [
          | inl e ↦ absurd (ground arith)
          | inr ((p, l), e) ↦ match_best-Follows s s' p l v f (ground arith) e (rw e at run)
        ],
      )

  -- When the loops end by their test, the queue gives nothing more.
  done_none :
      (s : Matching)
      → Ok s
      → match_test cmd s ≡ false
      → fills s.tape.remaining (queue cmd s.levels) ≡ []
  unfolding match_test queue
  done_none s v done = elim (Bool-cases (ltb_ℤ (pos 0) s.tape.remaining)) [
    | inr none_left ↦ fills_none s.tape.remaining _ none_left
    | inl left ↦ elim (Option-cases (best cmd.side s.levels)) [
      | inl e ↦
          fills-nothing s.tape.remaining _
            (ap (queue cmd) (best-none cmd.side s.levels e) ∙ crossing-none cmd cmd.side)
      | inr ((p, l), e) ↦
          let (rest, shape, put) = best-BeginsWith cmd.side p l s.levels v.side.sorted e in
          let apart : crosses cmd p ≡ false = ground arith in
          fills-nothing s.tape.remaining _
            (ap (crossing cmd) shape ∙ crossing-stop cmd p l rest apart)
    ]
  ]

  -- The loops make exactly the trades that the queue gives.
  pub match_all-trades :
      (m : Levels) (t : Tape) (r : Matching)
      → Ok (record { levels = m; tape = t })
      → QueueFollows (record { levels = m; tape = t })
      → match_all cmd m t ≡ ok r
      → match_test cmd r ≡ false
      → r.tape.trades ≡ all
  unfolding match_all trades_for
  match_all-trades m t r v f run done =
      let (w, g) =
        while-keeps (λ s. Ok s × QueueFollows s) (match_test cmd) (match_step cmd) step-Follows
          (suc (length m)) _ r (v, f) run in
      sym (append-nil r.tape.trades)
      ∙ ap (λ fs. r.tape.trades ++ trades_for cmd fs) (sym (done_none r w done))
      ∙ g
