-- ===== src/Engine/Counted/Outputs.antt =====
-- The output of `add`, from what the loops keep of their tape.
use matching_engine_cpp.Base.{
  guard-ok, suc, ◌≡◌, refl, sym, ap, subst, inl, inr, true, Option, none, some, List, [], ◌∷◌,
  Bool-cases, ℤ, pos, ◌≤ℤ◌, ltb_ℤ, int_laws, length, ok, ok-injective, bind-ok, while-keeps, int_eq,
  text_eq_instance,
}
use matching_engine_cpp.Types.{TimeInForce, gtc, ioc, fok, market, AddOrder, Trade, ExecEvent}
use matching_engine_cpp.Types.{opposite}
use matching_engine_cpp.Engine.Commands.{is_unfillable}
use matching_engine_cpp.Engine.{side_of, Engine, Book, book_for, reject, event, next_sequence}
use matching_engine_cpp.Engine.PriceMap.{Level, Levels}
use matching_engine_cpp.Engine.Matching.{
  Tape, Sweep, visit_front, visit, sweep_test, sweep, Matching, match_best, match_step, match_test,
  match_all, is_self_trade, best,
}
use matching_engine_cpp.Engine.Commands.{
  Output, settle, finish, opening, add, check_not_crossed, rest_order,
}
use matching_engine_cpp.Engine.Priority.Whole.{traded}
use matching_engine_cpp.Engine.Counted.{
  Numbered, Counts, emit-Counts, fill_front-Counts, prevent-Counts,
}

module _ (start quantity : ℤ) (cmd : AddOrder) where
  visit_front-Counts :
      (l : Level) (t : Tape) (s' : Sweep)
      → Counts start quantity t
      → visit_front cmd l t ≡ ok s'
      → Counts start quantity s'.tape
  unfolding visit_front
  visit_front-Counts [] t s' v h =
      subst (λ (x : Sweep). Counts start quantity x.tape) (ok-injective h) v
  visit_front-Counts ((n, o) ∷ rest) t s' v h = elim (Bool-cases (is_self_trade cmd o)) [
    | inl own ↦
        subst (λ (x : Sweep). Counts start quantity x.tape) (ok-injective (rw own at h))
          (prevent-Counts start quantity cmd n o rest t v)
    | inr other ↦ fill_front-Counts start quantity cmd n o rest t s' v (rw other at h)
  ]

  visit-Counts :
      (s s' : Sweep)
      → Counts start quantity s.tape
      → sweep_test s ≡ true
      → visit cmd s ≡ ok s'
      → Counts start quantity s'.tape
  unfolding visit
  visit-Counts s s' v more h = visit_front-Counts s.level s.tape s' v h

  sweep-Counts :
      (level : Level) (t : Tape) (s : Sweep)
      → Counts start quantity t
      → sweep cmd level t ≡ ok s
      → Counts start quantity s.tape
  unfolding sweep
  sweep-Counts level t s v h =
      while-keeps (λ (x : Sweep). Counts start quantity x.tape) sweep_test (visit cmd) visit-Counts
        (suc (length level)) (record { level = level; tape = t }) s v h

  match_best-Counts :
      (o : Option (ℤ × Level)) (m m' : Matching)
      → Counts start quantity m.tape
      → match_best cmd o m ≡ ok m'
      → Counts start quantity m'.tape
  unfolding match_best
  match_best-Counts none m m' v h =
      subst (λ (x : Matching). Counts start quantity x.tape) (ok-injective h) v
  match_best-Counts (some (price, level)) m m' v h =
      let (s, ran, last) = bind-ok (sweep cmd level m.tape) _ h in
      subst (λ (x : Matching). Counts start quantity x.tape) (ok-injective last)
        (sweep-Counts level m.tape s v ran)

  match_all-Counts :
      (levels : Levels) (t : Tape) (m : Matching)
      → Counts start quantity t
      → match_all cmd levels t ≡ ok m
      → Counts start quantity m.tape
  unfolding match_all match_step
  match_all-Counts levels t m v h =
      while-keeps (λ (x : Matching). Counts start quantity x.tape) (match_test cmd) (match_step cmd)
        (λ x x' w more k. match_best-Counts (best cmd.side x.levels) x x' w k) (suc (length levels))
        (record { levels = levels; tape = t }) m v h

-- The events of an answer count on from `start`, and the trades add up to `quantity` at most.
abbrev pub Answers : ℤ → ℤ → Output → Type 0
Answers start quantity out = Numbered start out.1 out.0.sequence × (traded out.2 ≤ℤ quantity)

-- What an output shows of the tape that it is made from.
abbrev shown : Output → ℤ × List ExecEvent × List Trade
shown out = (out.0.sequence, out.1, out.2)

Counts-Answers :
    (start quantity : ℤ) (out : Output) (t : Tape)
    → Counts start quantity t
    → shown out ≡ (t.sequence, t.events, t.trades)
    → Answers start quantity out
Counts-Answers start quantity out t v same =
    rw (ap (λ x. x.0) same, ap (λ x. x.1) same, ap (λ x. x.2) same) (v.numbered, omega int_laws)

settle-Answers :
    (start quantity : ℤ) (tif : TimeInForce) (cmd : AddOrder) (e : Engine) (b : Book) (t : Tape)
    (out : Output)
    → Counts start quantity t
    → settle tif cmd e b t ≡ ok out
    → Answers start quantity out
unfolding settle check_not_crossed rest_order
settle-Answers start quantity gtc cmd e b t out v h =
    Counts-Answers start quantity out _ (emit-Counts start quantity _ cmd.symbol _ t v)
      (ap shown (sym (guard-ok _ _ _ out h)))
settle-Answers start quantity ioc cmd e b t out v h =
    Counts-Answers start quantity out _ (emit-Counts start quantity _ cmd.symbol _ t v)
      (ap shown (sym (ok-injective h)))
settle-Answers start quantity market cmd e b t out v h =
    Counts-Answers start quantity out _ (emit-Counts start quantity _ cmd.symbol _ t v)
      (ap shown (sym (ok-injective h)))
settle-Answers start quantity fok cmd e b t out v h =
    Counts-Answers start quantity out t v (ap shown (sym (ok-injective h)))

finish-Answers :
    (start quantity : ℤ) (cmd : AddOrder) (e : Engine) (b : Book) (m : Matching) (out : Output)
    → Counts start quantity m.tape
    → finish cmd e b m ≡ ok out
    → Answers start quantity out
unfolding finish
finish-Answers start quantity cmd e b m out v h =
    elim (Bool-cases (ltb_ℤ (pos 0) m.tape.remaining)) [
      | inl left ↦
          settle-Answers start quantity cmd.time_in_force cmd e _ m.tape out v (rw left at h)
      | inr none_left ↦
          Counts-Answers start quantity out m.tape v
            (ap shown (sym (ok-injective (rw none_left at h))))
    ]

opening-Counts :
    (cmd : AddOrder) (e : Engine)
    → pos 0 ≤ℤ cmd.quantity
    → Counts e.sequence cmd.quantity (opening cmd e)
unfolding opening traded
opening-Counts cmd e h = record { numbered = (refl, refl); left = h; bounded = omega int_laws }

traded-none : traded [] ≡ pos 0
unfolding traded
traded-none = refl

pub add-Answers :
    (e : Engine) (cmd : AddOrder) (out : Output)
    → pos 0 ≤ℤ cmd.quantity
    → add e cmd ≡ ok out
    → Answers e.sequence cmd.quantity out
unfolding add reject event next_sequence
add-Answers e cmd out positive h =
    let b = book_for e.books cmd.symbol in
    elim (Bool-cases (is_unfillable cmd b)) [
      | inl refused ↦
          subst (Answers e.sequence cmd.quantity) (ok-injective (rw refused at h))
            ((refl, refl), subst (λ x. x ≤ℤ cmd.quantity) (sym traded-none) positive)
      | inr taken ↦
          let (m, ran, rest) =
            bind-ok (match_all cmd (side_of (opposite cmd.side) b) (opening cmd e)) (finish cmd e b)
              (rw taken at h) in
          finish-Answers e.sequence cmd.quantity cmd e b m out
            (match_all-Counts e.sequence cmd.quantity cmd _ (opening cmd e) m
              (opening-Counts cmd e positive) ran)
            rest
    ]
