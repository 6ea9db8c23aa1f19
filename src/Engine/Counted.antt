-- ===== src/Engine/Counted.antt =====
-- What the loops of `add` keep of their tape: consecutive numbers of events, and a volume that is not
-- traded twice.
pub mod Answered
pub mod Outputs
use matching_engine_cpp.Base.{
  ◌≡◌, refl, sym, subst, inl, inr, Bool, true, false, not, List, [], ◌∷◌, ◌++◌, arith, Bool-cases,
  ℤ, pos, ◌+ℤ◌, ◌-ℤ◌, ◌≤ℤ◌, ltb_ℤ, eqb_ℤ, int_laws, Text, codes, Error, threw, Result, ok, ◌>>=◌,
  ◌>>◌, guard, ok-injective, bind-ok,
}
use matching_engine_cpp.Types.{AddOrder, Trade, ExecEvent, EventType, Payload, buy, sell}
use matching_engine_cpp.Engine.{Side, event}
use matching_engine_cpp.Engine.PriceMap.{RestingOrder, NodeId, Level, Levels}
use matching_engine_cpp.Engine.Matching.{
  Tape, emit, trade_of, build_trade, Sweep, drop_passive, drop_aggressor, prevent, fill_quantity,
  record_fill, fill_front, visit_front, visit, sweep_test, sweep, Matching, match_best, match_step,
  match_test, match_all, cancels_passive, cancels_aggressor, is_self_trade, best,
}
use matching_engine_cpp.Engine.Priority.Whole.{traded}

-- The events count on from `start` and end at the number `last`.
abbrev pub Numbered : ℤ → List ExecEvent → ℤ → Type 0
Numbered start [] last = start ≡ last
Numbered start (ev ∷ evs) last = (ev.sequence ≡ start +ℤ pos 1) × Numbered (start +ℤ pos 1) evs last

pub Numbered-append :
    (a b c : ℤ) (evs more : List ExecEvent)
    → Numbered a evs b
    → Numbered b more c
    → Numbered a (evs ++ more) c
Numbered-append a b c [] more h k = subst (λ x. Numbered x more c) (sym h) k
Numbered-append a b c (ev ∷ evs) more h k = (h.0, Numbered-append (a +ℤ pos 1) b c evs more h.1 k)

traded-snoc : (ts : List Trade) (t : Trade) → traded (ts ++ (t ∷ [])) ≡ traded ts +ℤ t.quantity
unfolding traded
traded-snoc [] t = omega int_laws
traded-snoc (x ∷ ts) t = rw (traded-snoc ts t) (omega int_laws)

-- Two tests, and then what returned had something to go on with.
guards_ok :
    {S T : Type 0} (a b : Bool) (x y : Error) (m : Result S) (f : S → Result T) (r : T)
    → (guard a x >> (guard b y >> (m >>= f))) ≡ ok r
    → (s : S) × (m ≡ ok s) × (f s ≡ ok r)
guards_ok true true x y m f r h = bind-ok m f h
guards_ok true false x y m f r h = absurd (cc)
guards_ok false b x y m f r h = absurd (cc)

pub record Counts (start quantity : ℤ) (t : Tape) : Type 0 where
  pub numbered : Numbered start t.events t.sequence
  pub left : pos 0 ≤ℤ t.remaining
  pub bounded : traded t.trades +ℤ t.remaining ≤ℤ quantity

trade_of-quantity :
    (d : Side) (cmd : AddOrder) (o : RestingOrder) (qty : ℤ) → (trade_of d cmd o qty).quantity ≡ qty
unfolding trade_of
trade_of-quantity buy cmd o qty = refl
trade_of-quantity sell cmd o qty = refl

build_trade-quantity :
    (cmd : AddOrder) (o : RestingOrder) (qty : ℤ) (trade : Trade)
    → build_trade cmd o qty ≡ ok trade
    → trade.quantity ≡ qty
unfolding build_trade
build_trade-quantity cmd o qty trade h = ground (arith, trade_of-quantity cmd.side cmd o qty)

module _ (start quantity : ℤ) where
  pub emit-Counts :
      (type : EventType) (symbol : Text) (payload : Payload) (t : Tape)
      → Counts start quantity t
      → Counts start quantity (emit type symbol payload t)
  unfolding emit event
  emit-Counts type symbol payload t v = record {
    numbered = Numbered-append start t.sequence _ t.events _ v.numbered (refl, refl);
    left = v.left;
    bounded = v.bounded;
  }

  drop_passive-Counts :
      (cmd : AddOrder) (n : NodeId) (o : RestingOrder) (rest : Level) (t : Tape)
      → Counts start quantity t
      → Counts start quantity (drop_passive cmd n o rest t).tape
  unfolding drop_passive
  drop_passive-Counts cmd n o rest t v = elim (Bool-cases (cancels_passive cmd.stp)) [
    | inr keeps ↦ rw keeps v
    | inl drops ↦
        let w = emit-Counts _ cmd.symbol _ t v in
        rw drops (record { numbered = w.numbered; left = w.left; bounded = w.bounded })
  ]

  drop_aggressor-Counts :
      (cmd : AddOrder) (t : Tape)
      → Counts start quantity t
      → Counts start quantity (drop_aggressor cmd t)
  unfolding drop_aggressor
  drop_aggressor-Counts cmd t v = elim (Bool-cases (cancels_aggressor cmd.stp)) [
    | inr keeps ↦ rw keeps v
    | inl drops ↦
        let w = emit-Counts _ cmd.symbol _ t v in
        rw drops (record { numbered = w.numbered; left = omega arith; bounded = omega int_laws })
  ]

  filled-Counts :
      (fill : ℤ) (trade : Trade) (t : Tape)
      → Counts start quantity t
      → fill ≤ℤ t.remaining
      → trade.quantity ≡ fill
      → Counts start quantity
          (record t { remaining = t.remaining -ℤ fill; trades = t.trades ++ (trade ∷ []) })
  filled-Counts fill trade t v small same = record {
    numbered = v.numbered;
    left = omega int_laws;
    bounded = rw (traded-snoc t.trades trade, same) (omega int_laws);
  }

  record_fill-Counts :
      (cmd : AddOrder) (n : NodeId) (o : RestingOrder) (rest : Level) (t : Tape) (fill : ℤ)
      (trade : Trade)
      → Counts start quantity t
      → fill ≤ℤ t.remaining
      → trade.quantity ≡ fill
      → Counts start quantity (record_fill cmd n o rest t fill trade).tape
  unfolding record_fill
  record_fill-Counts cmd n o rest t fill trade v small same =
      let w = emit-Counts _ cmd.symbol _ _ (filled-Counts fill trade t v small same) in
      elim (Bool-cases (eqb_ℤ o.remaining (pos 0))) [
        | inr some_left ↦ rw some_left w
        | inl used_up ↦
            rw used_up (record { numbered = w.numbered; left = w.left; bounded = w.bounded })
      ]

  pub fill_front-Counts :
      (cmd : AddOrder) (n : NodeId) (o : RestingOrder) (rest : Level) (t : Tape) (s : Sweep)
      → Counts start quantity t
      → fill_front cmd n o rest t ≡ ok s
      → Counts start quantity s.tape
  unfolding fill_front
  fill_front-Counts cmd n o rest t s v h =
      let fill = fill_quantity t.remaining o.remaining in
      let o' = record o { remaining = o.remaining -ℤ fill } in
      let (trade, built, last) =
        guards_ok (ltb_ℤ (pos 0) fill) (not (ltb_ℤ o'.remaining (pos 0)))
          (threw (codes "non-positive fill quantity")) (threw (codes "passive overfill"))
          (build_trade cmd o' fill) (λ x. ok (record_fill cmd n o' rest t fill x)) s h in
      subst (λ (x : Sweep). Counts start quantity x.tape) (ok-injective last)
        (record_fill-Counts cmd n o' rest t fill trade v (ground arith)
          (build_trade-quantity cmd o' fill trade built))

  pub prevent-Counts :
      (cmd : AddOrder) (n : NodeId) (o : RestingOrder) (rest : Level) (t : Tape)
      → Counts start quantity t
      → Counts start quantity (prevent cmd n o rest t).tape
  unfolding prevent
  prevent-Counts cmd n o rest t v =
      drop_aggressor-Counts cmd (drop_passive cmd n o rest t).tape
        (drop_passive-Counts cmd n o rest t v)
