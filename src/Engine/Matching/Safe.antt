-- ===== src/Engine/Matching/Safe.antt =====
-- The matching loops throw nothing, end by their tests, and keep the book and the index in order.
use matching_engine_cpp.Base.{
  ap, ℕ, suc, ◌<◌, ℤ, pos, ◌<ℤ◌, ltb_ℤ, [], ◌∷◌, Option, ◌≡◌, refl, Bool, true, if◌then◌else◌,
  length, arith, ◌⊎◌, inl, inr, Bool-cases, int_eq, Result, ok, Ends, while-Ends,
}
use matching_engine_cpp.Types.{opposite, AddOrder}
use matching_engine_cpp.Engine.{Location}
use matching_engine_cpp.Engine.PriceMap.{RestingOrder, NodeId, Level}
use matching_engine_cpp.Engine.PriceMap.Nodes.{Orders}
use matching_engine_cpp.Engine.Matching.{
  Tape, Sweep, is_self_trade, visit_front, visit, sweep_test, sweep,
}
use matching_engine_cpp.Engine.Matching.Rounds.{
  AllLive, read_list, fill_front_lem, Taken, Kept, prevent-Round, filled-Round, pop-AllLive,
  update-AllLive,
}

-- What is left to do: the rounds of a loop are at most the entries before it.
abbrev pub rounds : Tape → ℕ → ℕ
rounds t n = if ltb_ℤ (pos 0) t.remaining then n else 0

module _ (cmd : AddOrder) (price : ℤ) (next : ℕ) (here : Location → Bool)
    (elsewhere : Location → Option RestingOrder) where
  -- The list under the loop, and the index, are in order.
  pub record SweepOk (s : Sweep) : Type 0 where
    pub orders : Orders cmd.symbol (opposite cmd.side) next price s.level
    pub live : AllLive (read_list here elsewhere s.level) s.tape.index

  Taken-SweepOk :
      (n : NodeId) (o : RestingOrder) (rest : Level) (t : Tape) (s : Sweep)
      → SweepOk (record { level = (n, o) ∷ rest; tape = t })
      → Taken o rest t s
      → SweepOk s
  Taken-SweepOk n o rest t s v h = record {
    orders = rw h.0 v.orders.1;
    live = rw (h.0, h.1) (pop-AllLive here elsewhere n o rest t.index v.live);
  }

  Kept-SweepOk :
      (n : NodeId) (o : RestingOrder) (rest : Level) (t : Tape) (s : Sweep)
      → SweepOk (record { level = (n, o) ∷ rest; tape = t })
      → Kept n o rest t s
      → SweepOk s
  Kept-SweepOk n o rest t s v (x, e, p, l, i, r) = record {
    orders = rw l (ground arith, v.orders.1);
    live = rw (l, i) (update-AllLive here elsewhere n o x rest t.index (ground arith) v.live);
  }

  abbrev pub Goes : Level → Tape → Result Sweep → Type 0
  Goes level t r =
      (s : Sweep) × (r ≡ ok s)
      × SweepOk s
      × (rounds s.tape (length s.level) < rounds t (length level))

  Round-Goes :
      (n : NodeId) (o : RestingOrder) (rest : Level) (t : Tape) (s : Sweep)
      → SweepOk (record { level = (n, o) ∷ rest; tape = t })
      → pos 0 <ℤ t.remaining
      → Taken o rest t s ⊎ Kept n o rest t s
      → Goes ((n, o) ∷ rest) t (ok s)
  Round-Goes n o rest t s v h (inl k) =
      (s, refl, Taken-SweepOk n o rest t s v k, ground (arith, ap length k.0))
  Round-Goes n o rest t s v h (inr k) = (s, refl, Kept-SweepOk n o rest t s v k, ground arith)

  pub visit_front-Goes :
      (level : Level) (t : Tape)
      → SweepOk (record { level = level; tape = t })
      → sweep_test (record { level = level; tape = t }) ≡ true
      → Goes level t (visit_front cmd level t)
  unfolding visit_front
  visit_front-Goes [] t v test = absurd (ground arith)
  visit_front-Goes ((n, o) ∷ rest) t v test =
      let h : pos 0 <ℤ t.remaining = ground arith in
      let k = v.orders.0.positive in
      elim (Bool-cases (is_self_trade cmd o)) [
        | inl self ↦ rw self (Round-Goes n o rest t _ v h (prevent-Round cmd n o rest t self k))
        | inr other ↦
            rw (other, fill_front_lem cmd n o rest t h k v.orders.0.same_symbol)
              (Round-Goes n o rest t _ v h (filled-Round cmd n o rest t h k))
      ]

  -- The inner loop ends by its test, with the list and the index in order.
  pub sweep-Ends :
      (level : Level) (t : Tape)
      → SweepOk (record { level = level; tape = t })
      → Ends SweepOk sweep_test (sweep cmd level t)
  unfolding sweep visit
  sweep-Ends level t v =
      while-Ends SweepOk (λ s. rounds s.tape (length s.level)) sweep_test (visit cmd)
        (λ s w test. visit_front-Goes s.level s.tape w test) (suc (length level)) _ v (ground arith)
