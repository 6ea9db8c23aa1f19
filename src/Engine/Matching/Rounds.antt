-- ===== src/Engine/Matching/Rounds.antt =====
-- One round of the inner loop: which of its tests pass at a well-formed list, and what it leaves of
-- the list and the index.
use matching_engine_cpp.Base.{
  eq_of_parts, ◌==◌, ℤ, pos, ◌-ℤ◌, ◌<ℤ◌, eqb_ℤ, -ℤ_parts, text_eq_iff, ◌∷◌, Option, some, ◌≡◌, refl,
  Bool, true, ◌&&◌, if◌then◌else◌, arith, ◌⊎◌, inl, inr, Bool-cases, int_eq, find, erase,
  find-erase-some, ok,
}
use matching_engine_cpp.Types.{AddOrder}
use matching_engine_cpp.Engine.{Index, Location}
use matching_engine_cpp.Engine.PriceMap.{RestingOrder, NodeId, Level, find_node}
use matching_engine_cpp.Engine.Matching.{
  Tape, emit, Sweep, trade_of, build_trade, fill_quantity, record_fill, fill_front, is_self_trade,
  prevent, cancels_passive,
}

-- An iterator of the entry `k` reads an order whose id is `k`.
abbrev pub Target : ℤ → Option RestingOrder → Type 0
Target k r = (o : RestingOrder) × (r ≡ some o) × (o.order_id ≡ k)

-- Every entry of the index has a target, for a way to read iterators.
abbrev pub AllLive : (Location → Option RestingOrder) → Index → Type 0
AllLive read index = (k : ℤ) (loc : Location) → find k index ≡ some loc → Target k (read loc)

-- How iterators are read while one list is under the loop: those that point into it, and others.
abbrev pub read_list :
    (Location → Bool) → (Location → Option RestingOrder) → Level → Location → Option RestingOrder
read_list here elsewhere l loc = if here loc then find_node loc.iter l else elsewhere loc

abbrev pub after_fill : RestingOrder → ℤ → RestingOrder
after_fill o fill = record o { remaining = o.remaining -ℤ fill }

abbrev pub fill_at : Tape → RestingOrder → ℤ
fill_at t o = fill_quantity t.remaining o.remaining

-- The state after a fill at the front.
abbrev pub filled : AddOrder → NodeId → RestingOrder → Level → Tape → Sweep
filled cmd n o rest t =
    record_fill cmd n (after_fill o (fill_at t o)) rest t (fill_at t o)
      (trade_of cmd.side cmd (after_fill o (fill_at t o)) (fill_at t o))

-- No exception is thrown at the front of a well-formed list.
pub fill_front_lem :
    (cmd : AddOrder) (n : NodeId) (o : RestingOrder) (rest : Level) (t : Tape)
    → pos 0 <ℤ t.remaining
    → pos 0 <ℤ o.remaining
    → cmd.symbol ≡ o.symbol
    → fill_front cmd n o rest t ≡ ok (filled cmd n o rest t)
unfolding fill_front build_trade
fill_front_lem cmd n o rest t h k e =
    ground (arith, (text_eq_iff cmd.symbol o.symbol).1 e, -ℤ_parts o.remaining (fill_at t o))

-- The round takes the front off the list and its entry off the index ...
abbrev pub Taken : RestingOrder → Level → Tape → Sweep → Type 0
Taken o rest t s = (s.level ≡ rest) × (s.tape.index ≡ erase o.order_id t.index)

-- ... or keeps it, with another volume, and the order that is being matched has none left.
abbrev pub Kept : NodeId → RestingOrder → Level → Tape → Sweep → Type 0
Kept n o rest t s =
    (x : RestingOrder) × (x ≡ record o { remaining = x.remaining })
    × (pos 0 <ℤ x.remaining)
    × (s.level ≡ (n, x) ∷ rest)
    × (s.tape.index ≡ t.index)
    × (s.tape.remaining ≡ pos 0)

module _ (cmd : AddOrder) (n : NodeId) (o : RestingOrder) (rest : Level) (t : Tape) where
  pub prevent-Round :
      is_self_trade cmd o ≡ true
      → pos 0 <ℤ o.remaining
      → Taken o rest t (prevent cmd n o rest t) ⊎ Kept n o rest t (prevent cmd n o rest t)
  unfolding is_self_trade prevent emit
  prevent-Round self h = elim (Bool-cases (cancels_passive cmd.stp)) [
    | inl c ↦ inl (ground arith)
    | inr c ↦ inr (o, refl, h, ground arith, ground arith, ground arith)
  ]

  pub filled-Round :
      pos 0 <ℤ t.remaining
      → pos 0 <ℤ o.remaining
      → Taken o rest t (filled cmd n o rest t) ⊎ Kept n o rest t (filled cmd n o rest t)
  unfolding record_fill emit
  filled-Round h k = elim (Bool-cases (eqb_ℤ (o.remaining -ℤ fill_at t o) (pos 0))) [
    | inl c ↦ inl (ground arith)
    | inr c ↦ inr (
      after_fill o (fill_at t o),
      refl,
      ground (arith, -ℤ_parts o.remaining (fill_at t o)),
      ground arith,
      ground arith,
      ground (
        arith,
        -ℤ_parts t.remaining (fill_at t o),
        -ℤ_parts o.remaining (fill_at t o),
        eq_of_parts t.remaining (fill_at t o),
        eq_of_parts (t.remaining -ℤ fill_at t o) (pos 0),
      ),
    )
  ]

module _ (here : Location → Bool) (elsewhere : Location → Option RestingOrder) where
  -- The front is taken off the list, and its entry off the index.
  pub pop-AllLive :
      (n : NodeId) (o : RestingOrder) (rest : Level) (index : Index)
      → AllLive (read_list here elsewhere ((n, o) ∷ rest)) index
      → AllLive (read_list here elsewhere rest) (erase o.order_id index)
  unfolding find_node
  pop-AllLive n o rest index live k loc h =
      let (other, found) = find-erase-some o.order_id k index h in
      let (x, e, i) = live k loc found in (x, ground arith, i)

  -- The front changes its volume only.
  pub update-AllLive :
      (n : NodeId) (o x : RestingOrder) (rest : Level) (index : Index)
      → x.order_id ≡ o.order_id
      → AllLive (read_list here elsewhere ((n, o) ∷ rest)) index
      → AllLive (read_list here elsewhere ((n, x) ∷ rest)) index
  unfolding find_node
  update-AllLive n o x rest index e live k loc h =
      let (y, r, i) = live k loc h in
      elim (Bool-cases (here loc && n == loc.iter)) [
        | inl front ↦ (x, ground arith, ground arith)
        | inr other ↦ (y, ground arith, i)
      ]
