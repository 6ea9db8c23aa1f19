-- ===== src/Engine/Matching/Outer.antt =====
-- The outer matching loop: it throws nothing, ends by its test, and keeps the opposite side of the
-- book and the index in order.
use matching_engine_cpp.Engine.PriceMap.Laws.{
  level_at-put_level, put_level-All, first-All, last-All, first-level_at, last-level_at,
  length-erase_level-lt,
}
use matching_engine_cpp.Engine.PriceMap.Nodes.{IsEntry, IsSide, put_level-IsSide}
use matching_engine_cpp.Engine.PriceMap.{
  RestingOrder, Level, Levels, find_node, level_at, put_level,
}
use matching_engine_cpp.Engine.Matching.{
  Tape, sweep_test, Matching, best, match_test, match_best, match_step, match_all,
}
use matching_engine_cpp.Engine.Matching.Rounds.{AllLive, read_list}
use matching_engine_cpp.Engine.Matching.Safe.{rounds, sweep-Ends}
use matching_engine_cpp.Engine.{Index, Location}
use matching_engine_cpp.Types.{Side, buy, sell, opposite, AddOrder}
use matching_engine_cpp.Base.{
  ℕ, suc, ◌<◌, ◌≡◌, subst, fun_ext, inl, inr, Bool, true, false, ◌&&◌, Option, some, [], ◌∷◌, arith,
  if◌then◌else◌, Bool-cases, Option-cases, ℤ, pos, ◌<ℤ◌, eqb_ℤ, eqb_ℤ_iff, length, is_empty, All,
  Text, Result, ok, Ends, while-Ends,
}

-- How iterators are read while one side of a book is under the loop.
abbrev pub read_levels :
    (Location → Bool) → (Location → Option RestingOrder) → Levels → Location → Option RestingOrder
read_levels here elsewhere m loc =
    if here loc then find_node loc.iter (level_at loc.price m) else elsewhere loc

abbrev pub at_price : (Location → Bool) → ℤ → Location → Bool
at_price here p loc = here loc && eqb_ℤ p loc.price

pub AllLive-ext :
    (f g : Location → Option RestingOrder) (index : Index)
    → ((loc : Location) → f loc ≡ g loc)
    → AllLive f index
    → AllLive g index
AllLive-ext f g index h live = subst (λ r. AllLive r index) (fun_ext h) live

module _ (here : Location → Bool) (elsewhere : Location → Option RestingOrder) (p : ℤ)
    (m : Levels) where
  pub read_before :
      (loc : Location)
      → read_levels here elsewhere m loc
        ≡ read_list (at_price here p) (read_levels here elsewhere m) (level_at p m) loc
  read_before loc = elim (Bool-cases (eqb_ℤ p loc.price)) [
    | inl e ↦ rw (e, (eqb_ℤ_iff p loc.price).0 e) (ground arith)
    | inr e ↦ rw e (ground arith)
  ]

  read_after :
      (l : Level) (loc : Location)
      → read_list (at_price here p) (read_levels here elsewhere m) l loc
        ≡ read_levels here elsewhere (put_level p l m) loc
  read_after l loc = ground (arith, level_at-put_level p loc.price l m)

-- The best entry of a side in order is an entry, and is what the map holds at its price.
pub best-IsEntry :
    (symbol : Text) (side d : Side) (next : ℕ) (m : Levels) (p : ℤ) (l : Level)
    → IsSide symbol side next m
    → best d m ≡ some (p, l)
    → (level_at p m ≡ l) × IsEntry symbol side next (p, l)
unfolding best
best-IsEntry symbol side buy next m p l v e =
    (first-level_at m p l e, first-All (IsEntry symbol side next) m e v.entries)
best-IsEntry symbol side sell next m p l v e =
    (last-level_at m p l v.sorted e, last-All (IsEntry symbol side next) m e v.entries)

-- What all entries satisfy, the best does.
pub best-All {κ} :
    (P : ℤ × Level → Type κ) (d : Side) (m : Levels) {x : ℤ × Level}
    → best d m ≡ some x
    → All P m
    → P x
unfolding best
best-All P buy m e a = first-All P m e a
best-All P sell m e a = last-All P m e a

module _ (cmd : AddOrder) (next : ℕ) (here : Location → Bool)
    (elsewhere : Location → Option RestingOrder) (Q : ℤ → Type 0) where
  -- The opposite side and the index are in order, and the prices keep a property `Q`.
  pub record MatchOk (s : Matching) : Type 0 where
    pub side : IsSide cmd.symbol (opposite cmd.side) next s.levels
    pub keys : All (λ x. Q x.0) s.levels
    pub live : AllLive (read_levels here elsewhere s.levels) s.tape.index

  abbrev pub Advances : Matching → Result Matching → Type 0
  Advances s r =
      (s' : Matching) × (r ≡ ok s')
      × MatchOk s'
      × (rounds s'.tape (length s'.levels) < rounds s.tape (length s.levels))

  put_level-shorter :
      (p : ℤ) (l l' : Level) (m : Levels) (t t' : Tape)
      → level_at p m ≡ l
      → is_empty l ≡ false
      → pos 0 <ℤ t.remaining
      → sweep_test (record { level = l'; tape = t' }) ≡ false
      → rounds t' (length (put_level p l' m)) < rounds t (length m)
  unfolding put_level
  put_level-shorter p l [] m t t' e ne h done = ground (arith, length-erase_level-lt p m (rw e ne))
  put_level-shorter p l (x ∷ l') m t t' e ne h done =
      ground (arith, length-erase_level-lt p m (rw e ne))

  match_best-Advances :
      (s : Matching) (p : ℤ) (l : Level)
      → MatchOk s
      → pos 0 <ℤ s.tape.remaining
      → best cmd.side s.levels ≡ some (p, l)
      → Advances s (match_best cmd (some (p, l)) s)
  unfolding match_best
  match_best-Advances s p l v h e =
      let (at, entry) =
        best-IsEntry cmd.symbol (opposite cmd.side) cmd.side next s.levels p l v.side e in
      let (r, eq, w, done) =
        sweep-Ends cmd p next (at_price here p) (read_levels here elsewhere s.levels) l s.tape
          (record {
            orders = entry.1;
            live =
                rw (← at)
                  (AllLive-ext _ _ s.tape.index (read_before here elsewhere p s.levels) v.live);
          }) in
      (
        record { levels = put_level p r.level s.levels; tape = r.tape },
        rw eq,
        record {
          side =
              put_level-IsSide cmd.symbol (opposite cmd.side) next p r.level s.levels w.orders
                v.side;
          keys =
              put_level-All (λ x. Q x.0) p r.level s.levels
                (λ _. best-All (λ x. Q x.0) cmd.side s.levels e v.keys) v.keys;
          live = AllLive-ext _ _ r.tape.index (read_after here elsewhere p s.levels r.level) w.live;
        },
        put_level-shorter p l r.level s.levels s.tape r.tape at entry.0 h done,
      )

  pub match_step-Advances :
      (s : Matching) → MatchOk s → match_test cmd s ≡ true → Advances s (match_step cmd s)
  unfolding match_step match_test
  match_step-Advances s v test = elim (Option-cases (best cmd.side s.levels)) [
    | inl e ↦ absurd (ground arith)
    | inr ((p, l), e) ↦ rw e (match_best-Advances s p l v (ground arith) e)
  ]

  -- The outer loop ends by its test, with the opposite side and the index in order.
  pub match_all-Ends :
      (m : Levels) (t : Tape)
      → MatchOk (record { levels = m; tape = t })
      → Ends MatchOk (match_test cmd) (match_all cmd m t)
  unfolding match_all
  match_all-Ends m t v =
      while-Ends MatchOk (λ s. rounds s.tape (length s.levels)) (match_test cmd) (match_step cmd)
        match_step-Advances (suc (length m)) _ v (ground arith)
