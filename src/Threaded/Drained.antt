-- ===== src/Threaded/Drained.antt =====
-- Draining takes everything, shard by shard, the oldest first.
use matching_engine_cpp.Base.{ℕ, zero, suc, ◌<◌, ◌≡◌, refl, List, [], ◌∷◌, ◌++◌, arith, length, ok}
use matching_engine_cpp.Spsc.{SpscQueue, pop}
use matching_engine_cpp.Spsc.Bounded.{Holds, pop-Holds, length-Holds}
use matching_engine_cpp.Threaded.{drain_queue, drain}

module _ {T : Type 0} where
  drain_queue-Holds :
      (fuel k : ℕ) (q : SpscQueue T) (xs : List T)
      → Holds k q xs
      → length xs < fuel
      → (q' : SpscQueue T) × (drain_queue fuel q ≡ ok (xs, q')) × Holds k q' []
  unfolding drain_queue
  drain_queue-Holds zero k q xs h enough = absurd (omega arith)
  drain_queue-Holds (suc fuel) k q [] h enough =
      let popped = pop-Holds k q [] h in rw popped.0 ((pop q).0, refl, popped.1)
  drain_queue-Holds (suc fuel) k q (x ∷ xs) h enough =
      let popped = pop-Holds k q (x ∷ xs) h in
      let rest = drain_queue-Holds fuel k (pop q).0 xs popped.1 (omega arith) in
      rw (popped.0, rest.1) (rest.0, refl, rest.2)

  -- The queues hold these items, one list each.
  abbrev pub HoldAll : ℕ → List (SpscQueue T) → List (List T) → Type 0
  HoldAll k [] [] = Unit {0}
  HoldAll k [] (xs ∷ xss) = ⊥
  HoldAll k (q ∷ qs) [] = ⊥
  HoldAll k (q ∷ qs) (xs ∷ xss) = Holds k q xs × HoldAll k qs xss

  abbrev pub all_items : List (List T) → List T
  all_items [] = []
  all_items (xs ∷ xss) = xs ++ all_items xss

  abbrev pub none_each : List (List T) → List (List T)
  none_each [] = []
  none_each (xs ∷ xss) = [] ∷ none_each xss

  le-capacity : (k : ℕ) (q : SpscQueue T) (xs : List T) → Holds k q xs → length xs < suc q.capacity
  le-capacity k q xs (t, n, v) = omega (arith, length-Holds k t n q xs v, v.room, v.capacity)

  -- Where the queues hold the items `xss`, one list each, `drain` gives all of them, queue by queue and
  -- in each the oldest first, and leaves the queues empty.
  pub drain-HoldAll :
      (k : ℕ) (qs : List (SpscQueue T)) (xss : List (List T))
      → HoldAll k qs xss
      → (qs' : List (SpscQueue T)) × (drain qs ≡ ok (all_items xss, qs'))
        × HoldAll k qs' (none_each xss)
  unfolding drain
  drain-HoldAll k [] [] h = ([], refl, tt)
  drain-HoldAll k [] (xs ∷ xss) h = absurd h
  drain-HoldAll k (q ∷ qs) [] h = absurd h
  drain-HoldAll k (q ∷ qs) (xs ∷ xss) h =
      let one = drain_queue-Holds (suc q.capacity) k q xs h.0 (le-capacity k q xs h.0) in
      let rest = drain-HoldAll k qs xss h.1 in
      rw (one.1, rest.1) (one.0 ∷ rest.0, refl, (one.2, rest.2))
