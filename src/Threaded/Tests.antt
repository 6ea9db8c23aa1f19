-- ===== src/Threaded/Tests.antt =====
-- Two queues that are drained.
use matching_engine_cpp.Base.{ℕ, ◌≡◌, refl, List, [], ◌∷◌, arith, ◌==◌, if◌then◌else◌, ok}
use matching_engine_cpp.Spsc.{SpscQueue}
use matching_engine_cpp.Spsc.Window.{window}
use matching_engine_cpp.Spsc.Bounded.{Holds}
use matching_engine_cpp.Threaded.{drain}
use matching_engine_cpp.Threaded.Drained.{HoldAll, drain-HoldAll}

abbrev queue_of_two : SpscQueue ℕ
queue_of_two = record {
  capacity = 2;
  mask = 1;
  slots = λ i. if i == 0 then 5 else 6;
  head = 3;
  tail = 1;
}

queue_of_two-Holds : Holds 1 queue_of_two (6 ∷ 5 ∷ [])
unfolding window
queue_of_two-Holds = (
  1,
  2,
  record {
    small = omega arith;
    capacity = refl;
    mask = refl;
    head = refl;
    tail = refl;
    room = omega arith;
    order = refl;
  },
)

drain-HoldAll_example :
    (qs' : List (SpscQueue ℕ)) × (drain (queue_of_two ∷ queue_of_two ∷ [])
      ≡ ok (6 ∷ 5 ∷ 6 ∷ 5 ∷ [], qs'))
    × HoldAll 1 qs' ([] ∷ [] ∷ [])
drain-HoldAll_example =
    drain-HoldAll 1 (queue_of_two ∷ queue_of_two ∷ []) ((6 ∷ 5 ∷ []) ∷ (6 ∷ 5 ∷ []) ∷ [])
      (queue_of_two-Holds, (queue_of_two-Holds, tt))
