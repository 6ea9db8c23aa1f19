-- ===== src/Spsc/Tests.antt =====
-- A queue of four slots, alone and between two threads.
use matching_engine_cpp.Base.{
  ℕ, ◌+◌, ◌-◌, ◌^◌, ◌≤◌, ◌≡◌, refl, true, false, some, List, [], ◌∷◌, ◌++◌, arith, ◌==◌,
  if◌then◌else◌, length, stuck, ok, err,
}
use matching_engine_cpp.Spsc.{SpscQueue, create, push, pop, empty, round_up_pow2, grow_pow2}
use matching_engine_cpp.Spsc.Threads.{Move, produce, consume, run, initial_system}
use matching_engine_cpp.Spsc.Window.{window}
use matching_engine_cpp.Spsc.Bounded.{Holds, queue-Holds}
use matching_engine_cpp.Spsc.Capacity.{IsRounded, round_up_pow2-IsRounded, grow_pow2-stuck}
use matching_engine_cpp.Spsc.Fifo.{run-in_order}

round_up_pow2-IsRounded_example : (k p : ℕ) × (round_up_pow2 1000 ≡ ok p) × IsRounded 1000 k p
round_up_pow2-IsRounded_example = round_up_pow2-IsRounded 1000 (omega arith)

grow_pow2-stuck_example : grow_pow2 1000000 1 (2 ^ 63 + 1) ≡ err stuck
grow_pow2-stuck_example = grow_pow2-stuck 1000000 (2 ^ 63 + 1) (omega arith)

-- Two values go in while one comes out.
abbrev moves : List (Move ℕ)
moves =
    produce 7
    ∷ produce 7
    ∷ produce 7
    ∷ consume
    ∷ produce 7
    ∷ produce 8
    ∷ consume
    ∷ produce 8
    ∷ consume
    ∷ produce 8
    ∷ consume
    ∷ produce 8
    ∷ []

run-in_order_example :
    (q : SpscQueue ℕ) × (waiting : List ℕ) × (create 3 0 ≡ ok q)
    × (3 ≤ q.capacity)
    × ((run moves (initial_system q)).pushed ≡ (run moves (initial_system q)).popped ++ waiting)
    × (length waiting ≤ q.capacity)
run-in_order_example = run-in_order 3 0 moves (omega arith)

-- The counters are about to wrap around.
abbrev late_queue : SpscQueue ℕ
late_queue = record {
  capacity = 4;
  mask = 3;
  slots = λ i. if i == 3 then 5 else 6;
  head = 0;
  tail = 2 ^ 64 - 1;
}

late_queue-Holds : Holds 2 late_queue (5 ∷ [])
unfolding window
late_queue-Holds = (
  2 ^ 64 - 1,
  1,
  record {
    small = omega arith;
    capacity = refl;
    mask = refl;
    head = refl;
    tail = refl;
    room = omega arith;
    order = refl;
  },
)

queue-Holds_example :
    ((push late_queue 9).1 ≡ true)
    × Holds 2 (push late_queue 9).0 (5 ∷ 9 ∷ [])
    × ((pop late_queue).1 ≡ some 5)
    × Holds 2 (pop late_queue).0 []
    × (empty late_queue ≡ false)
queue-Holds_example = queue-Holds 2 late_queue (5 ∷ []) 9 late_queue-Holds

-- What the moves do.
moves-run :
    (q : SpscQueue ℕ) × (create 3 0 ≡ ok q) × ((run moves (initial_system q)).popped ≡ 7 ∷ [])
unfolding create run
moves-run = (_, refl, refl)
