-- ===== src/Spsc/Threads.antt =====
-- The two threads, one access to the shared memory at a time. Each loads its own counter relaxed and
-- the other's with acquire, writes or reads a slot, and stores its own counter with release: under
-- that order a thread sees every access before a store that it has loaded, as it does here.
use Prim.Native.Nat.{bit_and}
use matching_engine_cpp.Base.{◌+◌, ◌%◌, List, [], ◌∷◌, ◌++◌, ltb, ◌==◌, if◌then◌else◌}
use matching_engine_cpp.Spsc.{SpscQueue, word_size, distance, store}

-- Where the producer stands in `push value`.
pub data Producer {ℓ} (T : Type ℓ) : Type ℓ where
  outside : Producer T
  started : T → Producer T
  has_room : T → Producer T
  written : T → Producer T

-- Where the consumer stands in `pop`.
pub data Consumer {ℓ} (T : Type ℓ) : Type ℓ where
  idle : Consumer T
  has_item : Consumer T
  took : T → Consumer T

-- The queue, the two threads, and what they have done: the values whose `push` returned true, and
-- those that a `pop` returned.
pub record System {ℓ} (T : Type ℓ) : Type ℓ where
  pub queue : SpscQueue T
  pub producer : Producer T
  pub consumer : Consumer T
  pub pushed : List T
  pub popped : List T

-- Whose turn it is; the producer brings the value of its next `push`.
pub data Move {ℓ} (T : Type ℓ) : Type ℓ where
  produce : T → Move T
  consume : Move T

module _ {ℓ} {T : Type ℓ} where
  -- The next access of the producer. A `push` that finds no room is over.
  unfoldable pub produce_at : Producer T → T → System T → System T
  produce_at outside value s = record s { producer = started value }
  produce_at (started v) value s =
      if ltb s.queue.capacity (distance ((s.queue.head + 1) % word_size) s.queue.tail)
      then record s { producer = outside }
      else record s { producer = has_room v }
  produce_at (has_room v) value s = record s {
    queue = record s.queue { slots = store (bit_and s.queue.head s.queue.mask) v s.queue.slots };
    producer = written v;
  }
  produce_at (written v) value s = record s {
    queue = record s.queue { head = (s.queue.head + 1) % word_size };
    producer = outside;
    pushed = s.pushed ++ (v ∷ []);
  }

  -- The next access of the consumer. A `pop` that finds no item is over.
  unfoldable pub consume_at : Consumer T → System T → System T
  consume_at idle s = if s.queue.tail == s.queue.head then s else record s { consumer = has_item }
  consume_at has_item s = record s {
    consumer = took (s.queue.slots (bit_and s.queue.tail s.queue.mask));
  }
  consume_at (took v) s = record s {
    queue = record s.queue { tail = (s.queue.tail + 1) % word_size };
    consumer = idle;
    popped = s.popped ++ (v ∷ []);
  }

  unfoldable pub step : Move T → System T → System T
  unfolding produce_at consume_at
  step (produce value) s = produce_at s.producer value s
  step consume s = consume_at s.consumer s

  -- The threads take turns in any order.
  unfoldable pub run : List (Move T) → System T → System T
  unfolding step
  run [] s = s
  run (m ∷ ms) s = run ms (step m s)

  -- Both threads about to start, on a queue.
  abbrev pub initial_system : SpscQueue T → System T
  initial_system q = record {
    queue = q;
    producer = outside;
    consumer = idle;
    pushed = [];
    popped = [];
  }
