-- ===== src/Spsc/Fifo.antt =====
-- Whatever turns the threads take, the queue is a bounded first-in first-out queue.
use matching_engine_cpp.Base.{
  ℕ, zero, suc, ◌+◌, ◌%◌, ◌^◌, ◌≤◌, ◌<◌, ◌≡◌, refl, ap, ◌∙◌, inl, inr, List, [], ◌∷◌, ◌++◌, arith,
  ltb, ◌==◌, ==_iff, Bool-cases, length, ok,
}
use matching_engine_cpp.Spsc.{create, SpscQueue, store}
use matching_engine_cpp.Spsc.Threads.{
  Producer, outside, started, has_room, written, Consumer, idle, has_item, took, System, Move,
  produce, consume, produce_at, consume_at, step, run, initial_system,
}
use matching_engine_cpp.Spsc.Masks.{mod-ne}
use matching_engine_cpp.Spsc.Ring.{
  create-IsRing, IsRing, is_full-window, IsRing-store, head_index, tail_index, IsRing-push,
  IsRing-pop, not_empty,
}
use matching_engine_cpp.Spsc.Window.{window, length-window}

module _ {T : Type 0} where
  -- What the producer knows at each place, with `n` items behind the counter `t`.
  abbrev pub ProducerOk : Producer T → (ℕ → T) → ℕ → ℕ → ℕ → Type 0
  ProducerOk outside slots k t n = Unit {0}
  ProducerOk (started v) slots k t n = Unit {0}
  ProducerOk (has_room v) slots k t n = n < 2 ^ k
  ProducerOk (written v) slots k t n = (n < 2 ^ k) × (slots ((t + n) % 2 ^ k) ≡ v)

  abbrev pub ConsumerOk : Consumer T → (ℕ → T) → ℕ → ℕ → ℕ → Type 0
  ConsumerOk idle slots k t n = Unit {0}
  ConsumerOk has_item slots k t n = 0 < n
  ConsumerOk (took v) slots k t n = (0 < n) × (slots (t % 2 ^ k) ≡ v)

  pub record IsFifo (k t n : ℕ) (s : System T) : Type 0 where
    pub ring : IsRing k t n s.queue s.pushed s.popped
    pub producer : ProducerOk s.producer s.queue.slots k t n
    pub consumer : ConsumerOk s.consumer s.queue.slots k t n

  abbrev pub Fifo : ℕ → System T → Type 0
  Fifo k s = (t n : ℕ) × IsFifo k t n s

  consumer-store :
      (c : Consumer T) (slots : ℕ → T) (k t n : ℕ) (value : T)
      → n < 2 ^ k
      → ConsumerOk c slots k t n
      → ConsumerOk c (store ((t + n) % 2 ^ k) value slots) k t n
  consumer-store idle slots k t n value h v = tt
  consumer-store has_item slots k t n value h v = v
  consumer-store (took x) slots k t n value h v =
      let apart = mod-ne (2 ^ k) t (t + n) (omega (arith, v.0)) (omega arith) in (v.0, rw apart v.1)

  consumer_suc :
      (c : Consumer T) (slots : ℕ → T) (k t n : ℕ)
      → ConsumerOk c slots k t n
      → ConsumerOk c slots k t (suc n)
  consumer_suc idle slots k t n v = tt
  consumer_suc has_item slots k t n v = omega arith
  consumer_suc (took x) slots k t n v = (omega arith, v.1)

  producer_next :
      (p : Producer T) (slots : ℕ → T) (k t n : ℕ)
      → ProducerOk p slots k t (suc n)
      → ProducerOk p slots k (t + 1) n
  producer_next outside slots k t n v = tt
  producer_next (started x) slots k t n v = tt
  producer_next (has_room x) slots k t n v = omega arith
  producer_next (written x) slots k t n v =
      let e : t + 1 + n ≡ t + suc n = omega arith in
      (omega (arith, v.0), ap (λ i. slots (i % 2 ^ k)) e ∙ v.1)

  produce_at-Fifo :
      (p : Producer T) (value : T) (k t n : ℕ) (s : System T)
      → IsRing k t n s.queue s.pushed s.popped
      → ProducerOk p s.queue.slots k t n
      → ConsumerOk s.consumer s.queue.slots k t n
      → Fifo k (produce_at p value s)
  unfolding produce_at
  produce_at-Fifo outside value k t n s v a c =
      (t, n, record { ring = v; producer = tt; consumer = c })
  produce_at-Fifo (started x) value k t n s v a c = elim (Bool-cases (ltb (2 ^ k) (n + 1))) [
    | inl full ↦
        rw (is_full-window k t n s.queue s.pushed s.popped v, full)
          (t, n, record { ring = v; producer = tt; consumer = c })
    | inr room ↦
        rw (is_full-window k t n s.queue s.pushed s.popped v, room)
          (t, n, record { ring = v; producer = ground (arith, room); consumer = c })
  ]
  produce_at-Fifo (has_room x) value k t n s v a c =
      rw (head_index k t n s.queue s.pushed s.popped v) (
        t,
        n,
        record {
          ring = IsRing-store k t n s.queue s.pushed s.popped x v a;
          producer = (a, rw ((==_iff ((t + n) % 2 ^ k) ((t + n) % 2 ^ k)).1 refl) refl);
          consumer = consumer-store s.consumer s.queue.slots k t n x a c;
        },
      )
  produce_at-Fifo (written x) value k t n s v a c = (
    t,
    suc n,
    record {
      ring = IsRing-push k t n s.queue s.pushed s.popped x v a.0 a.1;
      producer = tt;
      consumer = consumer_suc s.consumer s.queue.slots k t n c;
    },
  )

  consume_at-Fifo :
      (c : Consumer T) (k t n : ℕ) (s : System T)
      → IsRing k t n s.queue s.pushed s.popped
      → ProducerOk s.producer s.queue.slots k t n
      → ConsumerOk s.consumer s.queue.slots k t n
      → ConsumerOk c s.queue.slots k t n
      → Fifo k (consume_at c s)
  unfolding consume_at
  consume_at-Fifo idle k t n s v a old c = elim (Bool-cases (s.queue.tail == s.queue.head)) [
    | inl none_waits ↦ rw none_waits (t, n, record { ring = v; producer = a; consumer = old })
    | inr waits ↦ rw waits (
      t,
      n,
      record {
        ring = v;
        producer = a;
        consumer = not_empty k t n s.queue s.pushed s.popped v waits;
      },
    )
  ]
  consume_at-Fifo has_item k t n s v a old c =
      rw (tail_index k t n s.queue s.pushed s.popped v)
        (t, n, record { ring = v; producer = a; consumer = (c, refl) })
  consume_at-Fifo (took x) k t zero s v a old c = absurd (omega (arith, c.0))
  consume_at-Fifo (took x) k t (suc n) s v a old c = (
    t + 1,
    n,
    record {
      ring = IsRing-pop k t n s.queue s.pushed s.popped x v c.1;
      producer = producer_next s.producer s.queue.slots k t n a;
      consumer = tt;
    },
  )

  step-Fifo : (k : ℕ) (m : Move T) (s : System T) → Fifo k s → Fifo k (step m s)
  unfolding step
  step-Fifo k (produce value) s (t, n, v) =
      produce_at-Fifo s.producer value k t n s v.ring v.producer v.consumer
  step-Fifo k consume s (t, n, v) =
      consume_at-Fifo s.consumer k t n s v.ring v.producer v.consumer v.consumer

  run-Fifo : (k : ℕ) (ms : List (Move T)) (s : System T) → Fifo k s → Fifo k (run ms s)
  unfolding run
  run-Fifo k [] s v = v
  run-Fifo k (m ∷ ms) s v = run-Fifo k ms (step m s) (step-Fifo k m s v)

  -- `create` makes a queue for a size of at most 2 ^ 63, with room for that many at least, and then,
  -- whatever turns the two threads take: the values that `push` took are those that `pop` gave, in the
  -- same order, and behind them those that wait, at most as many as the capacity.
  pub run-in_order :
      (size : ℕ) (blank : T) (ms : List (Move T))
      → size ≤ 2 ^ 63
      → (q : SpscQueue T) × (waiting : List T) × (create size blank ≡ ok q)
        × (size ≤ q.capacity)
        × ((run ms (initial_system q)).pushed ≡ (run ms (initial_system q)).popped ++ waiting)
        × (length waiting ≤ q.capacity)
  run-in_order size blank ms h =
      let (q, k, made, ring, large) = create-IsRing size blank h in
      let start : Fifo k (initial_system q) =
        (0, 0, record { ring = ring; producer = tt; consumer = tt }) in
      let (t, n, v) = run-Fifo k ms (initial_system q) start in
      let slots = (run ms (initial_system q)).queue.slots in
      (
        q,
        window k slots t n,
        made,
        large,
        v.ring.order,
        omega (arith, length-window k slots t n, v.ring.room, ring.capacity),
      )
