-- ===== src/Spsc/Ring.antt =====
-- The queue's fields when `n` items wait behind the counter `t`, and what a write and the steps of
-- the counters do to them.
use Prim.Native.Nat.{bit_and}
use matching_engine_cpp.Base.{
  ℕ, zero, suc, ◌+◌, ◌-◌, ◌%◌, ◌^◌, ◌≤◌, ◌<◌, ◌≡◌, refl, sym, ap, ◌∙◌, false, List, [], ◌∷◌, ◌++◌,
  append_assoc, arith, ltb, ◌==◌, ok,
}
use matching_engine_cpp.Spsc.{SpscQueue, word_size, distance, store, create}
use matching_engine_cpp.Spsc.Capacity.{round_up_pow2-IsRounded}
use matching_engine_cpp.Spsc.Window.{
  index_lem, capacity_fits, distance_lem, window, window-store, window-snoc,
}

pub room_fits : (k n : ℕ) → k ≤ 63 → n ≤ 2 ^ k → n ≤ 2 ^ 63
room_fits k n small h = omega (arith, capacity_fits k small)

module _ {T : Type 0} where
  -- The counters are the remainders of `t + n` and `t`; the slots between them hold what was pushed
  -- and not popped, in order.
  pub record IsRing (k t n : ℕ) (q : SpscQueue T) (pushed popped : List T) : Type 0 where
    pub small : k ≤ 63
    pub capacity : q.capacity ≡ 2 ^ k
    pub mask : q.mask ≡ 2 ^ k - 1
    pub head : q.head ≡ (t + n) % word_size
    pub tail : q.tail ≡ t % word_size
    pub room : n ≤ 2 ^ k
    pub order : pushed ≡ popped ++ window k q.slots t n

  pub is_full-window :
      (k t n : ℕ) (q : SpscQueue T) (pushed popped : List T)
      → IsRing k t n q pushed popped
      → ltb q.capacity (distance ((q.head + 1) % word_size) q.tail) ≡ ltb (2 ^ k) (n + 1)
  is_full-window k t n q pushed popped v =
      rw (v.capacity, v.head, v.tail, distance_lem t n (room_fits k n v.small v.room))

  -- The slot that the producer writes is none of those that wait, nor the one the consumer reads.
  pub IsRing-store :
      (k t n : ℕ) (q : SpscQueue T) (pushed popped : List T) (value : T)
      → IsRing k t n q pushed popped
      → n < 2 ^ k
      → IsRing k t n (record q { slots = store ((t + n) % 2 ^ k) value q.slots }) pushed popped
  IsRing-store k t n q pushed popped value v h = record {
    small = v.small;
    capacity = v.capacity;
    mask = v.mask;
    head = v.head;
    tail = v.tail;
    room = v.room;
    order =
        v.order
        ∙ ap (λ w. popped ++ w)
            (sym (window-store k q.slots (t + n) value t n (omega arith) (omega arith)));
  }

  pub head_index :
      (k t n : ℕ) (q : SpscQueue T) (pushed popped : List T)
      → IsRing k t n q pushed popped
      → bit_and q.head q.mask ≡ (t + n) % 2 ^ k
  head_index k t n q pushed popped v = rw (v.head, v.mask) (index_lem k (t + n) v.small)

  pub tail_index :
      (k t n : ℕ) (q : SpscQueue T) (pushed popped : List T)
      → IsRing k t n q pushed popped
      → bit_and q.tail q.mask ≡ t % 2 ^ k
  tail_index k t n q pushed popped v = rw (v.tail, v.mask) (index_lem k t v.small)

  pub IsRing-push :
      (k t n : ℕ) (q : SpscQueue T) (pushed popped : List T) (value : T)
      → IsRing k t n q pushed popped
      → n < 2 ^ k
      → q.slots ((t + n) % 2 ^ k) ≡ value
      → IsRing k t
          (suc n)
          (record q { head = (q.head + 1) % word_size })
          (pushed ++ (value ∷ []))
          popped
  IsRing-push k t n q pushed popped value v h e = record {
    small = v.small;
    capacity = v.capacity;
    mask = v.mask;
    head = omega (arith, v.head);
    tail = v.tail;
    room = omega arith;
    order =
        ap (λ l. l ++ (value ∷ [])) v.order
        ∙ append_assoc popped (window k q.slots t n) (value ∷ [])
        ∙ ap (λ w. popped ++ w)
            (ap (λ x. window k q.slots t n ++ (x ∷ [])) (sym e) ∙ sym (window-snoc k q.slots t n));
  }

  pub IsRing-pop :
      (k t n : ℕ) (q : SpscQueue T) (pushed popped : List T) (value : T)
      → IsRing k t (suc n) q pushed popped
      → q.slots (t % 2 ^ k) ≡ value
      → IsRing k
          (t + 1)
          n
          (record q { tail = (q.tail + 1) % word_size })
          pushed
          (popped ++ (value ∷ []))
  unfolding window
  IsRing-pop k t n q pushed popped value v e = record {
    small = v.small;
    capacity = v.capacity;
    mask = v.mask;
    head = v.head ∙ ap (λ x. x % word_size) (omega arith);
    tail = omega (arith, v.tail);
    room = omega (arith, v.room);
    order =
        v.order
        ∙ ap (λ x. popped ++ (x ∷ window k q.slots (t + 1) n)) e
        ∙ sym (append_assoc popped (value ∷ []) (window k q.slots (t + 1) n));
  }

  pub not_empty :
      (k t n : ℕ) (q : SpscQueue T) (pushed popped : List T)
      → IsRing k t n q pushed popped
      → (q.tail == q.head) ≡ false
      → 0 < n
  not_empty k t zero q pushed popped v waits =
      let e : q.tail ≡ q.head = omega (arith, v.head, v.tail) in absurd (ground (arith, e, waits))
  not_empty k t (suc n) q pushed popped v waits = omega arith

  -- A queue that was made for a size of at most 2 ^ 63 is empty and has room for that many.
  pub create-IsRing :
      (size : ℕ) (blank : T)
      → size ≤ 2 ^ 63
      → (q : SpscQueue T) × (k : ℕ) × (create size blank ≡ ok q)
        × IsRing k 0 0 q [] []
        × (size ≤ q.capacity)
  unfolding create window
  create-IsRing size blank h =
      let (k, p, made, rounded) = round_up_pow2-IsRounded size h in
      rw made (
        record { capacity = p; mask = p - 1; slots = λ i. blank; head = 0; tail = 0 },
        k,
        refl,
        record {
          small = rounded.0;
          capacity = rounded.1;
          mask = ap (λ x. x - 1) rounded.1;
          head = refl;
          tail = refl;
          room = omega arith;
          order = refl;
        },
        rounded.2,
      )
