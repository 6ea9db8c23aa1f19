-- ===== src/Spsc/Bounded.antt =====
-- `create`, `push` and `pop` against a list of the items that wait.
use matching_engine_cpp.Base.{
  ℕ, zero, suc, ◌+◌, ◌%◌, ◌^◌, ◌<◌, ◌≡◌, refl, sym, ap, ◌∙◌, inl, inr, true, false, Option, none,
  some, List, [], ◌∷◌, ◌++◌, arith, ltb, ◌==◌, if◌then◌else◌, ==_iff, Bool-cases, length, is_empty,
}
use matching_engine_cpp.Spsc.{word_size, SpscQueue, push, pop, empty}
use matching_engine_cpp.Spsc.Window.{same_counter, window, length-window}
use matching_engine_cpp.Spsc.Ring.{
  room_fits, IsRing, is_full-window, room_fits, IsRing-store, head_index, tail_index, IsRing-push,
  IsRing-pop,
}

same_test : (a b : ℕ) → (a == b) ≡ (b == a)
same_test a b = ground arith

module _ {T : Type 0} where
  -- The queue holds the items `xs`, the oldest first.
  abbrev pub Holds : ℕ → SpscQueue T → List T → Type 0
  Holds k q xs = (t n : ℕ) × IsRing k t n q xs []

  abbrev pub first_item : List T → Option T
  first_item [] = none
  first_item (x ∷ xs) = some x

  abbrev pub other_items : List T → List T
  other_items [] = []
  other_items (x ∷ xs) = xs

  pub length-Holds :
      (k t n : ℕ) (q : SpscQueue T) (xs : List T) → IsRing k t n q xs [] → n ≡ length xs
  length-Holds k t n q xs v = sym (ap length v.order ∙ length-window k q.slots t n)

  pub push-Holds :
      (k : ℕ) (q : SpscQueue T) (xs : List T) (value : T)
      → Holds k q xs
      → let taken = ltb (length xs) (2 ^ k) in
        ((push q value).1 ≡ taken)
        × Holds k (push q value).0 (if taken then xs ++ (value ∷ []) else xs)
  unfolding push
  push-Holds k q xs value (t, n, v) =
      let e = length-Holds k t n q xs v in
      elim (Bool-cases (ltb (2 ^ k) (n + 1))) [
        | inl full ↦
            let no_room : ltb (length xs) (2 ^ k) ≡ false = ground (arith, e, full) in
            rw (is_full-window k t n q xs [] v, full, no_room) (refl, (t, n, v))
        | inr room ↦
            let fits : ltb (length xs) (2 ^ k) ≡ true = ground (arith, e, room) in
            let small : n < 2 ^ k = ground (arith, room) in
            rw (is_full-window k t n q xs [] v, room, fits, head_index k t n q xs [] v)
              (
                refl,
                (
                  t,
                  suc n,
                  IsRing-push k t n _ xs [] value (IsRing-store k t n q xs [] value v small) small
                      (rw ((==_iff ((t + n) % 2 ^ k) ((t + n) % 2 ^ k)).1 refl) refl),
                ),
              )
      ]

  -- Nothing waits exactly where the counters are equal.
  counters_equal :
      (k t n : ℕ) (q : SpscQueue T) (xs : List T)
      → IsRing k t n q xs []
      → (q.tail == q.head) ≡ is_empty xs
  unfolding window
  counters_equal k t zero q xs v =
      let e : q.tail ≡ q.head = omega (arith, v.head, v.tail) in
      rw v.order ((==_iff q.tail q.head).1 e)
  counters_equal k t (suc n) q xs v = elim (Bool-cases (q.tail == q.head)) [
    | inr other ↦ rw v.order other
    | inl same ↦
        let e : q.tail ≡ q.head = (==_iff q.tail q.head).0 same in
        let e' : t % word_size ≡ (t + suc n) % word_size = omega (arith, e, v.head, v.tail) in
        let none_waits = same_counter t (suc n) (room_fits k (suc n) v.small v.room) e' in
        absurd (omega (arith, none_waits))
  ]

  IsRing-rest :
      (k t n : ℕ) (q : SpscQueue T) (x y : T) (xs : List T)
      → IsRing k t n q (x ∷ xs) (y ∷ [])
      → IsRing k t n q xs []
  IsRing-rest k t n q x y xs v = record {
    small = v.small;
    capacity = v.capacity;
    mask = v.mask;
    head = v.head;
    tail = v.tail;
    room = v.room;
    order = ap other_items v.order;
  }

  pub pop-Holds :
      (k : ℕ) (q : SpscQueue T) (xs : List T)
      → Holds k q xs
      → ((pop q).1 ≡ first_item xs) × Holds k (pop q).0 (other_items xs)
  unfolding pop window
  pop-Holds k q [] (t, n, v) = rw (counters_equal k t n q [] v) (refl, (t, n, v))
  pop-Holds k q (x ∷ xs) (t, zero, v) = absurd (omega (arith, length-Holds k t zero q (x ∷ xs) v))
  pop-Holds k q (x ∷ xs) (t, suc n, v) =
      rw (counters_equal k t (suc n) q (x ∷ xs) v, tail_index k t (suc n) q (x ∷ xs) [] v)
        (
          sym (ap first_item v.order),
          (t + 1, n, IsRing-rest k (t + 1) n _ x _ xs (IsRing-pop k t n q (x ∷ xs) [] _ v refl)),
        )

  -- On a queue of capacity `2 ^ k` that holds the items `xs`, `push` answers whether fewer than `2 ^ k`
  -- wait and then adds the value behind them, `pop` gives the first item, if there is one, and keeps
  -- the others, and `empty` answers whether there is none.
  pub queue-Holds :
      (k : ℕ) (q : SpscQueue T) (xs : List T) (value : T)
      → Holds k q xs
      → let taken = ltb (length xs) (2 ^ k) in
        ((push q value).1 ≡ taken)
        × Holds k (push q value).0 (if taken then xs ++ (value ∷ []) else xs)
        × ((pop q).1 ≡ first_item xs)
        × Holds k (pop q).0 (other_items xs)
        × (empty q ≡ is_empty xs)
  unfolding empty
  queue-Holds k q xs value h =
      let added = push-Holds k q xs value h in
      let removed = pop-Holds k q xs h in
      (
        added.0,
        added.1,
        removed.0,
        removed.1,
        same_test q.head q.tail ∙ counters_equal k h.0 h.1 q xs h.2,
      )
