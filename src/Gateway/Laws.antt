-- ===== src/Gateway/Laws.antt =====
-- The ingress ring keeps the newest commands, and the sequencer numbers them.
use matching_engine_cpp.Base.{
  ℕ, zero, suc, ◌+◌, ◌-◌, ◌≤◌, ◌<◌, ◌≡◌, refl, ap, subst, ◌∙◌, inl, inr, true, false, Option, none,
  some, List, [], ◌∷◌, ◌++◌, append-nil, append_assoc, arith, ltb, ◌==◌, ==_iff, Bool-cases, ℤ, pos,
  ◌+ℤ◌, int_laws, length, get_elem?, drop, length-append, drop-nil, Result, ok, ◌>>=◌,
}
use matching_engine_cpp.Gateway.{
  first_sequence, Command, SequencedCommand, IngressRing, push, assign,
}

-- The last `n` items of a list.
abbrev pub last_items {ℓ} : {A : Type ℓ} → ℕ → List A → List A
last_items n xs = drop (length xs - n) xs

pub push_all : IngressRing → List SequencedCommand → Result IngressRing
unfolding push
push_all r [] = ok r
push_all r (x ∷ xs) = push r x >>= λ r'. push_all r' xs

pub assign_all : ℤ → List Command → List SequencedCommand × ℤ
unfolding assign
assign_all next [] = ([], next)
assign_all next (c ∷ cs) =
    let (m, next') = assign next c in let (ms, last) = assign_all next' cs in (m ∷ ms, last)

drop-append_one {ℓ} :
    {A : Type ℓ} (n : ℕ) (xs : List A) (x : A)
    → n ≤ length xs
    → drop n (xs ++ (x ∷ [])) ≡ drop n xs ++ (x ∷ [])
drop-append_one zero xs x h = refl
drop-append_one (suc n) [] x h = absurd (omega arith)
drop-append_one (suc n) (y ∷ xs) x h = drop-append_one n xs x (omega arith)

abbrev rest_of : List SequencedCommand → List SequencedCommand
rest_of [] = []
rest_of (x ∷ xs) = xs

rest_of-drop : (n : ℕ) (xs : List SequencedCommand) → rest_of (drop n xs) ≡ drop (suc n) xs
rest_of-drop zero [] = refl
rest_of-drop zero (x ∷ xs) = refl
rest_of-drop (suc n) [] = refl
rest_of-drop (suc n) (x ∷ xs) = rest_of-drop n xs

length-drop : (n : ℕ) (xs : List SequencedCommand) → length (drop n xs) ≡ length xs - n
length-drop zero xs = omega arith
length-drop (suc n) [] = omega arith
length-drop (suc n) (x ∷ xs) = omega (arith, length-drop n xs)

abbrev ring : ℕ → List SequencedCommand → IngressRing
ring c q = record { capacity = c; queue = q }

push-room :
    (c : ℕ) (q : List SequencedCommand) (x : SequencedCommand)
    → length q < c
    → push (ring c q) x ≡ ok (ring c (q ++ (x ∷ [])))
unfolding push
push-room c q x h = let room : (length q == c) ≡ false = ground (arith, h) in rw room refl

push-full :
    (c : ℕ) (q : List SequencedCommand) (x : SequencedCommand)
    → 0 < c
    → length q ≡ c
    → push (ring c q) x ≡ ok (ring c (rest_of q ++ (x ∷ [])))
unfolding push
push-full c [] x h e = absurd (omega arith)
push-full c (y ∷ q) x h e =
    let full : (length (y ∷ q) == c) ≡ true = (==_iff (length (y ∷ q)) c).1 e in rw full refl

-- One more command is pushed, at a ring that holds the last of the history `hs`.
queue-push :
    (c : ℕ) (hs : List SequencedCommand) (x : SequencedCommand)
    → 0 < c
    → push (ring c (last_items c hs)) x ≡ ok (ring c (last_items c (hs ++ (x ∷ []))))
queue-push c hs x h = elim (Bool-cases (ltb (length hs) c)) [
  | inl room ↦
      let start : length hs - c ≡ 0 = ground arith in
      let start' : length (hs ++ (x ∷ [])) - c ≡ 0 = ground (arith, length-append hs (x ∷ [])) in
      rw (start, start') (push-room c hs x (ground (arith, room)))
  | inr full ↦
      let k : length (hs ++ (x ∷ [])) - c ≡ suc (length hs - c) =
        ground (arith, length-append hs (x ∷ [])) in
      let n : length (last_items c hs) ≡ c = ground (arith, length-drop (length hs - c) hs) in
      rw
        (
          k,
          drop-append_one (suc (length hs - c)) hs x (ground arith),
          ← rest_of-drop (length hs - c) hs,
        )
        (push-full c (last_items c hs) x h n)
]

queue-push_all :
    (c : ℕ) (xs hs : List SequencedCommand)
    → 0 < c
    → push_all (ring c (last_items c hs)) xs ≡ ok (ring c (last_items c (hs ++ xs)))
unfolding push_all
queue-push_all c [] hs h = rw (append-nil hs) refl
queue-push_all c (x ∷ xs) hs h =
    rw (queue-push c hs x h, ← append_assoc hs (x ∷ []) xs) (queue-push_all c xs (hs ++ (x ∷ [])) h)

-- Whatever commands are pushed on an empty ring of capacity `c`, not 0, no `pop_front` meets an empty
-- queue, and the ring then holds the newest `c` of the commands, in order.
pub push_all_newest :
    (c : ℕ) (xs : List SequencedCommand)
    → 0 < c
    → push_all (record { capacity = c; queue = [] }) xs
      ≡ ok (record { capacity = c; queue = last_items c xs })
push_all_newest c xs h =
    subst (λ l. push_all (ring c l) xs ≡ ok (ring c (last_items c xs)))
      (drop-nil SequencedCommand (0 - c)) (queue-push_all c xs [] h)

-- On a ring of capacity 0 `push` drops nothing and never pops an empty queue: the ring holds what it
-- held, and behind it all the commands that were pushed.
pub push_all_unbounded :
    (q xs : List SequencedCommand)
    → push_all (record { capacity = 0; queue = q }) xs
      ≡ ok (record { capacity = 0; queue = q ++ xs })
unfolding push_all push
push_all_unbounded q [] = rw (append-nil q) refl
push_all_unbounded [] (x ∷ xs) = push_all_unbounded (x ∷ []) xs
push_all_unbounded (y ∷ q) (x ∷ xs) =
    let e : (suc (length q) == 0) ≡ false = ground arith in
    rw (e, push_all, ← append_assoc (y ∷ q) (x ∷ []) xs)
      (push_all_unbounded (y ∷ (q ++ (x ∷ []))) xs)

-- The message that a command at a place becomes, under the number `n`.
abbrev pub message_at : ℕ → Option Command → Option SequencedCommand
message_at n none = none
message_at n (some c) = some (record { ingress_sequence = pos n; command = c })

next_number : (n : ℕ) → pos n +ℤ pos 1 ≡ pos (suc n)
next_number n = omega int_laws

assign_all-from :
    (cs : List Command) (n i : ℕ)
    → (get_elem? (assign_all (pos n) cs).0 i ≡ message_at (n + i) (get_elem? cs i))
      × ((assign_all (pos n) cs).1 ≡ pos (n + length cs))
unfolding assign_all
assign_all-from [] n i = (refl, ap pos (omega arith))
assign_all-from (c ∷ cs) n zero =
    let same0 : n ≡ n + 0 = omega arith in
    let same2 : suc n + length cs ≡ n + suc (length cs) = omega arith in
    let rest = assign_all-from cs (suc n) zero in
    rw (next_number n) (ap (λ k. message_at k (some c)) same0, rest.1 ∙ ap pos same2)
assign_all-from (c ∷ cs) n (suc i) =
    let same1 : suc n + i ≡ n + suc i = omega arith in
    let same2 : suc n + length cs ≡ n + suc (length cs) = omega arith in
    let rest = assign_all-from cs (suc n) i in
    rw (next_number n)
      (rest.0 ∙ ap (λ k. message_at k (get_elem? cs i)) same1, rest.1 ∙ ap pos same2)

-- A new sequencer makes of commands as many messages in the same order: at place `i`, counted from 0,
-- stands the command of place `i` under the number `i + 1`, and nothing where there is no such command.
-- It then stands at the number behind the last.
pub assign_all_lem :
    (cs : List Command) (i : ℕ)
    → (get_elem? (assign_all first_sequence cs).0 i ≡ message_at (1 + i) (get_elem? cs i))
      × ((assign_all first_sequence cs).1 ≡ pos (1 + length cs))
assign_all_lem cs i = assign_all-from cs 1 i
