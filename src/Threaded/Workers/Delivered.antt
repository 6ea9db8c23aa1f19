-- ===== src/Threaded/Workers/Delivered.antt =====
-- Which results of a shard's answers can come out of its outbound queue, and in which order.
use matching_engine_cpp.Base.{◌≡◌, refl, ap, ◌⊎◌, inl, inr, List, [], ◌∷◌, ◌++◌}
use matching_engine_cpp.Threaded.{ResultMsg}
use matching_engine_cpp.Threaded.Workers.{emptied}

-- A result as it was, or emptied.
abbrev pub Came : ResultMsg → ResultMsg → Type 0
Came x y = (y ≡ x) ⊎ (y ≡ emptied x)

-- The second list has results of the first, in its order and each once at most, and behind a move some.
abbrev pub Delivers : List ResultMsg → List ResultMsg → Type 0
Delivers [] [] = Unit {0}
Delivers [] (y ∷ ys) = ⊥
Delivers (x ∷ xs) [] = Unit {0}
Delivers (x ∷ xs) (y ∷ ys) = (Came x y × Delivers xs ys) ⊎ Delivers xs (y ∷ ys)

pub Delivers-none : (xs : List ResultMsg) → Delivers xs []
Delivers-none [] = tt
Delivers-none (x ∷ xs) = tt

-- One more answer, and its result.
pub Delivers-snoc :
    (xs ys : List ResultMsg) (r : ResultMsg)
    → Delivers xs ys
    → Delivers (xs ++ (r ∷ [])) (ys ++ (r ∷ []))
Delivers-snoc [] [] r h = inl (inl refl, tt)
Delivers-snoc [] (y ∷ ys) r h = absurd h
Delivers-snoc (x ∷ xs) [] r h = inr (Delivers-snoc xs [] r (Delivers-none xs))
Delivers-snoc (x ∷ xs) (y ∷ ys) r (inl (came, h)) = inl (came, Delivers-snoc xs ys r h)
Delivers-snoc (x ∷ xs) (y ∷ ys) r (inr h) = inr (Delivers-snoc xs (y ∷ ys) r h)

-- The last result is emptied.
pub Delivers-emptied :
    (xs ys : List ResultMsg) (r : ResultMsg)
    → Delivers xs (ys ++ (r ∷ []))
    → Delivers xs (ys ++ (emptied r ∷ []))
Delivers-emptied [] [] r h = absurd h
Delivers-emptied [] (y ∷ ys) r h = absurd h
Delivers-emptied (x ∷ xs) [] r (inl (inl e, h)) = inl (inr (ap emptied e), h)
Delivers-emptied (x ∷ xs) [] r (inl (inr e, h)) = inl (inr (ap emptied e), h)
Delivers-emptied (x ∷ xs) [] r (inr h) = inr (Delivers-emptied xs [] r h)
Delivers-emptied (x ∷ xs) (y ∷ ys) r (inl (came, h)) = inl (came, Delivers-emptied xs ys r h)
Delivers-emptied (x ∷ xs) (y ∷ ys) r (inr h) = inr (Delivers-emptied xs (y ∷ ys) r h)

-- The last result is dropped.
pub Delivers-dropped :
    (xs ys : List ResultMsg) (r : ResultMsg) → Delivers xs (ys ++ (r ∷ [])) → Delivers xs ys
Delivers-dropped [] [] r h = absurd h
Delivers-dropped [] (y ∷ ys) r h = absurd h
Delivers-dropped (x ∷ xs) [] r h = tt
Delivers-dropped (x ∷ xs) (y ∷ ys) r (inl (came, h)) = inl (came, Delivers-dropped xs ys r h)
Delivers-dropped (x ∷ xs) (y ∷ ys) r (inr h) = inr (Delivers-dropped xs (y ∷ ys) r h)
