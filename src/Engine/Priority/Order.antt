-- ===== src/Engine/Priority/Order.antt =====
-- A side of a book from its best price: what the best entry is, and what a write at it leaves.
use matching_engine_cpp.Base.{
  ◌≡◌, refl, ap, subst, ◌∙◌, none, some, [], ◌∷◌, ◌++◌, reverse, append-nil, arith, ℤ, ◌<ℤ◌,
  eqb_ℤ_iff,
}
use mathlib.Core.List.{reverse-append}
use matching_engine_cpp.Engine.PriceMap.{
  Level, Levels, first, last, set_level, erase_level, put_level,
}
use matching_engine_cpp.Engine.PriceMap.Laws.{Above, IsSorted, last-All}
use matching_engine_cpp.Engine.Matching.{best}
use matching_engine_cpp.Engine.Priority.{best_first_for}
use matching_engine_cpp.Types.{Side, buy, sell}

-- An entry with a list, and no entry where the list is empty.
abbrev pub entry_of : ℤ → Level → Levels
entry_of p [] = []
entry_of p (x ∷ l) = (p, x ∷ l) ∷ []

erase_level-absent : (p : ℤ) (m : Levels) → Above p m → erase_level p m ≡ m
unfolding erase_level
erase_level-absent p [] a = refl
erase_level-absent p ((q, k) ∷ m) a = ground (arith, a.0, erase_level-absent p m a.1)

put_level-head :
    (p : ℤ) (l l' : Level) (m : Levels)
    → Above p m
    → put_level p l' ((p, l) ∷ m) ≡ entry_of p l' ++ m
unfolding put_level set_level erase_level
put_level-head p l [] m a = rw ((eqb_ℤ_iff p p).1 refl) (erase_level-absent p m a)
put_level-head p l (x ∷ l') m a = rw ((eqb_ℤ_iff p p).1 refl)

put_level-tail :
    (p q : ℤ) (k l' : Level) (m : Levels)
    → q <ℤ p
    → put_level p l' ((q, k) ∷ m) ≡ (q, k) ∷ put_level p l' m
unfolding put_level set_level erase_level
put_level-tail p q k [] m h = ground arith
put_level-tail p q k (x ∷ l') m h = ground arith

abbrev EndsWith : ℤ → Level → Levels → Type 0
EndsWith p l m =
    (init : Levels) × (m ≡ init ++ ((p, l) ∷ []))
    × ((l' : Level) → put_level p l' m ≡ init ++ entry_of p l')

last-EndsWith :
    (p : ℤ) (l : Level) (m : Levels) → IsSorted m → last m ≡ some (p, l) → EndsWith p l m
unfolding last
last-EndsWith p l [] s e = absurd (cc)
last-EndsWith p l ((q, k) ∷ []) s e =
    let same : q ≡ p = ground arith in
    let list : k ≡ l = ground arith in
    rw (same, list) ([], refl, λ l'. put_level-head p l l' [] tt ∙ append-nil (entry_of p l'))
last-EndsWith p l ((q, k) ∷ (r, j) ∷ m) s e =
    let above : q <ℤ p = last-All (λ x. q <ℤ x.0) ((r, j) ∷ m) e s.0 in
    let (init, shape, put) = last-EndsWith p l ((r, j) ∷ m) s.1 e in
    (
      (q, k) ∷ init,
      ap (λ t. (q, k) ∷ t) shape,
      λ l'. put_level-tail p q k l' ((r, j) ∷ m) above ∙ ap (λ t. (q, k) ∷ t) (put l'),
    )

abbrev pub BeginsWith : Side → ℤ → Level → Levels → Type 0
BeginsWith d p l m =
    (rest : Levels) × (best_first_for d m ≡ (p, l) ∷ rest)
    × ((l' : Level) → best_first_for d (put_level p l' m) ≡ entry_of p l' ++ rest)

reverse-entry_of : (p : ℤ) (l : Level) → reverse (entry_of p l) ≡ entry_of p l
reverse-entry_of p [] = refl
reverse-entry_of p (x ∷ l) = refl

-- The best entry is the first from the best price; writing its list changes that entry only.
pub best-BeginsWith :
    (d : Side) (p : ℤ) (l : Level) (m : Levels)
    → IsSorted m
    → best d m ≡ some (p, l)
    → BeginsWith d p l m
unfolding best first
best-BeginsWith buy p l [] s e = absurd (cc)
best-BeginsWith buy p l ((q, k) ∷ m) s e =
    let same : q ≡ p = ground arith in
    let list : k ≡ l = ground arith in
    (
      m,
      rw (same, list),
      λ l'. rw (same, list) (put_level-head p l l' m (subst (λ r. Above r m) same s.0)),
    )
best-BeginsWith sell p l m s e =
    let (init, shape, put) = last-EndsWith p l m s e in
    (
      reverse init,
      rw shape (reverse-append init ((p, l) ∷ [])),
      λ l'. rw (put l') (
          reverse-append init (entry_of p l')
          ∙ ap (λ t. t ++ reverse init) (reverse-entry_of p l')),
    )

pub best-none : (d : Side) (m : Levels) → best d m ≡ none → m ≡ []
unfolding best first last
best-none d [] e = refl
best-none buy (x ∷ m) e = absurd (cc)
best-none sell (x ∷ []) e = absurd (cc)
best-none sell (x ∷ y ∷ m) e = let empty : (y ∷ m) ≡ [] = best-none sell (y ∷ m) e in absurd (cc)
