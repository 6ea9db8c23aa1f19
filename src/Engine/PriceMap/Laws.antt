-- ===== src/Engine/PriceMap/Laws.antt =====
-- What a price map holds after a write, for every predicate on its entries and at every price.
use matching_engine_cpp.Base.{
  ◌≤◌, ◌<◌, ℤ, ◌<ℤ◌, eqb_ℤ, eqb_ℤ_iff, ltb_ℤ, [], ◌∷◌, some, ◌≡◌, refl, subst, false, if◌then◌else◌,
  is_empty, All, All-mono, length, arith, ltb_ℤ→lt, ltb_ℤ-other, lt→eqb_ℤ, lt→eqb_ℤ, ◌⊎◌,
  Bool-cases, inl, inr,
}
use matching_engine_cpp.Engine.PriceMap.{
  Level, Levels, level_at, set_level, erase_level, put_level, first, last,
}

-- Every key is above `p`.
abbrev pub Above : ℤ → Levels → Type 0
Above p = All (λ x. p <ℤ x.0)

-- The keys rise.
abbrev pub IsSorted : Levels → Type 0
IsSorted [] = Unit {0}
IsSorted ((p, l) ∷ m) = Above p m × IsSorted m

module _ {κ} (P : ℤ × Level → Type κ) where
  pub set_level-All :
      (p : ℤ) (l : Level) (m : Levels) → P (p, l) → All P m → All P (set_level p l m)
  unfolding set_level
  set_level-All p l [] h a = (h, tt)
  set_level-All p l ((q, k) ∷ m) h a = elim (Bool-cases (eqb_ℤ q p)) [
    | inl hit ↦ rw (hit, (eqb_ℤ_iff q p).0 hit) (h, a.1)
    | inr miss ↦ rw miss (elim (Bool-cases (ltb_ℤ p q)) [
      | inl lt ↦ rw lt (h, a)
      | inr ge ↦ rw ge (a.0, set_level-All p l m h a.1)
    ])
  ]

  pub erase_level-All : (p : ℤ) (m : Levels) → All P m → All P (erase_level p m)
  unfolding erase_level
  erase_level-All p [] a = tt
  erase_level-All p ((q, k) ∷ m) a = elim (Bool-cases (eqb_ℤ q p)) [
    | inl hit ↦ rw hit (erase_level-All p m a.1)
    | inr miss ↦ rw miss (a.0, erase_level-All p m a.1)
  ]

  pub put_level-All :
      (p : ℤ) (l : Level) (m : Levels)
      → (is_empty l ≡ false → P (p, l))
      → All P m
      → All P (put_level p l m)
  unfolding put_level
  put_level-All p [] m h a = erase_level-All p m a
  put_level-All p (x ∷ l) m h a = set_level-All p (x ∷ l) m (h refl) a

  -- The best entry on either end satisfies what all entries do.
  pub first-All : (m : Levels) {x : ℤ × Level} → first m ≡ some x → All P m → P x
  unfolding first
  first-All [] e a = cc
  first-All (y ∷ m) {x} e a = subst P (ground arith) a.0

  pub last-All : (m : Levels) {x : ℤ × Level} → last m ≡ some x → All P m → P x
  unfolding last
  last-All [] e a = cc
  last-All (y ∷ []) {x} e a = subst P (ground arith) a.0
  last-All (y ∷ z ∷ m) e a = last-All (z ∷ m) e a.1

-- Keys above a higher price are above a lower one.
pub Above-mono : (p q : ℤ) (m : Levels) → p <ℤ q → Above q m → Above p m
Above-mono p q m h a = All-mono (λ x. q <ℤ x.0) (λ x. p <ℤ x.0) m (λ x k. omega arith) a

pub set_level-IsSorted : (p : ℤ) (l : Level) (m : Levels) → IsSorted m → IsSorted (set_level p l m)
unfolding set_level
set_level-IsSorted p l [] s = (tt, tt)
set_level-IsSorted p l ((q, k) ∷ m) s = elim (Bool-cases (eqb_ℤ q p)) [
  | inl hit ↦ rw hit s
  | inr miss ↦ rw miss (elim (Bool-cases (ltb_ℤ p q)) [
    | inl lt ↦ rw lt ((ltb_ℤ→lt p q lt, Above-mono p q m (ltb_ℤ→lt p q lt) s.0), s)
    | inr ge ↦ rw ge (
      set_level-All (λ x. q <ℤ x.0) p l m (ltb_ℤ-other p q miss ge) s.0,
      set_level-IsSorted p l m s.1,
    )
  ])
]

pub erase_level-IsSorted : (p : ℤ) (m : Levels) → IsSorted m → IsSorted (erase_level p m)
unfolding erase_level
erase_level-IsSorted p [] s = tt
erase_level-IsSorted p ((q, k) ∷ m) s = elim (Bool-cases (eqb_ℤ q p)) [
  | inl hit ↦ rw hit (erase_level-IsSorted p m s.1)
  | inr miss ↦ rw miss (erase_level-All (λ x. q <ℤ x.0) p m s.0, erase_level-IsSorted p m s.1)
]

pub put_level-IsSorted : (p : ℤ) (l : Level) (m : Levels) → IsSorted m → IsSorted (put_level p l m)
unfolding put_level
put_level-IsSorted p [] m s = erase_level-IsSorted p m s
put_level-IsSorted p (x ∷ l) m s = set_level-IsSorted p (x ∷ l) m s

pub level_at-set_level :
    (p q : ℤ) (l : Level) (m : Levels)
    → level_at q (set_level p l m) ≡ (if eqb_ℤ p q then l else level_at q m)
unfolding level_at set_level
level_at-set_level p q l [] = refl
level_at-set_level p q l ((r, k) ∷ m) = ground (arith, level_at-set_level p q l m)

pub level_at-erase_level :
    (p q : ℤ) (m : Levels) → level_at q (erase_level p m) ≡ (if eqb_ℤ p q then [] else level_at q m)
unfolding level_at erase_level
level_at-erase_level p q [] = ground arith
level_at-erase_level p q ((r, k) ∷ m) = ground (arith, level_at-erase_level p q m)

-- A write is read back at its price, and no other price sees it.
pub level_at-put_level :
    (p q : ℤ) (l : Level) (m : Levels)
    → level_at q (put_level p l m) ≡ (if eqb_ℤ p q then l else level_at q m)
unfolding put_level
level_at-put_level p q [] m = level_at-erase_level p q m
level_at-put_level p q (x ∷ l) m = level_at-set_level p q (x ∷ l) m

-- What all entries satisfy, a list read at a price does, if it is not the default.
pub level_at-All {κ} :
    (P : ℤ × Level → Type κ) (p : ℤ) (m : Levels)
    → All P m
    → (level_at p m ≡ []) ⊎ P (p, level_at p m)
unfolding level_at
level_at-All P p [] a = inl refl
level_at-All P p ((q, k) ∷ m) a = elim (Bool-cases (eqb_ℤ q p)) [
  | inl hit ↦ inr (rw hit (subst (λ r. P (r, k)) ((eqb_ℤ_iff q p).0 hit) a.0))
  | inr miss ↦ rw miss (level_at-All P p m a.1)
]

pub first-level_at : (m : Levels) (p : ℤ) (l : Level) → first m ≡ some (p, l) → level_at p m ≡ l
unfolding first level_at
first-level_at [] p l e = cc
first-level_at ((q, k) ∷ m) p l e = ground arith

pub last-level_at :
    (m : Levels) (p : ℤ) (l : Level) → IsSorted m → last m ≡ some (p, l) → level_at p m ≡ l
unfolding last level_at
last-level_at [] p l s e = cc
last-level_at ((q, k) ∷ []) p l s e = ground arith
last-level_at ((q, k) ∷ (r, j) ∷ m) p l s e =
    let above : q <ℤ p = last-All (λ x. q <ℤ x.0) ((r, j) ∷ m) e s.0 in
    let ih = last-level_at ((r, j) ∷ m) p l s.1 e in rw (lt→eqb_ℤ q p above) ih

pub length-erase_level-le : (p : ℤ) (m : Levels) → length (erase_level p m) ≤ length m
unfolding erase_level
length-erase_level-le p [] = omega arith
length-erase_level-le p ((q, k) ∷ m) = ground (arith, length-erase_level-le p m)

-- Erasing a list that is not the default makes the map shorter.
pub length-erase_level-lt :
    (p : ℤ) (m : Levels) → is_empty (level_at p m) ≡ false → length (erase_level p m) < length m
unfolding erase_level level_at
length-erase_level-lt p [] h = cc
length-erase_level-lt p ((q, k) ∷ m) h =
    ground (arith, length-erase_level-le p m, length-erase_level-lt p m)

-- A price below the first key is below all.
pub first-Above :
    (x : ℤ) (m : Levels)
    → IsSorted m
    → ((p : ℤ) (l : Level) → first m ≡ some (p, l) → x <ℤ p)
    → Above x m
unfolding first
first-Above x [] s h = tt
first-Above x ((p, l) ∷ m) s h = (h p l refl, Above-mono x p m (h p l refl) s.0)

-- A price above the last key is above all.
pub last-Below :
    (x : ℤ) (m : Levels)
    → IsSorted m
    → ((p : ℤ) (l : Level) → last m ≡ some (p, l) → p <ℤ x)
    → All (λ y. y.0 <ℤ x) m
unfolding last
last-Below x [] s h = tt
last-Below x ((p, l) ∷ []) s h = (h p l refl, tt)
last-Below x ((p, l) ∷ (q, k) ∷ m) s h =
    let rest = last-Below x ((q, k) ∷ m) s.1 h in (omega (arith, s.0.0, rest.0), rest)
