-- ===== src/Base/Loop.antt =====
-- Code that throws, and `while` loops. A loop runs on fuel; the rule below shows that it ends by its
-- own test before the fuel is used up.
use matching_engine_cpp.Base.Names.{
  ◌⊎◌, refl, subst, ℕ, zero, suc, ◌<◌, ◌≡◌, Bool, true, false, inl, inr, arith,
}
use matching_engine_cpp.Base.Tests.{Bool-cases, if◌then◌else◌}
use matching_engine_cpp.Base.Bytes.{Text}

-- `threw` carries the message of the exception. `dangling` is undefined behaviour: a read or an
-- erase through an iterator whose node is gone. `stuck` is a loop that used up its fuel.
pub data Error : Type 0 where
  threw : Text → Error
  dangling stuck : Error

-- What a function returns, or why it does not.
pub data Result {ℓ} (T : Type ℓ) : Type ℓ where
  err : Error → Result T
  ok : T → Result T

infixl 5 ◌>>=◌ ◌>>◌
abbrev pub ◌>>=◌ {ℓ κ} : {S : Type ℓ} {T : Type κ} → Result S → (S → Result T) → Result T
◌>>=◌ (err why) next = err why
◌>>=◌ (ok s) next = next s

-- `if (!test) throw why;` before what follows.
abbrev pub guard : Bool → Error → Result (Unit {0})
guard test why = if test then ok tt else err why

abbrev pub ◌>>◌ {ℓ} : {T : Type ℓ} → Result (Unit {0}) → Result T → Result T
◌>>◌ (err why) after = err why
◌>>◌ (ok done) after = after

-- `while (test(s)) body(s);`
unfoldable pub while {ℓ} : {S : Type ℓ} → ℕ → (S → Bool) → (S → Result S) → S → Result S
while zero test body s = err stuck
while (suc fuel) test body s =
    let next = body s >>= while fuel test body in if test s then next else ok s

-- What a loop returns: it ends by its test, in a state where `P` holds.
abbrev pub Ends {ℓ κ} : {S : Type ℓ} → (S → Type κ) → (S → Bool) → Result S → Type (ℓ ⊔ κ)
Ends {S = S} P test r = (s : S) × (r ≡ ok s) × P s × (test s ≡ false)

module _ {ℓ κ} {S : Type ℓ} (P : S → Type κ) (measure : S → ℕ) (test : S → Bool)
    (body : S → Result S)
    (keep : (s : S)
      → P s
      → test s ≡ true
      → (s' : S) × (body s ≡ ok s') × P s' × (measure s' < measure s)) where
  -- An invariant that the body keeps, with a falling measure, gives total correctness of the loop.
  pub while-Ends :
      (fuel : ℕ) (s : S) → P s → measure s < fuel → Ends P test (while fuel test body s)
  unfolding while
  while-Ends zero s p h = absurd (omega arith)
  while-Ends (suc fuel) s p h = elim (Bool-cases (test s)) [
    | inr done ↦ (s, rw done, p, done)
    | inl more ↦
        let (s', e, p', lt) = keep s p more in rw (more, e) (while-Ends fuel s' p' (omega arith))
  ]

pub ok-injective {ℓ} : {S : Type ℓ} {a b : S} → ok a ≡ ok b → a ≡ b
ok-injective h = cc

-- What returns behind a test.
pub guard-ok : {T : Type 0} (c : Bool) (x : Error) (a b : T) → (guard c x >> ok a) ≡ ok b → a ≡ b
guard-ok true x a b h = ok-injective h
guard-ok false x a b h = absurd (cc)

-- A bind that returns had something to go on with.
pub bind-ok {ℓ κ} :
    {S : Type ℓ} {T : Type κ} (b : Result S) (f : S → Result T) {r : T}
    → (b >>= f) ≡ ok r
    → (s : S) × (b ≡ ok s) × (f s ≡ ok r)
bind-ok (err e) f h = absurd (cc)
bind-ok (ok s) f h = (s, refl, h)

module _ {ℓ κ} {S : Type ℓ} (P : S → Type κ) (test : S → Bool) (body : S → Result S)
    (keep : (s s' : S) → P s → test s ≡ true → body s ≡ ok s' → P s') where
  -- What every round keeps holds of the state in which the loop returns.
  pub while-keeps : (fuel : ℕ) (s r : S) → P s → while fuel test body s ≡ ok r → P r
  unfolding while
  while-keeps zero s r p h = absurd (cc)
  while-keeps (suc fuel) s r p h = elim (Bool-cases (test s)) [
    | inr done ↦ subst P (ok-injective (rw done at h)) p
    | inl more ↦
        let (s', eq, k) = bind-ok (body s) (while fuel test body) (rw more at h) in
        while-keeps fuel s' r (keep s s' p more eq) k
  ]

pub Result-cases {ℓ} :
    {T : Type ℓ} (r : Result T) → ((x : Error) × (r ≡ err x)) ⊎ ((t : T) × (r ≡ ok t))
Result-cases (err x) = inl (x, refl)
Result-cases (ok t) = inr (t, refl)
