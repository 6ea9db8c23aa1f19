-- ===== src/Base/Assoc.antt =====
-- `std::unordered_map` as an association list: `find`, `operator[] =` and `erase`. The order of the
-- list is the order in which the map is walked.
use matching_engine_cpp.Base.Names.{
  ◌≡◌, ◌≢◌, ◌⊎◌, refl, ◌↔◌, Bool, true, List, [], ◌∷◌, Option, none, some, arith,
}
use matching_engine_cpp.Base.Tests.{if◌then◌else◌}
use matching_engine_cpp.Base.Int.{ℤ, eqb_ℤ, eqb_ℤ_iff}
use matching_engine_cpp.Base.Bytes.{Text, text_eq, text_eq_iff}

pub record Eq {ℓ} (K : Type ℓ) : Type ℓ where
  pub beq : K → K → Bool
  pub beq_iff : (a b : K) → (beq a b ≡ true) ↔ (a ≡ b)

instance abbrev pub int_eq : Eq ℤ
int_eq = record { beq = eqb_ℤ; beq_iff = eqb_ℤ_iff }

instance abbrev pub text_eq_instance : Eq Text
text_eq_instance = record { beq = text_eq; beq_iff = text_eq_iff }

module _ {ℓ κ} {K : Type ℓ} {V : Type κ} ⦃e : Eq K⦄ where
  unfoldable pub find : K → List (K × V) → Option V
  find k [] = none
  find k ((j, v) ∷ m) = if e.beq j k then some v else find k m

  unfoldable pub insert : K → V → List (K × V) → List (K × V)
  insert k v [] = (k, v) ∷ []
  insert k v ((j, w) ∷ m) = if e.beq j k then (j, v) ∷ m else (j, w) ∷ insert k v m

  unfoldable pub erase : K → List (K × V) → List (K × V)
  erase k [] = []
  erase k ((j, w) ∷ m) = if e.beq j k then erase k m else (j, w) ∷ erase k m

  pub find-insert :
      (k j : K) (v : V) (m : List (K × V))
      → find j (insert k v m) ≡ (if e.beq k j then some v else find j m)
  unfolding find insert
  find-insert k j v [] = refl
  find-insert k j v ((i, w) ∷ m) =
      ground (arith, e.beq_iff k j, e.beq_iff i k, e.beq_iff i j, find-insert k j v m)

  pub find-erase :
      (k j : K) (m : List (K × V)) → find j (erase k m) ≡ (if e.beq k j then none else find j m)
  unfolding find erase
  find-erase k j [] = ground arith
  find-erase k j ((i, w) ∷ m) =
      ground (arith, e.beq_iff k j, e.beq_iff i k, e.beq_iff i j, find-erase k j m)

  -- What is found after an erasure is another key's, and was there before.
  pub find-erase-some :
      (k j : K) (m : List (K × V)) {v : V}
      → find j (erase k m) ≡ some v
      → (k ≢ j) × (find j m ≡ some v)
  find-erase-some k j m h = ground (arith, find-erase k j m, e.beq_iff k j)

  -- What is found after an insertion is the new value, or another key's.
  pub find-insert-some :
      (k j : K) (v : V) (m : List (K × V)) {w : V}
      → find j (insert k v m) ≡ some w
      → ((k ≡ j) × (v ≡ w)) ⊎ ((k ≢ j) × (find j m ≡ some w))
  find-insert-some k j v m h = ground (arith, find-insert k j v m, e.beq_iff k j)

  pub find-insert_self : (k : K) (v : V) (m : List (K × V)) → find k (insert k v m) ≡ some v
  find-insert_self k v m = ground (arith, find-insert k k v m, e.beq_iff k k)

  pub find-insert_ne :
      (k j : K) (v : V) (m : List (K × V)) → k ≢ j → find j (insert k v m) ≡ find j m
  find-insert_ne k j v m h = ground (arith, find-insert k j v m, e.beq_iff k j)

  pub find-erase_self : (k : K) (m : List (K × V)) → find k (erase k m) ≡ none
  find-erase_self k m = ground (arith, find-erase k k m, e.beq_iff k k)
