-- ===== src/Engine/Snapshot/Keys.antt =====
-- Books that are found under their symbols.
use matching_engine_cpp.Base.{
  ◌≡◌, refl, sym, subst, inl, inr, true, false, List, [], ◌∷◌, append-nil, arith, Bool-cases, ℤ,
  All, All-mono, Text, text_eq, text_eq_iff, text_eq_refl, find, insert, int_eq, text_eq_instance,
}
use matching_engine_cpp.Types.{Side, buy, sell}
use matching_engine_cpp.Engine.PriceMap.{level_at}
use matching_engine_cpp.Engine.PriceMap.Laws.{IsSorted}
use matching_engine_cpp.Engine.{Engine, Book, book_for}
use matching_engine_cpp.Engine.Invariant.{IsValid}
use matching_engine_cpp.Engine.Snapshot.Again.{seen_at}
use matching_engine_cpp.Engine.Snapshot.Books.{books_at, SidesSorted, Distinct}

pub nothing_at : (s : Text) (d : Side) (p : ℤ) → seen_at [] s d p ≡ []
unfolding seen_at book_for find level_at
nothing_at s buy p = refl
nothing_at s sell p = refl

books_at_none :
    (symbol s : Text) (bs : List (Text × Book)) (d : Side) (p : ℤ)
    → text_eq symbol s ≡ true
    → All (λ x. text_eq symbol x.0 ≡ false) bs
    → books_at bs s d p ≡ []
books_at_none symbol s [] d p same h = refl
books_at_none symbol s ((r, b) ∷ bs) d p same h =
    let other : text_eq r s ≡ false =
      ground (arith, h.0, text_eq_iff symbol s, text_eq_iff r s, text_eq_iff symbol r) in
    rw other (books_at_none symbol s bs d p same h.1)

pub books_at-seen_at :
    (bs : List (Text × Book)) (s : Text) (d : Side) (p : ℤ)
    → Distinct bs
    → books_at bs s d p ≡ seen_at bs s d p
unfolding seen_at book_for find level_at
books_at-seen_at [] s d p h = sym (nothing_at s d p)
books_at-seen_at ((symbol, b) ∷ bs) s d p h = elim (Bool-cases (text_eq symbol s)) [
  | inr other ↦ rw other (books_at-seen_at bs s d p h.1)
  | inl same ↦ rw (same, books_at_none symbol s bs d p same h.0) (append-nil _)
]

-- Every entry is what is found under its symbol.
found_later :
    (symbol : Text) (b : Book) (bs rest : List (Text × Book))
    → All (λ x. text_eq symbol x.0 ≡ false) rest
    → All (λ x. book_for bs x.0 ≡ x.1) rest
    → All (λ x. book_for ((symbol, b) ∷ bs) x.0 ≡ x.1) rest
unfolding book_for find
found_later symbol b bs [] h k = tt
found_later symbol b bs (x ∷ rest) h k = (rw h.0 k.0, found_later symbol b bs rest h.1 k.1)

Distinct-found : (bs : List (Text × Book)) → Distinct bs → All (λ x. book_for bs x.0 ≡ x.1) bs
unfolding book_for find
Distinct-found [] h = tt
Distinct-found ((symbol, b) ∷ bs) h =
    (rw (text_eq_refl symbol) refl, found_later symbol b bs bs h.0 (Distinct-found bs h.1))

pub IsValid-SidesSorted : (e : Engine) → IsValid e → Distinct e.books → SidesSorted e.books
IsValid-SidesSorted e v h =
    All-mono (λ x. book_for e.books x.0 ≡ x.1) (λ x. IsSorted x.1.bids × IsSorted x.1.asks) e.books
      (λ x found.
        subst (λ b. IsSorted b.bids × IsSorted b.asks) found
          ((v.books x.0).bids.sorted, (v.books x.0).asks.sorted))
      (Distinct-found e.books h)

-- A book that is written under a symbol keeps the symbols different.
insert-All :
    (r symbol : Text) (b : Book) (bs : List (Text × Book))
    → text_eq r symbol ≡ false
    → All (λ x. text_eq r x.0 ≡ false) bs
    → All (λ x. text_eq r x.0 ≡ false) (insert symbol b bs)
unfolding insert
insert-All r symbol b [] h k = (h, tt)
insert-All r symbol b ((s, c) ∷ bs) h k = elim (Bool-cases (text_eq s symbol)) [
  | inl same ↦ rw same k
  | inr other ↦ rw other (k.0, insert-All r symbol b bs h k.1)
]

pub insert-Distinct :
    (symbol : Text) (b : Book) (bs : List (Text × Book))
    → Distinct bs
    → Distinct (insert symbol b bs)
unfolding insert
insert-Distinct symbol b [] h = (tt, tt)
insert-Distinct symbol b ((s, c) ∷ bs) h = elim (Bool-cases (text_eq s symbol)) [
  | inl same ↦ rw same h
  | inr other ↦ rw other (insert-All s symbol b bs other h.0, insert-Distinct symbol b bs h.1)
]
