-- ===== src/Symbols/Laws.antt =====
-- Ids and symbols correspond one to one, as long as the ids fit 32 bits.
use matching_engine_cpp.Base.{
  ℕ, zero, suc, ◌+◌, ◌%◌, ◌^◌, ◌≤◌, ◌<◌, ◌≡◌, refl, sym, subst, ◌∙◌, ◌≢◌, ◌⊎◌, inl, inr, none, some,
  List, [], ◌∷◌, ◌++◌, arith, Option-cases, length, get_elem?, length-append, Text, find, insert,
  find-insert-some, find-insert_self, find-insert_ne, int_eq, text_eq_instance,
}
use matching_engine_cpp.Symbols.{SymbolTable, empty_table, intern_new, intern, lookup, name, size}

-- `lookup` and `name` are inverse to one another.
pub record IsValid (t : SymbolTable) : Type 0 where
  pub named : (s : Text) (i : ℕ) → find s t.ids ≡ some i → get_elem? t.names i ≡ some s
  pub found : (s : Text) (i : ℕ) → get_elem? t.names i ≡ some s → find s t.ids ≡ some i

pub empty_table-IsValid : IsValid empty_table
empty_table-IsValid = record {
  named = λ s i h. absurd (unfold find in cc);
  found = λ s i h. absurd (cc);
}

get_elem?-append_left :
    (xs : List Text) (x y : Text) (i : ℕ)
    → get_elem? xs i ≡ some y
    → get_elem? (xs ++ (x ∷ [])) i ≡ some y
get_elem?-append_left [] x y i h = absurd (cc)
get_elem?-append_left (z ∷ xs) x y zero h = h
get_elem?-append_left (z ∷ xs) x y (suc i) h = get_elem?-append_left xs x y i h

get_elem?-append_end : (xs : List Text) (x : Text) → get_elem? (xs ++ (x ∷ [])) (length xs) ≡ some x
get_elem?-append_end [] x = refl
get_elem?-append_end (z ∷ xs) x = get_elem?-append_end xs x

get_elem?-append_cases :
    (xs : List Text) (x y : Text) (i : ℕ)
    → get_elem? (xs ++ (x ∷ [])) i ≡ some y
    → (get_elem? xs i ≡ some y) ⊎ ((i ≡ length xs) × (x ≡ y))
get_elem?-append_cases [] x y zero h = inr (refl, ground arith)
get_elem?-append_cases [] x y (suc i) h = absurd (cc)
get_elem?-append_cases (z ∷ xs) x y zero h = inl h
get_elem?-append_cases (z ∷ xs) x y (suc i) h = ground (arith, get_elem?-append_cases xs x y i h)

-- The answer of `intern`, and the table after it.
pub record Interned (t : SymbolTable) (s : Text) (out : ℕ × SymbolTable) : Type 0 where
  pub valid : IsValid out.1
  pub answer : lookup out.1 s ≡ some out.0
  pub named : name out.1 out.0 ≡ some s
  pub keeps : (r : Text) (i : ℕ) → lookup t r ≡ some i → lookup out.1 r ≡ some i
  pub grows : size t ≤ size out.1
  pub at_most_one : size out.1 ≤ size t + 1

intern_new-IsValid :
    (t : SymbolTable) (s : Text)
    → IsValid t
    → find s t.ids ≡ none
    → length t.names < 2 ^ 32
    → IsValid (intern_new t s).1
unfolding intern_new
intern_new-IsValid t s v missing room = record { named = named; found = found }
  where
    small : length t.names % 2 ^ 32 ≡ length t.names
    small = omega arith

    named :
        (r : Text) (i : ℕ)
        → find r (insert s (length t.names % 2 ^ 32) t.ids) ≡ some i
        → get_elem? (t.names ++ (s ∷ [])) i ≡ some r
    named r i h = named_cases (find-insert-some s r _ t.ids h)
      where
        named_cases :
            ((s ≡ r) × (length t.names % 2 ^ 32 ≡ i)) ⊎ ((s ≢ r) × (find r t.ids ≡ some i))
            → get_elem? (t.names ++ (s ∷ [])) i ≡ some r
        named_cases (inl (e, j)) = rw (← j, small, ← e) (get_elem?-append_end t.names s)
        named_cases (inr (ne, f)) = get_elem?-append_left t.names s r i (v.named r i f)

    found :
        (r : Text) (i : ℕ)
        → get_elem? (t.names ++ (s ∷ [])) i ≡ some r
        → find r (insert s (length t.names % 2 ^ 32) t.ids) ≡ some i
    found r i h = found_cases (get_elem?-append_cases t.names s r i h)
      where
        found_cases :
            (get_elem? t.names i ≡ some r) ⊎ ((i ≡ length t.names) × (s ≡ r))
            → find r (insert s (length t.names % 2 ^ 32) t.ids) ≡ some i
        found_cases (inl g) =
            let f = v.found r i g in
            find-insert_ne s r _ t.ids
              (λ e. ground (arith, subst (λ q. find q t.ids ≡ some i) (sym e) f))
            ∙ f
        found_cases (inr (e, q)) = rw (← q, e, small) (find-insert_self s (length t.names) t.ids)

-- In a valid table of fewer than 2 ^ 32 symbols, interning one keeps the table valid, gives an id that stands for the symbol both ways, and
-- changes no id that was given before.
pub intern_lem :
    (t : SymbolTable) (s : Text) → IsValid t → length t.names < 2 ^ 32 → Interned t s (intern t s)
unfolding intern lookup name size
intern_lem t s v room = elim (Option-cases (find s t.ids)) [
  | inr (id, e) ↦
      rw (e, intern)
        (record {
          valid = v;
          answer = e;
          named = v.named s id e;
          keeps = λ r i h. h;
          grows = omega arith;
          at_most_one = omega arith;
        })
  | inl e ↦
      rw (e, intern)
        (record {
          valid = intern_new-IsValid t s v e room;
          answer = unfold intern_new in find-insert_self s _ t.ids;
          named = unfold intern_new in new_name;
          keeps = λ r i h. unfold intern_new in keeps_new e r i h;
          grows = unfold intern_new in omega (arith, length-append t.names (s ∷ []));
          at_most_one = unfold intern_new in omega (arith, length-append t.names (s ∷ []));
        })
]
  where
    small : length t.names % 2 ^ 32 ≡ length t.names
    small = omega arith

    new_name : get_elem? (t.names ++ (s ∷ [])) (length t.names % 2 ^ 32) ≡ some s
    new_name = rw small (get_elem?-append_end t.names s)

    keeps_new :
        find s t.ids ≡ none
        → (r : Text) (i : ℕ) → find r t.ids ≡ some i
        → find r (insert s (length t.names % 2 ^ 32) t.ids) ≡ some i
    keeps_new e r i h =
        find-insert_ne s r _ t.ids
          (λ q. ground (arith, subst (λ w. find w t.ids ≡ some i) (sym q) h))
        ∙ h
