-- ===== src/Json/RoundTrip/Values.antt =====
-- The induction over a value: each call of the parser reads what was written for its part.
use matching_engine_cpp.Base.{
  ℕ, zero, suc, ◌+◌, ◌≤◌, ◌≡◌, refl, ap, ◌∙◌, Bool, true, false, ◌||◌, [], ◌∷◌, ◌++◌, append-nil,
  append_assoc, arith, ◌==◌, ℤ, length, length-append, Text, Result, ok, ◌>>=◌,
}
use matching_engine_cpp.Json.{
  Json, Double, null, bool, int, double, string, array, object, Items, no_items, item, Fields,
  no_fields, field, add_item, add_field,
}
use matching_engine_cpp.Json.Numbers.{is_digit, to_string, fits_i64}
use matching_engine_cpp.Json.Dump.{
  quote, dump_chars, dump_string, dump_value, dump_items, dump_fields,
}
use matching_engine_cpp.Json.Parse.{
  is_ws, skip_ws, peek, array_loop, object_loop, parse_array, parse_object, parse_null, parse_bool,
  after_word, parse_number, parse_at, parse_value, parse, scan_number, array_next, object_next,
}
use matching_engine_cpp.Json.RoundTrip.Numbers.{IsBehind, to_string-cons, parse_number-to_string}
use matching_engine_cpp.Json.RoundTrip.Strings.{raw_string-dump}
use matching_engine_cpp.Json.RoundTrip.{
  IsPlain, ItemsPlain, FieldsPlain, append_items, append_items-add, append_items-none,
  append_fields, append_fields-add, append_fields-none, skip_ws-head, IsFirst, dump-cons, key-dump,
  comma-IsBehind, bracket-IsBehind, brace-IsBehind,
}

-- The text of a first field, with what stands behind the object.
fields_text :
    (k d fs rest : Text)
    → (dump_string k ++ (b':' ∷ (d ++ (fs ++ (b'}' ∷ []))))) ++ rest
      ≡ dump_string k ++ (b':' ∷ (d ++ (fs ++ (b'}' ∷ rest))))
fields_text k d fs rest = simp append_assoc

le-fields_text :
    (k d fs : Text)
    → suc (length d + length fs) ≤ length (dump_string k ++ (b':' ∷ (d ++ (fs ++ (b'}' ∷ [])))))
le-fields_text k d fs = omega (
  arith,
  length-append (dump_string k) (b':' ∷ (d ++ (fs ++ (b'}' ∷ [])))),
  length-append d (fs ++ (b'}' ∷ [])),
  length-append fs (b'}' ∷ []),
)

more_fields_text :
    (k d fs rest : Text)
    → (dump_string k ++ (b':' ∷ (d ++ fs))) ++ (b'}' ∷ rest)
      ≡ dump_string k ++ (b':' ∷ (d ++ (fs ++ (b'}' ∷ rest))))
more_fields_text k d fs rest = simp append_assoc

le-more_fields_text :
    (k d fs : Text) → suc (length d + length fs) ≤ length (dump_string k ++ (b':' ∷ (d ++ fs)))
le-more_fields_text k d fs =
    omega (arith, length-append (dump_string k) (b':' ∷ (d ++ fs)), length-append d fs)

module _ (stod : Text → Result Double) where
  parse_number-at :
      (nested : Text → Result (Json × Text)) (f c : ℕ) (ts : Text)
      → (is_digit c || c == b'-') ≡ true
      → parse_at stod nested f (c ∷ ts) ≡ parse_number stod (c ∷ ts)
  unfolding parse_at
  parse_number-at nested f c ts h =
      let e1 : (c == b'{') ≡ false = ground arith in
      let e2 : (c == b'[') ≡ false = ground arith in
      let e3 : (c == quote) ≡ false = ground arith in
      let e4 : (c == b't' || c == b'f') ≡ false = ground arith in
      let e5 : (c == b'n') ≡ false = ground arith in rw (e1, e2, e3, e4, e5)

  int-dump :
      (n : ℤ) (f : ℕ) (rest : Text)
      → fits_i64 n ≡ true
      → IsBehind rest
      → parse_value stod (suc f) (to_string n ++ rest) ≡ ok (int n, rest)
  unfolding parse_value
  int-dump n f rest fits behind =
      let (c, t, e, h) = to_string-cons n in
      let no_space : is_ws c ≡ false = ground arith in
      rw
        (
          e,
          skip_ws-head c (t ++ rest) no_space,
          parse_number-at (parse_value stod f) f c (t ++ rest) h,
        )
        (rw e at (parse_number-to_string stod n rest fits behind))

  -- What the loops do behind an item or a field.
  abbrev after_item : ℕ → ℕ → Items → Text → Result (Json × Text)
  after_item f n items ts = peek (skip_ws ts) >>= λ (c, rest).
      array_next (array_loop (parse_value stod f) n items rest) items (c, rest)

  abbrev after_field : ℕ → ℕ → Fields → Text → Result (Json × Text)
  after_field f n members ts = peek (skip_ws ts) >>= λ (c, rest).
      object_next (object_loop (parse_value stod f) n members rest) members (c, rest)

  array_loop_round :
      (f n : ℕ) (items : Items) (d ts : Text) (x : Json)
      → parse_value stod f (d ++ ts) ≡ ok (x, ts)
      → array_loop (parse_value stod f) (suc n) items (d ++ ts)
        ≡ after_item f n (add_item x items) ts
  unfolding array_loop
  array_loop_round f n items d ts x h = rw h

  object_loop_round :
      (f n : ℕ) (members : Fields) (k d ts : Text) (x : Json)
      → parse_value stod f (d ++ ts) ≡ ok (x, ts)
      → object_loop (parse_value stod f) (suc n) members (dump_string k ++ (b':' ∷ (d ++ ts)))
        ≡ after_field f n (add_field k x members) ts
  unfolding object_loop
  object_loop_round f n members k d ts x h = rw (key-dump k (d ++ ts), h)

  items-IsBehind : (xs : Items) (rest : Text) → IsBehind (dump_items xs ++ (b']' ∷ rest))
  unfolding dump_items
  items-IsBehind no_items rest = bracket-IsBehind rest
  items-IsBehind (item x xs) rest = comma-IsBehind _

  fields-IsBehind : (fs : Fields) (rest : Text) → IsBehind (dump_fields fs ++ (b'}' ∷ rest))
  unfolding dump_fields
  fields-IsBehind no_fields rest = brace-IsBehind rest
  fields-IsBehind (field k x fs) rest = comma-IsBehind _

  value_step :
      (f c : ℕ) (ts : Text)
      → is_ws c ≡ false
      → parse_value stod (suc f) (c ∷ ts) ≡ parse_at stod (parse_value stod f) f (c ∷ ts)
  unfolding parse_value
  value_step f c ts h = rw (skip_ws-head c ts h)

  open_array :
      (m c : ℕ) (d t ts : Text) (x : Json)
      → d ≡ c ∷ t
      → IsFirst c
      → parse_value stod (suc m) (d ++ ts) ≡ ok (x, ts)
      → parse_value stod (suc (suc m)) (b'[' ∷ (d ++ ts))
        ≡ after_item (suc m) m (item x no_items) ts
  unfolding parse_at parse_array add_item
  open_array m c d t ts x e first h =
      let at_once : skip_ws (d ++ ts) ≡ c ∷ (t ++ ts) = rw e (skip_ws-head c (t ++ ts) first.0) in
      let round = array_loop_round (suc m) m no_items d ts x h in
      value_step (suc m) b'[' (d ++ ts) refl ∙ rw (at_once, first.1) (rw e at round)

  open_object :
      (m : ℕ) (k d ts : Text) (x : Json)
      → parse_value stod (suc m) (d ++ ts) ≡ ok (x, ts)
      → parse_value stod (suc (suc m)) (b'{' ∷ (dump_string k ++ (b':' ∷ (d ++ ts))))
        ≡ after_field (suc m) m (field k x no_fields) ts
  unfolding parse_at parse_object add_field dump_string skip_ws
  open_object m k d ts x h =
      value_step (suc m) b'{' (dump_string k ++ (b':' ∷ (d ++ ts))) refl
      ∙ object_loop_round (suc m) m no_fields k d ts x h

  null-dump :
      (f : ℕ) (rest : Text) → parse_value stod (suc f) (dump_value null ++ rest) ≡ ok (null, rest)
  unfolding dump_value parse_at parse_null after_word
  null-dump f rest = value_step f b'n' _ refl

  bool-dump :
      (b : Bool) (f : ℕ) (rest : Text)
      → parse_value stod (suc f) (dump_value (bool b) ++ rest) ≡ ok (bool b, rest)
  unfolding dump_value parse_at parse_bool after_word
  bool-dump true f rest = value_step f b't' _ refl
  bool-dump false f rest = value_step f b'f' _ refl

  string-dump :
      (s : Text) (f : ℕ) (rest : Text)
      → parse_value stod (suc f) (dump_string s ++ rest) ≡ ok (string s, rest)
  unfolding dump_string parse_at
  string-dump s f rest =
      value_step f quote ((dump_chars s ++ (quote ∷ [])) ++ rest) refl
      ∙ rw (append_assoc (dump_chars s) (quote ∷ []) rest, raw_string-dump s rest)

  empty_array :
      (f : ℕ) (rest : Text)
      → parse_value stod (suc f) (b'[' ∷ b']' ∷ rest) ≡ ok (array no_items, rest)
  unfolding parse_at parse_array skip_ws
  empty_array f rest = value_step f b'[' (b']' ∷ rest) refl

  empty_object :
      (f : ℕ) (rest : Text)
      → parse_value stod (suc f) (b'{' ∷ b'}' ∷ rest) ≡ ok (object no_fields, rest)
  unfolding parse_at parse_object skip_ws
  empty_object f rest = value_step f b'{' (b'}' ∷ rest) refl

  end_array :
      (f n : ℕ) (items : Items) (rest : Text)
      → after_item (suc f) n items (b']' ∷ rest) ≡ ok (array items, rest)
  unfolding skip_ws
  end_array f n items rest = refl

  end_object :
      (f n : ℕ) (members : Fields) (rest : Text)
      → after_field (suc f) n members (b'}' ∷ rest) ≡ ok (object members, rest)
  unfolding skip_ws
  end_object f n members rest = refl

  more_items :
      (f n : ℕ) (items : Items) (ts : Text)
      → after_item f n items (b',' ∷ ts) ≡ array_loop (parse_value stod f) n items ts
  unfolding skip_ws
  more_items f n items ts = refl

  more_fields :
      (f n : ℕ) (members : Fields) (ts : Text)
      → after_field f n members (b',' ∷ ts) ≡ object_loop (parse_value stod f) n members ts
  unfolding skip_ws
  more_fields f n members ts = refl

  suc_of : (P : ℕ → Type 0) (n f : ℕ) → suc n ≤ f → ((m : ℕ) → n ≤ m → P (suc m)) → P f
  suc_of P n zero h k = absurd (omega arith)
  suc_of P n (suc m) h k = k m (omega arith)

  mutual
    unfolding dump_value IsPlain append_items append_fields

    value-dump :
        (j : Json) (f : ℕ) (rest : Text)
        → IsPlain j
        → IsBehind rest
        → length (dump_value j) ≤ f
        → parse_value stod (suc f) (dump_value j ++ rest) ≡ ok (j, rest)
    value-dump null f rest p b h = null-dump f rest
    value-dump (bool v) f rest p b h = bool-dump v f rest
    value-dump (int n) f rest p b h = int-dump n f rest p b
    value-dump (double d) f rest p b h = absurd p
    value-dump (string s) f rest p b h = string-dump s f rest
    value-dump (array no_items) f rest p b h = empty_array f rest
    value-dump (array (item x xs)) f rest p b h =
        let behind = dump_items xs ++ (b']' ∷ rest) in
        rw
          (
            append_assoc (dump_value x) (dump_items xs ++ (b']' ∷ [])) rest,
            append_assoc (dump_items xs) (b']' ∷ []) rest,
          )
          (suc_of
            (λ g.
              parse_value stod (suc g) (b'[' ∷ (dump_value x ++ behind))
              ≡ ok (array (item x xs), rest))
            (length (dump_value x) + length (dump_items xs)) f
            (omega (
              arith,
              length-append (dump_value x) (dump_items xs ++ (b']' ∷ [])),
              length-append (dump_items xs) (b']' ∷ []),
            ))
            λ m hm.
              let (c, t, e, first) = dump-cons x p.0 in
              open_array m c (dump_value x) t behind x e first
                (value-dump x m behind p.0 (items-IsBehind xs rest) (omega arith))
              ∙ items-dump xs m m (item x no_items) rest p.1 (omega arith) (omega arith))
    value-dump (object no_fields) f rest p b h = empty_object f rest
    value-dump (object (field k x fs)) f rest p b h =
        let behind = dump_fields fs ++ (b'}' ∷ rest) in
        rw (fields_text k (dump_value x) (dump_fields fs) rest) (
          suc_of
            (λ g.
              parse_value stod (suc g) (b'{' ∷ (dump_string k ++ (b':' ∷ (dump_value x ++ behind))))
              ≡ ok (object (field k x fs), rest))
            (length (dump_value x) + length (dump_fields fs)) f
            (omega (arith, le-fields_text k (dump_value x) (dump_fields fs)))
            λ m hm.
              open_object m k (dump_value x) behind x
                (value-dump x m behind p.0 (fields-IsBehind fs rest) (omega arith))
              ∙ fields-dump fs m m (field k x no_fields) rest p.1 (omega arith) (omega arith))

    items-dump :
        (xs : Items) (f n : ℕ) (items : Items) (rest : Text)
        → ItemsPlain xs
        → length (dump_items xs) ≤ f
        → length (dump_items xs) ≤ n
        → after_item (suc f) n items (dump_items xs ++ (b']' ∷ rest))
          ≡ ok (array (append_items items xs), rest)
    items-dump no_items f n items rest p h k =
        end_array f n items rest ∙ rw (append_items-none items) refl
    items-dump (item x xs) f n items rest p h k =
        let behind = dump_items xs ++ (b']' ∷ rest) in
        more_items (suc f) n items _
        ∙ rw (append_assoc (dump_value x) (dump_items xs) (b']' ∷ rest)) (
            suc_of
              (λ g.
                array_loop (parse_value stod (suc f)) g items (dump_value x ++ behind)
                ≡ ok (array (append_items items (item x xs)), rest))
              (length (dump_items xs)) n
              (omega (arith, length-append (dump_value x) (dump_items xs)))
              λ m hm.
                array_loop_round (suc f) m items (dump_value x) behind x (
                  value-dump x f behind p.0 (items-IsBehind xs rest)
                    (omega (arith, length-append (dump_value x) (dump_items xs))))
                ∙ (items-dump xs f m (add_item x items) rest p.1
                      (omega (arith, length-append (dump_value x) (dump_items xs))) hm
                    ∙ ap (λ l. ok (array l, rest)) (append_items-add items xs x)))

    fields-dump :
        (fs : Fields) (f n : ℕ) (members : Fields) (rest : Text)
        → FieldsPlain fs
        → length (dump_fields fs) ≤ f
        → length (dump_fields fs) ≤ n
        → after_field (suc f) n members (dump_fields fs ++ (b'}' ∷ rest))
          ≡ ok (object (append_fields members fs), rest)
    fields-dump no_fields f n members rest p h k =
        end_object f n members rest ∙ rw (append_fields-none members) refl
    fields-dump (field k' x fs) f n members rest p h k =
        let behind = dump_fields fs ++ (b'}' ∷ rest) in
        more_fields (suc f) n members _
        ∙ rw (more_fields_text k' (dump_value x) (dump_fields fs) rest) (
            suc_of
              (λ g.
                object_loop (parse_value stod (suc f)) g members
                  (dump_string k' ++ (b':' ∷ (dump_value x ++ behind)))
                ≡ ok (object (append_fields members (field k' x fs)), rest))
              (length (dump_fields fs)) n
              (omega (arith, le-more_fields_text k' (dump_value x) (dump_fields fs)))
              λ m hm.
                object_loop_round (suc f) m members k' (dump_value x) behind x (
                  value-dump x f behind p.0 (fields-IsBehind fs rest)
                    (omega (arith, le-more_fields_text k' (dump_value x) (dump_fields fs))))
                ∙ (fields-dump fs f m (add_field k' x members) rest p.1
                      (omega (arith, le-more_fields_text k' (dump_value x) (dump_fields fs))) hm
                    ∙ ap (λ l. ok (object l, rest)) (append_fields-add members fs k' x)))

-- Parsing what was written for a plain value, one without floating-point numbers whose integers fit
-- a `long long`, gives the value back.
pub parse-dump :
    (stod : Text → Result Double) (j : Json) → IsPlain j → parse stod (dump_value j) ≡ ok j
unfolding parse scan_number
parse-dump stod j p =
    let text = dump_value j in
    let read = value-dump stod j (length text) [] p refl (omega arith) in
    let whole : parse_value stod (suc (length text)) text ≡ ok (j, []) =
      rw (append-nil text) at read in
    rw whole
