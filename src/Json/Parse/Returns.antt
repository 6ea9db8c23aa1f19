-- ===== src/Json/Parse/Returns.antt =====
-- The parser returns on every text, where `std::stod` does.
use matching_engine_cpp.Base.{
  ℕ, zero, suc, ◌≤◌, ◌<◌, ◌||◌, [], ◌∷◌, arith, ◌==◌, length, Text, Result, ok, err, ◌>>=◌,
}
use matching_engine_cpp.Json.{Json, Double, Items, Fields, no_items, no_fields, add_item, add_field}
use matching_engine_cpp.Json.Dump.{quote}
use matching_engine_cpp.Json.Parse.{
  skip_ws, peek, parse_raw_string, parse_key, array_loop, object_loop, parse_array, parse_object,
  parse_string_value, parse_at, parse_value, parse,
}
use matching_engine_cpp.Json.Parse.Ending.{
  Finishes, Ends, Ends-le, Ends-if, Ends-bind, skip_ws-le, peek-Ends, parse_raw_string-Ends,
}
use matching_engine_cpp.Json.Parse.Tokens.{
  parse_bool-Ends, parse_null-Ends, parse_key-Ends, parse_number-Ends,
}

-- A parser of nested values that returns on texts shorter than `n`.
abbrev pub Nests : ℕ → (Text → Result (Json × Text)) → Type 0
Nests n nested = (ts : Text) → length ts < n → Ends (length ts) (nested ts)

module _ (nested : Text → Result (Json × Text)) (n : ℕ) (v : Nests n nested) where
  array_loop-Ends :
      (fuel : ℕ) (items : Items) (ts : Text)
      → length ts < fuel
      → length ts < n
      → Ends (length ts) (array_loop nested fuel items ts)
  unfolding array_loop
  array_loop-Ends zero items ts h k = absurd (omega arith)
  array_loop-Ends (suc fuel) items ts h k =
      Ends-bind (length ts) _ (nested ts) _ (v ts k) (λ value after l.
        Ends-bind (length (skip_ws after)) _ (peek (skip_ws after)) _ (peek-Ends (skip_ws after))
          (λ c rest m.
            let shorter : length rest < length ts = omega (arith, skip_ws-le after) in
            Ends-if (length ts) (c == b',') _ _
              (Ends-le (length rest) _ _ (omega arith)
                (array_loop-Ends fuel (add_item value items) rest (omega arith) (omega arith)))
              (Ends-if (length ts) (c == b']') _ _ shorter tt)))

  object_loop-Ends :
      (fuel : ℕ) (members : Fields) (ts : Text)
      → length ts < fuel
      → length ts < n
      → Ends (length ts) (object_loop nested fuel members ts)
  unfolding object_loop
  object_loop-Ends zero members ts h k = absurd (omega arith)
  object_loop-Ends (suc fuel) members ts h k =
      Ends-bind (length ts) _ (parse_key ts) _ (parse_key-Ends ts) (λ key at i.
        Ends-bind (length at) _ (nested at) _ (v at (omega arith)) (λ value after l.
          Ends-bind (length (skip_ws after)) _ (peek (skip_ws after)) _ (peek-Ends (skip_ws after))
            (λ c rest m.
              let shorter : length rest < length ts = omega (arith, skip_ws-le after) in
              Ends-if (length ts) (c == b',') _ _
                (Ends-le (length rest) _ _ (omega arith) (
                  object_loop-Ends fuel (add_field key value members) rest (omega arith)
                    (omega arith)))
                (Ends-if (length ts) (c == b'}') _ _ shorter tt))))

  parse_array-Ends :
      (fuel : ℕ) (ts : Text)
      → length ts < fuel
      → length ts < n
      → Ends (length ts) (parse_array nested fuel ts)
  unfolding parse_array
  parse_array-Ends fuel ts h k =
      let le = skip_ws-le ts in
      Ends-bind (length (skip_ws ts)) _ (peek (skip_ws ts)) _ (peek-Ends (skip_ws ts)) (λ c rest m.
        Ends-if (length ts) (c == b']') _ _ (omega (arith, le)) (
          Ends-le (length (skip_ws ts)) _ _ le
            (array_loop-Ends fuel no_items (skip_ws ts) (omega (arith, le)) (omega (arith, le)))))

  parse_object-Ends :
      (fuel : ℕ) (ts : Text)
      → length ts < fuel
      → length ts < n
      → Ends (length ts) (parse_object nested fuel ts)
  unfolding parse_object
  parse_object-Ends fuel ts h k =
      let le = skip_ws-le ts in
      Ends-bind (length (skip_ws ts)) _ (peek (skip_ws ts)) _ (peek-Ends (skip_ws ts)) (λ c rest m.
        Ends-if (length ts) (c == b'}') _ _ (omega (arith, le)) (
          Ends-le (length (skip_ws ts)) _ _ le
            (object_loop-Ends fuel no_fields (skip_ws ts) (omega (arith, le)) (omega (arith, le)))))

parse_string_value-Ends : (ts : Text) → Ends (length ts) (parse_string_value ts)
parse_string_value-Ends ts =
    Ends-bind (length ts) (length ts) (parse_raw_string ts) _ (parse_raw_string-Ends ts)
      (λ s after k. k)

ended : (n : ℕ) (r : Result (Json × Text)) → Ends n r → Finishes (r >>= λ (value, after). ok value)
ended n (err why) e = e
ended n (ok (j, rest)) e = tt

module _ (stod : Text → Result Double) (h : (token : Text) → Finishes (stod token)) where
  parse_at-Ends :
      (nested : Text → Result (Json × Text)) (fuel : ℕ) (ts : Text)
      → Nests fuel nested
      → length ts < suc fuel
      → Ends (length ts) (parse_at stod nested fuel ts)
  unfolding parse_at
  parse_at-Ends nested fuel [] v k = tt
  parse_at-Ends nested fuel (c ∷ ts) v k =
      let n = suc (length ts) in
      let le : length ts ≤ n = omega arith in
      Ends-if n (c == b'{') _ _
        (Ends-le (length ts) n _ le
          (parse_object-Ends nested fuel v fuel ts (omega arith) (omega arith)))
        (Ends-if n (c == b'[') _ _
          (Ends-le (length ts) n _ le
            (parse_array-Ends nested fuel v fuel ts (omega arith) (omega arith)))
          (Ends-if n (c == quote) _ _ (Ends-le (length ts) n _ le (parse_string_value-Ends ts)) (
            Ends-if n (c == b't' || c == b'f') _ _ (parse_bool-Ends (c ∷ ts)) (
              Ends-if n (c == b'n') _ _ (parse_null-Ends (c ∷ ts))
                (parse_number-Ends stod h (c ∷ ts))))))

  parse_value-Nests : (fuel : ℕ) → Nests fuel (parse_value stod fuel)
  unfolding parse_value
  parse_value-Nests zero ts k = absurd (omega arith)
  parse_value-Nests (suc fuel) ts k =
      let le = skip_ws-le ts in
      Ends-le (length (skip_ws ts)) (length ts) _ le (
        parse_at-Ends (parse_value stod fuel) fuel (skip_ws ts) (parse_value-Nests fuel)
          (omega (arith, le)))

  -- Where `std::stod` returns or throws on every token, so does the parser on every text: on the fuel
  -- that it is given none of its loops and none of its nested calls runs out.
  pub parse-Finishes : (text : Text) → Finishes (parse stod text)
  unfolding parse
  parse-Finishes text =
      ended (length text) (parse_value stod (suc (length text)) text)
        (parse_value-Nests (suc (length text)) text (omega arith))
