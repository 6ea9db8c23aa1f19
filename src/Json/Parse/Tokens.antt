-- ===== src/Json/Parse/Tokens.antt =====
-- The words, the numbers and the keys: each leaves a shorter text.
use matching_engine_cpp.Base.{
  ℕ, suc, ◌+◌, ◌≤◌, ◌<◌, ◌≡◌, inl, inr, Bool, false, Option, none, some, [], ◌∷◌, ◌++◌, arith, ◌==◌,
  Bool-cases, length, is_empty, Text, Result,
}
use matching_engine_cpp.Json.{Json, Double, bool, null}
use matching_engine_cpp.Json.Numbers.{stoll, is_digit}
use matching_engine_cpp.Json.Dump.{quote}
use matching_engine_cpp.Json.Parse.{
  skip_ws, peek, parse_raw_string, after_word, literal, or_false, parse_bool, parse_null,
  scan_number, is_float_char, number_from, parse_number, parse_key,
}
use matching_engine_cpp.Json.Parse.Ending.{
  Finishes, Ends, Ends-le, Ends-if, Ends-bind, Finishes-bind, skip_ws-le, peek-Ends, stoll-Finishes,
  parse_raw_string-Ends,
}

-- What is left behind a word.
abbrev Behind : ℕ → Option Text → Type 0
Behind n none = Unit {0}
Behind n (some rest) = length rest < n

Behind-le : (n m : ℕ) (o : Option Text) → n ≤ m → Behind n o → Behind m o
Behind-le n m none h k = tt
Behind-le n m (some rest) h k = omega arith

after_word-Behind : (ws ts : Text) → Behind (suc (length ts)) (after_word ws ts)
unfolding after_word
after_word-Behind [] ts = omega arith
after_word-Behind (w ∷ ws) [] = tt
after_word-Behind (w ∷ ws) (c ∷ ts) = elim (Bool-cases (w == c)) [
  | inl same ↦
      rw same
        (Behind-le (suc (length ts)) _ (after_word ws ts) (omega arith) (after_word-Behind ws ts))
  | inr other ↦ rw other tt
]

word-Behind : (w : ℕ) (ws ts : Text) → Behind (length ts) (after_word (w ∷ ws) ts)
unfolding after_word
word-Behind w ws [] = tt
word-Behind w ws (c ∷ ts) = elim (Bool-cases (w == c)) [
  | inl same ↦ rw same (after_word-Behind ws ts)
  | inr other ↦ rw other tt
]

literal-Ends : (n : ℕ) (j : Json) (o : Option Text) → Behind n o → Ends n (literal j o)
literal-Ends n j none h = tt
literal-Ends n j (some rest) h = h

or_false-Ends : (n : ℕ) (o p : Option Text) → Behind n o → Behind n p → Ends n (or_false o p)
or_false-Ends n none p h k = literal-Ends n (bool false) p k
or_false-Ends n (some rest) p h k = h

pub parse_bool-Ends : (ts : Text) → Ends (length ts) (parse_bool ts)
unfolding parse_bool
parse_bool-Ends ts =
    or_false-Ends (length ts) _ _ (word-Behind b't' (b'r' ∷ b'u' ∷ b'e' ∷ []) ts)
      (word-Behind b'f' (b'a' ∷ b'l' ∷ b's' ∷ b'e' ∷ []) ts)

pub parse_null-Ends : (ts : Text) → Ends (length ts) (parse_null ts)
unfolding parse_null
parse_null-Ends ts = literal-Ends (length ts) null _ (word-Behind b'n' (b'u' ∷ b'l' ∷ b'l' ∷ []) ts)

-- What is behind a token, which may be empty.
scan_number-le : (ts : Text) → length (scan_number ts).0 + length (scan_number ts).2 ≤ length ts
unfolding scan_number
scan_number-le [] = omega arith
scan_number-le (c ∷ ts) = elim (Bool-cases (is_digit c)) [
  | inl digit ↦ rw digit (omega (arith, scan_number-le ts))
  | inr other ↦ elim (Bool-cases (is_float_char c)) [
    | inl float ↦ rw (other, float) (omega (arith, scan_number-le ts))
    | inr last ↦ rw (other, last) (omega arith)
  ]
]

is_empty-length : (ts : Text) → is_empty ts ≡ false → 0 < length ts
is_empty-length [] h = absurd (cc)
is_empty-length (c ∷ ts) h = omega arith

module _ (stod : Text → Result Double) (h : (token : Text) → Finishes (stod token)) where
  number_from-Ends :
      (n : ℕ) (sign : Text) (s : Text × Bool × Text)
      → (is_empty (sign ++ s.0) ≡ false → length s.2 < n)
      → Ends n (number_from stod sign s)
  unfolding number_from
  number_from-Ends n sign s k = elim (Bool-cases (is_empty (sign ++ s.0))) [
    | inl nothing ↦ rw nothing tt
    | inr token ↦ rw token (
        Ends-if n s.1 _ _ (Finishes-bind n (stod (sign ++ s.0)) _ (h (sign ++ s.0)) (λ d. k token))
          (Finishes-bind n (stoll (sign ++ s.0)) _ (stoll-Finishes (sign ++ s.0)) (λ i. k token)))
  ]

  pub parse_number-Ends : (ts : Text) → Ends (length ts) (parse_number stod ts)
  unfolding parse_number
  parse_number-Ends [] = tt
  parse_number-Ends (c ∷ ts) =
      Ends-if (suc (length ts)) (c == b'-') _ _
        (number_from-Ends _ (b'-' ∷ []) (scan_number ts) (λ k. omega (arith, scan_number-le ts)))
        (number_from-Ends _ [] (scan_number (c ∷ ts))
          (λ k. omega (arith, scan_number-le (c ∷ ts), is_empty-length (scan_number (c ∷ ts)).0 k)))

pub parse_key-Ends : (ts : Text) → Ends (length ts) (parse_key ts)
unfolding parse_key
parse_key-Ends ts =
    Ends-bind (length (skip_ws ts)) _ (peek (skip_ws ts)) _ (peek-Ends (skip_ws ts)) (λ c rest k.
      Ends-bind (length ts) _ _ _
        (Ends-if (length ts) (c == quote) _ _
          (Ends-le (length rest) _ (parse_raw_string rest) (omega (arith, skip_ws-le ts))
            (parse_raw_string-Ends rest))
          tt)
        (λ key after l.
          Ends-bind (length (skip_ws after)) _ (peek (skip_ws after)) _ (peek-Ends (skip_ws after))
            (λ d value m.
              Ends-if (length ts) (d == b':') _ _ (omega (arith, skip_ws-le after)) tt)))
