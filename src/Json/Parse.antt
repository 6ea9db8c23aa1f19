-- ===== src/Json/Parse.antt =====
-- src/json.cpp: the parser. Its position stands as the text from there on. What `std::stod` makes
-- of a token is the C library's.
pub mod Ending
pub mod Tokens
pub mod Returns
use matching_engine_cpp.Base.{
  ℕ, zero, suc, ◌+◌, ◌-◌, ◌/◌, ◌%◌, Bool, true, false, ◌||◌, Option, none, some, [], ◌∷◌, ◌++◌, ltb,
  ◌==◌, if◌then◌else◌, ℤ, pos, negsuc, length, is_empty, take, drop, Text, codes, Error, threw,
  stuck, Result, ok, err, ◌>>=◌,
}
use matching_engine_cpp.Json.{
  add_item, Json, Double, null, bool, int, double, string, array, object, Items, no_items, Fields,
  no_fields, add_field,
}
use matching_engine_cpp.Json.Numbers.{is_digit, stoll, stoi_hex}
use matching_engine_cpp.Json.Dump.{quote, backslash}

abbrev pub fail : Text → Error
fail msg = threw (codes "json parse error: " ++ msg)

abbrev pub is_ws : ℕ → Bool
is_ws c = c == b' ' || (c == 9 || (c == 10 || c == 13))

unfoldable pub skip_ws : Text → Text
skip_ws [] = []
skip_ws (c ∷ ts) = if is_ws c then skip_ws ts else c ∷ ts

-- `peek` at the character, and what follows it.
abbrev pub peek : Text → Result (ℕ × Text)
peek [] = err (fail (codes "unexpected end"))
peek (c ∷ ts) = ok (c, ts)

-- The low byte of an `int`.
abbrev pub to_char : ℤ → ℕ
to_char (pos n) = n % 256
to_char (negsuc n) = 255 - n % 256

-- The bytes of a code in UTF-8; a code of four hexadecimal digits has three at most.
unfoldable pub encode_code : ℤ → Text
encode_code (negsuc n) = to_char (negsuc n) ∷ []
encode_code (pos n) =
    if ltb n 0x80
    then n ∷ []
    else if ltb n 0x800
    then (0xC0 + n / 64) ∷ (0x80 + n % 64) ∷ []
    else (0xE0 + n / 4096) ∷ (0x80 + n / 64 % 64) ∷ (0x80 + n % 64) ∷ []

unfoldable pub read_unicode : Text → Result (Text × Text)
unfolding encode_code
read_unicode ts =
    if ltb (length ts) 4
    then err (fail (codes "bad unicode escape"))
    else (stoi_hex (take 4 ts) >>= λ n. ok (encode_code n, drop 4 ts))

-- The characters behind a backslash: the bytes that they stand for, and the text behind them.
unfoldable pub read_escape : Text → Result (Text × Text)
read_escape [] = err (fail (codes "bad escape"))
read_escape (e ∷ ts) =
    if e == quote
    then ok (quote ∷ [], ts)
    else if e == backslash
    then ok (backslash ∷ [], ts)
    else if e == b'/'
    then ok (b'/' ∷ [], ts)
    else if e == b'n'
    then ok (10 ∷ [], ts)
    else if e == b'r'
    then ok (13 ∷ [], ts)
    else if e == b't'
    then ok (9 ∷ [], ts)
    else if e == b'b'
    then ok (8 ∷ [], ts)
    else if e == b'f'
    then ok (12 ∷ [], ts)
    else if e == b'u'
    then read_unicode ts
    else err (fail (codes "unknown escape"))

-- The loop of `parse_raw_string`, behind the opening quote.
unfoldable pub read_string : ℕ → Text → Text → Result (Text × Text)
unfolding read_escape
read_string zero out ts = err stuck
read_string (suc fuel) out [] = err (fail (codes "unterminated string"))
read_string (suc fuel) out (c ∷ ts) =
    let escaped = read_escape ts >>= λ (bytes, after). read_string fuel (out ++ bytes) after in
    let plain = read_string fuel (out ++ (c ∷ [])) ts in
    if c == quote then ok (out, ts) else if c == backslash then escaped else plain

-- The position is behind the quote; a round of the loop takes a character at least.
unfoldable pub parse_raw_string : Text → Result (Text × Text)
unfolding read_string
parse_raw_string ts = read_string (suc (length ts)) [] ts

-- `text.compare(pos, n, word) == 0`, and the text behind the word.
unfoldable pub after_word : Text → Text → Option Text
after_word [] ts = some ts
after_word (w ∷ ws) [] = none
after_word (w ∷ ws) (c ∷ ts) = if w == c then after_word ws ts else none

abbrev pub word_true : Text
word_true = b't' ∷ b'r' ∷ b'u' ∷ b'e' ∷ []

abbrev pub word_false : Text
word_false = b'f' ∷ b'a' ∷ b'l' ∷ b's' ∷ b'e' ∷ []

abbrev pub word_null : Text
word_null = b'n' ∷ b'u' ∷ b'l' ∷ b'l' ∷ []

abbrev pub literal : Json → Option Text → Result (Json × Text)
literal j none = err (fail (codes "invalid literal"))
literal j (some ts) = ok (j, ts)

abbrev pub or_false : Option Text → Option Text → Result (Json × Text)
or_false (some ts) other = ok (bool true, ts)
or_false none other = literal (bool false) other

unfoldable pub parse_bool : Text → Result (Json × Text)
unfolding after_word
parse_bool ts = or_false (after_word word_true ts) (after_word word_false ts)

unfoldable pub parse_null : Text → Result (Json × Text)
unfolding after_word
parse_null ts = literal null (after_word word_null ts)

abbrev pub is_float_char : ℕ → Bool
is_float_char c = c == b'.' || (c == b'e' || (c == b'E' || (c == b'+' || c == b'-')))

-- The loop of `parse_number`: the token, whether it is a floating-point number, and what follows.
unfoldable pub scan_number : Text → Text × Bool × Text
scan_number [] = ([], false, [])
scan_number (c ∷ ts) =
    let (token, is_double, after) = scan_number ts in
    if is_digit c
    then (c ∷ token, is_double, after)
    else if is_float_char c
    then (c ∷ token, true, after)
    else ([], false, c ∷ ts)

module _ (stod : Text → Result Double) where
  unfoldable pub number_from : Text → Text × Bool × Text → Result (Json × Text)
  unfolding stoll
  number_from sign (rest, is_double, after) =
      let token = sign ++ rest in
      if is_empty token
      then err (fail (codes "invalid number"))
      else if is_double
      then (stod token >>= λ d. ok (double d, after))
      else (stoll token >>= λ n. ok (int n, after))

  unfoldable pub parse_number : Text → Result (Json × Text)
  parse_number [] = err (fail (codes "unexpected end"))
  parse_number (c ∷ ts) =
      if c == b'-'
      then number_from (b'-' ∷ []) (scan_number ts)
      else number_from [] (scan_number (c ∷ ts))

-- What stands behind an item: a comma before the next, or the end.
abbrev pub array_next : Result (Json × Text) → Items → ℕ × Text → Result (Json × Text)
array_next again items (c, rest) =
    if c == b','
    then again
    else if c == b']'
    then ok (array items, rest)
    else err (fail (codes "expected ',' or ']'"))

abbrev pub object_next : Result (Json × Text) → Fields → ℕ × Text → Result (Json × Text)
object_next again members (c, rest) =
    if c == b','
    then again
    else if c == b'}'
    then ok (object members, rest)
    else err (fail (codes "expected ',' or '}'"))

-- A key and the colon behind it.
unfoldable pub parse_key : Text → Result (Text × Text)
parse_key ts = do
  (c, rest) ← peek (skip_ws ts)
  (key, after) ←
      (if c == quote then parse_raw_string rest else err (fail (codes "expected object key")))
  (d, value) ← peek (skip_ws after)
  (if d == b':' then ok (key, value) else err (fail (codes "expected ':'")))

module _ (parse_value : Text → Result (Json × Text)) where
  -- The loops run on as much fuel as there are characters.
  unfoldable pub array_loop : ℕ → Items → Text → Result (Json × Text)
  array_loop zero items ts = err stuck
  array_loop (suc fuel) items ts = do
    (value, after) ← parse_value ts
    (c, rest) ← peek (skip_ws after)
    let again = array_loop fuel (add_item value items) rest
    array_next again (add_item value items) (c, rest)

  unfoldable pub object_loop : ℕ → Fields → Text → Result (Json × Text)
  object_loop zero members ts = err stuck
  object_loop (suc fuel) members ts = do
    (key, at) ← parse_key ts
    (value, after) ← parse_value at
    (c, rest) ← peek (skip_ws after)
    let again = object_loop fuel (add_field key value members) rest
    object_next again (add_field key value members) (c, rest)

  -- Behind the opening bracket.
  unfoldable pub parse_array : ℕ → Text → Result (Json × Text)
  parse_array fuel ts = do
    (c, rest) ← peek (skip_ws ts)
    (if c == b']' then ok (array no_items, rest) else array_loop fuel no_items (skip_ws ts))

  unfoldable pub parse_object : ℕ → Text → Result (Json × Text)
  parse_object fuel ts = do
    (c, rest) ← peek (skip_ws ts)
    (if c == b'}' then ok (object no_fields, rest) else object_loop fuel no_fields (skip_ws ts))

abbrev pub parse_string_value : Text → Result (Json × Text)
parse_string_value ts = parse_raw_string ts >>= λ (s, after). ok (string s, after)

module _ (stod : Text → Result Double) where
  -- One call of `parse_value`, at a text without white space in front.
  unfoldable pub parse_at : (Text → Result (Json × Text)) → ℕ → Text → Result (Json × Text)
  parse_at nested fuel [] = err (fail (codes "unexpected end"))
  parse_at nested fuel (c ∷ ts) =
      if c == b'{'
      then parse_object nested fuel ts
      else if c == b'['
      then parse_array nested fuel ts
      else if c == quote
      then parse_string_value ts
      else if c == b't' || c == b'f'
      then parse_bool (c ∷ ts)
      else if c == b'n'
      then parse_null (c ∷ ts)
      else parse_number stod (c ∷ ts)

  -- Every nested call takes a unit of fuel.
  unfoldable pub parse_value : ℕ → Text → Result (Json × Text)
  parse_value zero ts = err stuck
  parse_value (suc fuel) ts = parse_at (parse_value fuel) fuel (skip_ws ts)

  -- What follows the value is not looked at.
  unfoldable pub parse : Text → Result Json
  unfolding parse_value
  parse text = parse_value (suc (length text)) text >>= λ (value, after). ok value
