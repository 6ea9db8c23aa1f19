-- ===== src/Json/Dump/Printed.antt =====
-- What is written for a value has no control character, so no line end.
use matching_engine_cpp.Base.{
  ℕ, zero, suc, ◌+◌, ◌/◌, ◌%◌, ◌≤◌, inl, inr, Bool, true, false, [], ◌∷◌, ◌++◌, arith, ltb,
  Bool-cases, ℤ, pos, negsuc, All, All-append, Text,
}
use matching_engine_cpp.Json.{
  Json, null, bool, int, double, string, array, object, Items, no_items, item, Fields, no_fields,
  field,
}
use matching_engine_cpp.Json.Numbers.{to_string, hex, hex_digit, digits}
use matching_engine_cpp.Json.RoundTrip.{IsPlain, ItemsPlain, FieldsPlain}
use matching_engine_cpp.Json.Dump.{
  quote, backslash, dump_char, dump_chars, dump_string, dump_bool, dump_value, dump_items,
  dump_fields,
}

-- No control character.
abbrev pub IsPrinted : ℕ → Type 0
IsPrinted c = 32 ≤ c

hex_digit-IsPrinted : (d : ℕ) → IsPrinted (hex_digit d)
hex_digit-IsPrinted d = ground arith

pub hex-IsPrinted : (k v : ℕ) → All IsPrinted (hex k v)
unfolding hex
hex-IsPrinted zero v = tt
hex-IsPrinted (suc k) v =
    All-append IsPrinted (hex k (v / 16)) (hex_digit (v % 16) ∷ []) (hex-IsPrinted k (v / 16))
      (hex_digit-IsPrinted (v % 16), tt)

digits-IsPrinted : (f n : ℕ) (out : Text) → All IsPrinted out → All IsPrinted (digits f n out)
unfolding digits
digits-IsPrinted zero n out h = h
digits-IsPrinted (suc f) n out h = elim (Bool-cases (ltb n 10)) [
  | inl one ↦ rw one (omega arith, h)
  | inr more ↦ rw more (digits-IsPrinted f (n / 10) ((b'0' + n % 10) ∷ out) (omega arith, h))
]

to_string-IsPrinted : (n : ℤ) → All IsPrinted (to_string n)
unfolding to_string
to_string-IsPrinted (pos n) = digits-IsPrinted (suc n) n [] tt
to_string-IsPrinted (negsuc n) = (omega arith, digits-IsPrinted (suc (suc n)) (suc n) [] tt)

hex_escape-IsPrinted : (c : ℕ) → All IsPrinted (backslash ∷ b'u' ∷ hex 4 c)
hex_escape-IsPrinted c = (omega arith, (omega arith, hex-IsPrinted 4 c))

dump_char-IsPrinted : (c : ℕ) → All IsPrinted (dump_char c)
unfolding dump_char
dump_char-IsPrinted c = ground (arith, hex_escape-IsPrinted c)

dump_chars-IsPrinted : (s : Text) → All IsPrinted (dump_chars s)
unfolding dump_chars
dump_chars-IsPrinted [] = tt
dump_chars-IsPrinted (c ∷ s) =
    All-append IsPrinted (dump_char c) (dump_chars s) (dump_char-IsPrinted c)
      (dump_chars-IsPrinted s)

dump_string-IsPrinted : (s : Text) → All IsPrinted (dump_string s)
unfolding dump_string
dump_string-IsPrinted s = (
  omega arith,
  All-append IsPrinted (dump_chars s) (quote ∷ []) (dump_chars-IsPrinted s) (omega arith, tt),
)

dump_bool-IsPrinted : (b : Bool) → All IsPrinted (dump_bool b)
dump_bool-IsPrinted true = omega arith
dump_bool-IsPrinted false = omega arith

both : (s t : Text) → All IsPrinted s → All IsPrinted t → All IsPrinted (s ++ t)
both s t hs ht = All-append IsPrinted s t hs ht

mutual
  unfolding dump_value IsPlain

  value-IsPrinted : (j : Json) → IsPlain j → All IsPrinted (dump_value j)
  value-IsPrinted null p = omega arith
  value-IsPrinted (bool b) p = dump_bool-IsPrinted b
  value-IsPrinted (int n) p = to_string-IsPrinted n
  value-IsPrinted (double d) p = absurd p
  value-IsPrinted (string s) p = dump_string-IsPrinted s
  value-IsPrinted (array no_items) p = omega arith
  value-IsPrinted (array (item x xs)) p = (
    omega arith,
    both (dump_value x) _ (value-IsPrinted x p.0)
        (both (dump_items xs) (b']' ∷ []) (items-IsPrinted xs p.1) (omega arith)),
  )
  value-IsPrinted (object no_fields) p = omega arith
  value-IsPrinted (object (field k v fs)) p = (
    omega arith,
    both (dump_string k) _ (dump_string-IsPrinted k) (
      omega arith,
      both (dump_value v) _ (value-IsPrinted v p.0)
          (both (dump_fields fs) (b'}' ∷ []) (fields-IsPrinted fs p.1) (omega arith)),
    ),
  )

  items-IsPrinted : (xs : Items) → ItemsPlain xs → All IsPrinted (dump_items xs)
  items-IsPrinted no_items p = tt
  items-IsPrinted (item x xs) p = (
    omega arith,
    both (dump_value x) (dump_items xs) (value-IsPrinted x p.0) (items-IsPrinted xs p.1),
  )

  fields-IsPrinted : (fs : Fields) → FieldsPlain fs → All IsPrinted (dump_fields fs)
  fields-IsPrinted no_fields p = tt
  fields-IsPrinted (field k v fs) p = (
    omega arith,
    both (dump_string k) _ (dump_string-IsPrinted k) (
      omega arith,
      both (dump_value v) (dump_fields fs) (value-IsPrinted v p.0) (fields-IsPrinted fs p.1),
    ),
  )

pub dump_value-IsPrinted : (j : Json) → IsPlain j → All IsPrinted (dump_value j)
dump_value-IsPrinted j p = value-IsPrinted j p
