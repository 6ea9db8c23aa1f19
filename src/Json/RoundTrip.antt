-- ===== src/Json/RoundTrip.antt =====
-- A value that was written is read back.
mod Numbers
mod Strings
pub mod Values
use matching_engine_cpp.Base.{
  ℕ, ◌≡◌, refl, ap, true, false, [], ◌∷◌, ◌++◌, append_assoc, arith, ◌==◌, Text, ok,
}
use matching_engine_cpp.Json.{
  Json, Double, null, bool, int, double, string, array, object, Items, no_items, item, Fields,
  no_fields, field, add_item, add_field,
}
use matching_engine_cpp.Json.Numbers.{is_digit, to_string, fits_i64}
use matching_engine_cpp.Json.Dump.{
  quote, backslash, dump_chars, dump_string, dump_value, dump_items, dump_fields,
}
use matching_engine_cpp.Json.Parse.{
  is_ws, skip_ws, peek, array_loop, object_loop, parse_key, parse_array, parse_object,
  parse_raw_string, parse_null, parse_bool, after_word, parse_number, parse_string_value, parse_at,
  parse_value, parse, scan_number, array_next, object_next,
}
use matching_engine_cpp.Json.RoundTrip.Numbers.{IsBehind, to_string-cons, parse_number-to_string}
use matching_engine_cpp.Json.RoundTrip.Strings.{raw_string-dump}

-- The values that the program writes: no floating-point number, and integers of a `long long`.
unfoldable mutual
  pub IsPlain : Json → Type 0
  IsPlain null = Unit {0}
  IsPlain (bool b) = Unit {0}
  IsPlain (int n) = fits_i64 n ≡ true
  IsPlain (double d) = ⊥
  IsPlain (string s) = Unit {0}
  IsPlain (array xs) = ItemsPlain xs
  IsPlain (object fs) = FieldsPlain fs

  pub ItemsPlain : Items → Type 0
  ItemsPlain no_items = Unit {0}
  ItemsPlain (item x xs) = IsPlain x × ItemsPlain xs

  pub FieldsPlain : Fields → Type 0
  FieldsPlain no_fields = Unit {0}
  FieldsPlain (field k v fs) = IsPlain v × FieldsPlain fs

pub append_items : Items → Items → Items
append_items no_items ys = ys
append_items (item x xs) ys = item x (append_items xs ys)

pub append_items-add :
    (xs ys : Items) (x : Json) → append_items (add_item x xs) ys ≡ append_items xs (item x ys)
unfolding append_items add_item
append_items-add no_items ys x = refl
append_items-add (item y xs) ys x = ap (λ l. item y l) (append_items-add xs ys x)

pub append_items-none : (xs : Items) → append_items xs no_items ≡ xs
unfolding append_items
append_items-none no_items = refl
append_items-none (item y xs) = ap (λ l. item y l) (append_items-none xs)

pub append_fields : Fields → Fields → Fields
append_fields no_fields ys = ys
append_fields (field k v xs) ys = field k v (append_fields xs ys)

pub append_fields-add :
    (xs ys : Fields) (k : Text) (v : Json)
    → append_fields (add_field k v xs) ys ≡ append_fields xs (field k v ys)
unfolding append_fields add_field
append_fields-add no_fields ys k v = refl
append_fields-add (field j w xs) ys k v = ap (λ l. field j w l) (append_fields-add xs ys k v)

pub append_fields-none : (xs : Fields) → append_fields xs no_fields ≡ xs
unfolding append_fields
append_fields-none no_fields = refl
append_fields-none (field j w xs) = ap (λ l. field j w l) (append_fields-none xs)

pub skip_ws-head : (c : ℕ) (ts : Text) → is_ws c ≡ false → skip_ws (c ∷ ts) ≡ c ∷ ts
unfolding skip_ws
skip_ws-head c ts h = rw h

-- What a written value begins with: no white space, and no closing bracket.
abbrev pub IsFirst : ℕ → Type 0
IsFirst c = (is_ws c ≡ false) × ((c == b']') ≡ false)

pub dump-cons : (j : Json) → IsPlain j → (c : ℕ) × (t : Text) × (dump_value j ≡ c ∷ t) × IsFirst c
unfolding dump_value IsPlain dump_string
dump-cons null p = (_, _, refl, (refl, refl))
dump-cons (bool true) p = (_, _, refl, (refl, refl))
dump-cons (bool false) p = (_, _, refl, (refl, refl))
dump-cons (int n) p = let (c, t, e, h) = to_string-cons n in (c, t, e, (ground arith, ground arith))
dump-cons (double d) p = absurd p
dump-cons (string s) p = (_, _, refl, (refl, refl))
dump-cons (array no_items) p = (_, _, refl, (refl, refl))
dump-cons (array (item x xs)) p = (_, _, refl, (refl, refl))
dump-cons (object no_fields) p = (_, _, refl, (refl, refl))
dump-cons (object (field k v fs)) p = (_, _, refl, (refl, refl))

pub key-dump : (k rest : Text) → parse_key (dump_string k ++ (b':' ∷ rest)) ≡ ok (k, rest)
unfolding parse_key dump_string skip_ws
key-dump k rest =
    rw (append_assoc (dump_chars k) (quote ∷ []) (b':' ∷ rest), raw_string-dump k (b':' ∷ rest))

pub comma-IsBehind : (ts : Text) → IsBehind (b',' ∷ ts)
unfolding scan_number
comma-IsBehind ts = refl

pub bracket-IsBehind : (ts : Text) → IsBehind (b']' ∷ ts)
unfolding scan_number
bracket-IsBehind ts = refl

pub brace-IsBehind : (ts : Text) → IsBehind (b'}' ∷ ts)
unfolding scan_number
brace-IsBehind ts = refl
