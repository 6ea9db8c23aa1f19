-- ===== src/Json/Dump.antt =====
-- src/json.cpp: how a JSON value is written.
pub mod Printed
use matching_engine_cpp.Base.{ℕ, Bool, true, false, [], ◌∷◌, ◌++◌, ltb, ◌==◌, if◌then◌else◌, Text}
use matching_engine_cpp.Json.{
  Json, null, bool, int, double, string, array, object, Items, no_items, item, Fields, no_fields,
  field,
}
use matching_engine_cpp.Json.Numbers.{to_string, hex}

abbrev pub quote : ℕ
quote = 34

abbrev pub backslash : ℕ
backslash = 92

-- What stands for a character inside the quotes.
unfoldable pub dump_char : ℕ → Text
dump_char c =
    if c == quote
    then backslash ∷ quote ∷ []
    else if c == backslash
    then backslash ∷ backslash ∷ []
    else if c == 10
    then backslash ∷ b'n' ∷ []
    else if c == 13
    then backslash ∷ b'r' ∷ []
    else if c == 9
    then backslash ∷ b't' ∷ []
    else if c == 8
    then backslash ∷ b'b' ∷ []
    else if c == 12
    then backslash ∷ b'f' ∷ []
    else if ltb c 0x20
    then backslash ∷ b'u' ∷ hex 4 c
    else c ∷ []

unfoldable pub dump_chars : Text → Text
unfolding dump_char
dump_chars [] = []
dump_chars (c ∷ cs) = dump_char c ++ dump_chars cs

unfoldable pub dump_string : Text → Text
unfolding dump_chars
dump_string s = quote ∷ (dump_chars s ++ (quote ∷ []))

abbrev pub dump_bool : Bool → Text
dump_bool true = b't' ∷ b'r' ∷ b'u' ∷ b'e' ∷ []
dump_bool false = b'f' ∷ b'a' ∷ b'l' ∷ b's' ∷ b'e' ∷ []

-- The items and fields after the first have a comma before them.
unfoldable mutual
  pub dump_value : Json → Text
  dump_value null = b'n' ∷ b'u' ∷ b'l' ∷ b'l' ∷ []
  dump_value (bool b) = dump_bool b
  dump_value (int n) = to_string n
  dump_value (double d) = d.printed
  dump_value (string s) = dump_string s
  dump_value (array no_items) = b'[' ∷ b']' ∷ []
  dump_value (array (item x xs)) = b'[' ∷ (dump_value x ++ (dump_items xs ++ (b']' ∷ [])))
  dump_value (object no_fields) = b'{' ∷ b'}' ∷ []
  dump_value (object (field k v fs)) =
      b'{' ∷ (dump_string k ++ (b':' ∷ (dump_value v ++ (dump_fields fs ++ (b'}' ∷ [])))))

  pub dump_items : Items → Text
  dump_items no_items = []
  dump_items (item x xs) = b',' ∷ (dump_value x ++ dump_items xs)

  pub dump_fields : Fields → Text
  dump_fields no_fields = []
  dump_fields (field k v fs) = b',' ∷ (dump_string k ++ (b':' ∷ (dump_value v ++ dump_fields fs)))
