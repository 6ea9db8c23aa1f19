-- ===== src/Json.antt =====
-- include/json.hpp: the JSON values of the log and the snapshots, and what is read of them.
pub mod Numbers
pub mod Dump
pub mod Parse
pub mod RoundTrip
mod Tests
use matching_engine_cpp.Base.{
  Bool, Option, none, some, [], ◌∷◌, if◌then◌else◌, ℤ, pos, Text, text_eq, int_eq, text_eq_instance,
}

-- A `double` stands by what the program makes of one: the text that `%.17g` prints, and its integer
-- part, which `as_int` reads.
pub record Double : Type 0 where
  pub printed : Text
  pub integer_part : ℤ

mutual
  pub data Json : Type 0 where
    null : Json
    bool : Bool → Json
    int : ℤ → Json
    double : Double → Json
    string : Text → Json
    array : Items → Json
    object : Fields → Json

  pub data Items : Type 0 where
    no_items : Items
    item : Json → Items → Items

  pub data Fields : Type 0 where
    no_fields : Fields
    field : Text → Json → Fields → Fields

abbrev pub make_object : Json
make_object = object no_fields

unfoldable pub add_field : Text → Json → Fields → Fields
add_field key value no_fields = field key value no_fields
add_field key value (field k v fs) = field k v (add_field key value fs)

unfoldable pub add_item : Json → Items → Items
add_item value no_items = item value no_items
add_item value (item x xs) = item x (add_item value xs)

-- The callers set the fields of objects only.
unfoldable pub set : Text → Json → Json → Json
unfolding add_field
set key value (object fs) = object (add_field key value fs)
set key value j = j

unfoldable pub find_field : Text → Fields → Option Json
unfolding text_eq
find_field key no_fields = none
find_field key (field k v fs) = if text_eq k key then some v else find_field key fs

-- Only an object has fields.
unfoldable pub find : Text → Json → Option Json
unfolding find_field
find key (object fs) = find_field key fs
find key j = none

unfoldable pub as_int : Json → ℤ
as_int (int n) = n
as_int (double d) = d.integer_part
as_int j = pos 0

unfoldable pub as_string : Json → Text
as_string (string s) = s
as_string j = []
