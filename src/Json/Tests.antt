-- ===== src/Json/Tests.antt =====
-- Values that are written and read.
use matching_engine_cpp.Base.{◌≡◌, refl, [], ◌∷◌, negsuc, Text, codes, threw, Result, ok, err}
use matching_engine_cpp.Json.{
  Json, Double, null, int, string, array, object, no_items, item, no_fields, field,
}
use matching_engine_cpp.Json.Dump.{dump_value, dump_string, dump_chars, dump_char}
use matching_engine_cpp.Json.Numbers.{to_string, digits, hex}
use matching_engine_cpp.Json.Parse.{parse}
use matching_engine_cpp.Json.RoundTrip.{IsPlain}
use matching_engine_cpp.Json.RoundTrip.Values.{parse-dump}
use matching_engine_cpp.Json.Parse.Ending.{Finishes}
use matching_engine_cpp.Json.Parse.Returns.{parse-Finishes}

-- A library function that refuses every token: no floating-point number is read.
abbrev no_stod : Text → Result Double
no_stod token = err (threw token)

abbrev sample : Json
sample = object (
    field (codes "id") (int (negsuc 6)) (
      field (codes "tags") (array (item (string (34 ∷ 10 ∷ 1 ∷ [])) (item null no_items)))
        no_fields))

-- {"id":-7,"tags":["\"\n\u0001",null]}
sample_text : dump_value sample ≡ codes "{\"id\":-7,\"tags\":[\"\\\"\\n\\u0001\",null]}"
unfolding dump_value dump_string dump_chars dump_char to_string digits hex codes
sample_text = refl

parse-dump_example : parse no_stod (dump_value sample) ≡ ok sample
parse-dump_example = parse-dump no_stod sample (unfold IsPlain in (refl, ((tt, (tt, tt)), tt)))

-- An object that does not end, in an array that does not end.
parse-Finishes_example : Finishes (parse no_stod (codes "[1, {\"a\": tru"))
parse-Finishes_example = parse-Finishes no_stod (λ token. tt) (codes "[1, {\"a\": tru")
