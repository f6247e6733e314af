-- ===== src/Json/Tests.antt =====
-- The JSON helpers at work.
use network_file_storage.Prelude.{
  ◌≢◌, Distinct, ap, str_eq, Bytes, codes, none, some, ◌≡◌, refl, List, [], ◌∷◌, ◌++◌, ◌<◌, arith,
  length, All, strstr,
}
use network_file_storage.Json.{
  json_get_string, json_get_uint, parse_json_string_array, append_bytes, append_json_string_literal,
  array_key,
}
use network_file_storage.Json.Plain
use network_file_storage.Json.Literal.{append_literal_bounds}
use network_file_storage.Json.Arrays.{IsItem, written, parse-written}

abbrev request : Bytes
request = codes "{\"filename\": \"a.txt\",\"sentence\":12,\"mode\":\"\"}"

filename_run : json_get_string (some request) (codes "filename") 4 ≡ some (codes "a.t")
unfolding json_get_string
filename_run = refl

plain_filename_run : Plain.json_get_string request (codes "filename") 256 ≡ none
unfolding Plain.json_get_string
plain_filename_run = refl

sentence_run : json_get_uint (some request) (codes "sentence") ≡ some 12
unfolding json_get_uint
sentence_run = refl

no_digits_run : json_get_uint (some request) (codes "mode") ≡ none
unfolding json_get_uint
no_digits_run = refl

abbrev listing : Bytes
listing = codes "{\"files\":[\"a\",\"say \\\"]\\\"\",\"a\"],\"folders\":[]}"

listing_run :
    parse_json_string_array (some listing) (codes "files") [] ≡ codes "a" ∷ codes "say \"]\"" ∷ []
unfolding parse_json_string_array str_eq
listing_run = refl

short_run : append_json_string_literal 6 (codes "[") (codes "abcdef") ≡ codes "[\"ab\""
unfolding append_json_string_literal
short_run = refl

append_literal_bounds_example :
    length (append_json_string_literal 6 (codes "[") (codes "abcdef")) < 6
append_literal_bounds_example = append_literal_bounds 6 (codes "[") (codes "abcdef") (omega arith)

abbrev values : List Bytes
values = codes "a" ∷ codes "say \"]\"" ∷ []

values-IsItem : All IsItem values
values-IsItem = (
  record { kept = omega arith; short = omega arith },
  (record { kept = omega arith; short = omega arith }, tt),
)

values_full : All (λ v. v ≢ []) values
values_full = (λ e. cc e, (λ e. cc e, tt))

values-Distinct : Distinct values
values-Distinct = ((λ e. absurd (omega (arith, ap length e)), tt), (tt, tt))

abbrev pair : Bytes
pair = codes "{\"files\":[\"a\",\"say \\\"]\\\"\"],\"folders\":[]}"

found_run :
    strstr pair (array_key (codes "files"))
    ≡ some (array_key (codes "files") ++ (written values ++ b']' ∷ codes ",\"folders\":[]}"))
unfolding strstr written append_json_string_literal append_bytes
found_run = refl

parse-written_example : parse_json_string_array (some pair) (codes "files") [] ≡ values
parse-written_example =
    parse-written pair (codes "files") (codes ",\"folders\":[]}") values [] values-IsItem
      values_full values-Distinct found_run
