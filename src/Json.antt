-- ===== src/Json.antt =====
-- The JSON helpers of name_server/src/main.c and storage_server/src/main.c: they find the values of a
-- flat object by text search. Where both programs have a function of one name, that of the storage
-- server stands in the child Plain.
pub mod Plain
pub mod Literal
pub mod Arrays
mod Tests
use network_file_storage.Prelude.{
  ℕ, zero, suc, ◌+◌, ◌-◌, ◌%◌, ◌^◌, Bytes, codes, Bool, true, false, ◌&&◌, ◌||◌, not, if◌then◌else◌,
  List, [], ◌∷◌, ◌++◌, Option, none, some, ◌>>=◌, ◌==◌, ltb, leb, length, take, drop, str_eq,
  strstr, after_byte, before_byte, skip_space, read_sign, read_digits, is_digit, starts_with,
}

-- "\"%s\"" of a key, in a buffer of 128 bytes.
abbrev pub quoted : Bytes → Bytes
quoted key = take 127 (b'"' ∷ (key ++ b'"' ∷ []))

-- while (*pos == ' ' || *pos == '\t') pos++;
unfoldable pub skip_tabs : Bytes → Bytes
skip_tabs [] = []
skip_tabs (c ∷ s) = if c == 32 || c == 9 then skip_tabs s else c ∷ s

-- The text from the value of a key on.
unfoldable pub value_at : Bytes → Bytes → Option Bytes
unfolding strstr starts_with after_byte skip_tabs
value_at json key = strstr json (quoted key) >>= λ pos.
    after_byte b':' (drop (length (quoted key)) pos) >>= λ rest. some (skip_tabs rest)

-- A quoted text at the front, cut to `out_len` bytes with its NUL.
abbrev pub quoted_value : Bytes → ℕ → Option Bytes
quoted_value [] out_len = none
quoted_value (c ∷ s) out_len =
    if c == b'"' then (before_byte b'"' s >>= λ t. some (take (out_len - 1) t)) else none

-- json_get_string into a buffer of `out_len` bytes; none is the result false.
unfoldable pub json_get_string : Option Bytes → Bytes → ℕ → Option Bytes
unfolding value_at before_byte
json_get_string none key out_len = none
json_get_string (some json) key out_len =
    if out_len == 0 then none else (value_at json key >>= λ pos. quoted_value pos out_len)

-- There is a digit at the front.
abbrev pub has_digit : Bytes → Bool
has_digit [] = false
has_digit (c ∷ s) = is_digit c

-- strtoul with its end pointer and errno: none where no digit is read or the number does not fit.
unfoldable pub strtoul_checked : Bytes → Option ℕ
unfolding skip_space read_digits
strtoul_checked s =
    let (negative, t) = read_sign (skip_space s) in
    let n = read_digits 0 t in
    if has_digit t && ltb n (2 ^ 64)
    then some (if negative then (2 ^ 64 - n) % 2 ^ 64 else n)
    else none

-- json_get_uint; none is the result false.
unfoldable pub json_get_uint : Option Bytes → Bytes → Option ℕ
unfolding value_at strtoul_checked
json_get_uint none key = none
json_get_uint (some json) key = value_at json key >>= λ pos. strtoul_checked pos

-- A text is in the list.
unfoldable pub has_item : Bytes → List Bytes → Bool
has_item value [] = false
has_item value (x ∷ items) = str_eq x value || has_item value items

abbrev pub is_nil : Bytes → Bool
is_nil [] = true
is_nil (c ∷ s) = false

-- string_list_add_unique, while memory does not run out.
unfoldable pub string_list_add_unique : List Bytes → Bytes → List Bytes
unfolding has_item
string_list_add_unique items value =
    if is_nil value || has_item value items then items else items ++ value ∷ []

-- The first loop of parse_json_string_array: the bytes before the bracket that ends the array.
unfoldable pub array_text : Bool → Bool → Bytes → Option Bytes
array_text in_string escape [] = none
array_text in_string escape (ch ∷ s) =
    let quote = not escape && ch == b'"' in
    let more =
      array_text (if in_string then not quote else ch == b'"')
        (in_string && (not escape && ch == b'\\')) s in
    if not in_string && ch == b']' then some [] else (more >>= λ t. some (ch ∷ t))

-- The second loop. `buffer` is what is read of the current string, of which 511 bytes are kept.
unfoldable pub read_items : Bool → Bool → Bytes → List Bytes → Bytes → List Bytes
unfolding string_list_add_unique
read_items in_string escape buffer items [] = items
read_items in_string escape buffer items (ch ∷ s) =
    let kept = if ltb (length buffer) 511 then buffer ++ ch ∷ [] else buffer in
    elim in_string [
      | false ↦ read_items (ch == b'"') false (if ch == b'"' then [] else buffer) items s
      | true ↦ elim escape [
        | true ↦ read_items true false kept items s
        | false ↦ elim (ch == b'\\') [
          | true ↦ read_items true true buffer items s
          | false ↦ elim (ch == b'"') [
            | true ↦ read_items false false buffer (string_list_add_unique items buffer) s
            | false ↦ read_items true false kept items s
          ]
        ]
      ]
    ]

-- "\"%s\":[" of a key, in a buffer of 64 bytes.
abbrev pub array_key : Bytes → Bytes
array_key key = take 63 (b'"' ∷ (key ++ codes "\":["))

-- parse_json_string_array
unfoldable pub parse_json_string_array : Option Bytes → Bytes → List Bytes → List Bytes
unfolding strstr starts_with array_text read_items
parse_json_string_array none key items = items
parse_json_string_array (some json) key items = elim (strstr json (array_key key)) [
  | none ↦ items
  | some pos ↦ elim (array_text false false (drop (length (array_key key)) pos)) [
    | none ↦ items
    | some text ↦ read_items false false [] items text
  ]
]

-- How append_json_string_literal writes a byte.
abbrev pub escaped : ℕ → Bytes
escaped ch =
    if ch == b'"' || ch == b'\\'
    then b'\\' ∷ ch ∷ []
    else if ch == 10
    then codes "\\n"
    else if ch == 13
    then codes "\\r"
    else if ch == 9
    then codes "\\t"
    else ch ∷ []

abbrev pub is_escaped : ℕ → Bool
is_escaped ch = ch == b'"' || (ch == b'\\' || (ch == 10 || (ch == 13 || ch == 9)))

-- The loop over the value, in a buffer of `buf_len` bytes.
unfoldable pub append_bytes : ℕ → Bytes → Bytes → Bytes
append_bytes buf_len buf [] = buf
append_bytes buf_len buf (ch ∷ s) =
    let more = append_bytes buf_len (buf ++ escaped ch) s in
    if ltb (length buf) (buf_len - 2) && not (is_escaped ch && leb buf_len (length buf + 2))
    then more
    else buf

-- append_json_string_literal. The offset is the length of what the buffer holds.
unfoldable pub append_json_string_literal : ℕ → Bytes → Bytes → Bytes
unfolding append_bytes
append_json_string_literal buf_len buf value =
    let filled = append_bytes buf_len (buf ++ b'"' ∷ []) value in
    if leb buf_len (length buf + 2)
    then buf
    else if ltb (length filled) (buf_len - 1)
    then filled ++ b'"' ∷ []
    else filled
