-- ===== src/Json/Arrays.antt =====
-- parse_json_string_array reads back an array of literals.
use mathlib.Core.Path.{subst}
use network_file_storage.Prelude.{
  sym, ◌*◌, Lacks-middle, Distinct, str_eq_iff, ==_iff, append-nil, ℕ, ◌+◌, ◌≤◌, Bytes, true, false,
  List, [], ◌∷◌, ◌++◌, append_assoc, some, ◌≡◌, ◌≢◌, refl, ap, ◌∙◌, arith, ◌==◌, ltb, length,
  length-append, Bool-cases, inl, inr, All, strstr, drop-append,
}
use network_file_storage.Json.{
  has_item, escaped, append_json_string_literal, array_text, read_items, array_key,
  parse_json_string_array, string_list_add_unique,
}
use network_file_storage.Json.Literal.{escape_all, length-escaped, append_literal_whole}

-- A byte whose escape is read back: no newline, carriage return or tab.
abbrev pub Kept : ℕ → Type 0
Kept c = (c ≢ 10) × (c ≢ 13) × (c ≢ 9)

-- A value that the array can hold.
pub record IsItem (value : Bytes) : Type 0 where
  pub kept : All Kept value
  pub short : length value ≤ 511

abbrev pub literal : Bytes → Bytes
literal value = b'"' ∷ (escape_all value ++ b'"' ∷ [])

-- The literals of an array with commas between them.
unfoldable pub literals : List Bytes → Bytes
literals [] = []
literals (v ∷ []) = literal v
literals (v ∷ w ∷ vs) = literal v ++ b',' ∷ literals (w ∷ vs)

-- The values in their order, each once and none empty.
unfoldable pub add_all : List Bytes → List Bytes → List Bytes
add_all items [] = items
add_all items (v ∷ vs) = add_all (string_list_add_unique items v) vs

read_escaped :
    (value buffer : Bytes) (items : List Bytes) (rest : Bytes)
    → All Kept value
    → length buffer + length value ≤ 511
    → read_items true false buffer items (escape_all value ++ b'"' ∷ rest)
      ≡ read_items false false
          (buffer ++ value)
          (string_list_add_unique items (buffer ++ value))
          rest
unfolding read_items escape_all
read_escaped [] buffer items rest k h = rw append-nil refl
read_escaped (c ∷ value) buffer items rest k h =
    let more =
      read_escaped value (buffer ++ c ∷ []) items rest k.1
        (omega (arith, length-append buffer (c ∷ []), h)) in
    let room : ltb (length buffer) 511 ≡ true = ground (arith, h) in
    let joined = append_assoc buffer (c ∷ []) value in
    elim (Bool-cases (c == b'"')) [
      | inl e ↦
          let same : c ≡ b'"' = (==_iff c b'"').0 e in ground (arith, same, room, more, joined)
      | inr q ↦ elim (Bool-cases (c == b'\\')) [
        | inl e ↦
            let same : c ≡ b'\\' = (==_iff c b'\\').0 e in ground (arith, same, room, more, joined)
        | inr b ↦ ground (arith, q, b, k.0, room, more, joined)
      ]
    ]

text_escaped :
    (value rest t : Bytes)
    → array_text false false rest ≡ some t
    → array_text true false (escape_all value ++ b'"' ∷ rest) ≡ some (escape_all value ++ b'"' ∷ t)
unfolding array_text escape_all
text_escaped [] rest t h = rw (h, array_text) refl
text_escaped (c ∷ value) rest t h = let more = text_escaped value rest t h in ground (arith, more)

read_literals :
    (vs : List Bytes) (buffer : Bytes) (items : List Bytes)
    → All IsItem vs
    → read_items false false buffer items (literals vs) ≡ add_all items vs
unfolding literals add_all read_items
read_literals [] buffer items h = refl
read_literals (v ∷ []) buffer items h =
    read_escaped v [] items [] h.0.kept (omega (arith, h.0.short))
read_literals (v ∷ w ∷ vs) buffer items h =
    ap (λ s. read_items true false [] items s)
      (append_assoc (escape_all v) (b'"' ∷ []) (b',' ∷ literals (w ∷ vs)))
    ∙ read_escaped v [] items (b',' ∷ literals (w ∷ vs)) h.0.kept (omega (arith, h.0.short))
    ∙ read_literals (w ∷ vs) v (string_list_add_unique items v) h.1

text_literals :
    (vs : List Bytes) (rest : Bytes)
    → array_text false false (literals vs ++ b']' ∷ rest) ≡ some (literals vs)
unfolding literals array_text
text_literals [] rest = refl
text_literals (v ∷ []) rest =
    let shape = append_assoc (escape_all v) (b'"' ∷ []) (b']' ∷ rest) in
    ground (arith, shape, text_escaped v (b']' ∷ rest) [] refl)
text_literals (v ∷ w ∷ vs) rest =
    let tail = b',' ∷ literals (w ∷ vs) in
    let shape = append_assoc (escape_all v) (b'"' ∷ []) (tail ++ b']' ∷ rest) in
    let whole = append_assoc (escape_all v ++ b'"' ∷ []) tail (b']' ∷ rest) in
    let inner = append_assoc (escape_all v) (b'"' ∷ []) tail in
    let more : array_text false false (tail ++ b']' ∷ rest) ≡ some tail =
      ground (arith, text_literals (w ∷ vs) rest) in
    ground (arith, shape, whole, inner, text_escaped v (tail ++ b']' ∷ rest) tail more)

has_item_new :
    (items vs : List Bytes) (v : Bytes) → Distinct (items ++ v ∷ vs) → has_item v items ≡ false
unfolding has_item
has_item_new [] vs v h = refl
has_item_new (x ∷ items) vs v h =
    let apart : v ≢ x = Lacks-middle x items vs v h.0 in
    ground (arith, str_eq_iff x v, apart, has_item_new items vs v h.1)

-- Values that are new and not empty are all added.
add_all-Distinct :
    (items vs : List Bytes)
    → All (λ v. v ≢ []) vs
    → Distinct (items ++ vs)
    → add_all items vs ≡ items ++ vs
unfolding add_all string_list_add_unique
add_all-Distinct items [] full h = sym (append-nil items)
add_all-Distinct items ([] ∷ vs) full h = absurd (full.0 refl)
add_all-Distinct items ((c ∷ v) ∷ vs) full h =
    let shape = append_assoc items ((c ∷ v) ∷ []) vs in
    let same : items ++ (c ∷ v) ∷ vs ≡ (items ++ (c ∷ v) ∷ []) ++ vs = sym shape in
    rw (has_item_new items vs (c ∷ v) h, string_list_add_unique)
      (add_all-Distinct (items ++ (c ∷ v) ∷ []) vs full.1 (subst Distinct same h) ∙ shape)

length-escape_all : (value : Bytes) → length (escape_all value) ≤ 2 * length value
unfolding escape_all
length-escape_all [] = omega arith
length-escape_all (c ∷ value) =
    ground (
      arith,
      length-append (escaped c) (escape_all value),
      length-escaped c,
      length-escape_all value,
    )

-- The values as append_json_string_literal writes them into a buffer of 1025 bytes each, with commas
-- between them.
unfoldable pub written : List Bytes → Bytes
unfolding append_json_string_literal
written [] = []
written (v ∷ []) = append_json_string_literal 1025 [] v
written (v ∷ w ∷ vs) = append_json_string_literal 1025 [] v ++ b',' ∷ written (w ∷ vs)

written-literals : (vs : List Bytes) → All IsItem vs → written vs ≡ literals vs
unfolding written literals
written-literals [] h = refl
written-literals (v ∷ []) h =
    append_literal_whole 1025 [] v (omega (arith, length-escape_all v, h.0.short))
written-literals (v ∷ w ∷ vs) h =
    let one = append_literal_whole 1025 [] v (omega (arith, length-escape_all v, h.0.short)) in
    cc (one, written-literals (w ∷ vs) h.1)

-- What append_json_string_literal writes is read back by parse_json_string_array: where the key first
-- stands in a text, with some values written behind it, the values are added to the list, each once and
-- in their order. The values differ from one another and from those in the list; none is empty, longer
-- than 511 bytes, or has a newline, carriage return or tab, whose escapes are read as letters.
pub parse-written :
    (json key rest : Bytes) (vs items : List Bytes)
    → All IsItem vs
    → All (λ v. v ≢ []) vs
    → Distinct (items ++ vs)
    → strstr json (array_key key) ≡ some (array_key key ++ (written vs ++ b']' ∷ rest))
    → parse_json_string_array (some json) key items ≡ items ++ vs
unfolding parse_json_string_array
parse-written json key rest vs items h full apart found =
    let same = written-literals vs h in
    let place : strstr json (array_key key) ≡ some (array_key key ++ (literals vs ++ b']' ∷ rest)) =
      rw⁻¹ same found in
    let behind = drop-append (array_key key) (literals vs ++ b']' ∷ rest) in
    rw (place, parse_json_string_array, behind, text_literals vs rest)
      (read_literals vs [] items h ∙ add_all-Distinct items vs full apart)
