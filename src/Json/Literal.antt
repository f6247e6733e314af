-- ===== src/Json/Literal.antt =====
-- append_json_string_literal stays within its buffer, and what it writes where there is room.
use network_file_storage.Prelude.{
  append-nil, ℕ, ◌+◌, ◌≤◌, ◌<◌, Bytes, if◌then◌else◌, [], ◌∷◌, ◌++◌, append_assoc, ◌≡◌, sym, arith,
  length, length-append,
}
use network_file_storage.Json.{escaped, is_escaped, append_bytes, append_json_string_literal}

pub length-escaped : (ch : ℕ) → length (escaped ch) ≡ (if is_escaped ch then 2 else 1)
length-escaped ch = ground arith

append_bytes_fits :
    (buf_len : ℕ) (buf s : Bytes)
    → length buf < buf_len
    → length (append_bytes buf_len buf s) < buf_len
unfolding append_bytes
append_bytes_fits buf_len buf [] h = h
append_bytes_fits buf_len buf (ch ∷ s) h = ground (
  arith,
  length-append buf (escaped ch),
  length-escaped ch,
  append_bytes_fits buf_len (buf ++ escaped ch) s,
)

-- However long the value is, what append_json_string_literal leaves in a buffer of `buf_len` bytes
-- and its NUL fit into the buffer.
pub append_literal_bounds :
    (buf_len : ℕ) (buf value : Bytes)
    → length buf < buf_len
    → length (append_json_string_literal buf_len buf value) < buf_len
unfolding append_json_string_literal
append_literal_bounds buf_len buf value h =
    let start = buf ++ b'"' ∷ [] in
    ground (
      arith,
      length-append buf (b'"' ∷ []),
      append_bytes_fits buf_len start value,
      length-append (append_bytes buf_len start value) (b'"' ∷ []),
    )

-- A value with its escapes.
unfoldable pub escape_all : Bytes → Bytes
escape_all [] = []
escape_all (ch ∷ s) = escaped ch ++ escape_all s

append_bytes_all :
    (buf_len : ℕ) (buf s : Bytes)
    → length buf + length (escape_all s) + 2 ≤ buf_len
    → append_bytes buf_len buf s ≡ buf ++ escape_all s
unfolding append_bytes escape_all
append_bytes_all buf_len buf [] h = sym (append-nil buf)
append_bytes_all buf_len buf (ch ∷ s) h =
    let size = length-append (escaped ch) (escape_all s) in
    ground (
      arith,
      size,
      length-append buf (escaped ch),
      length-escaped ch,
      h,
      append_assoc buf (escaped ch) (escape_all s),
      append_bytes_all buf_len (buf ++ escaped ch) s
          (omega (arith, size, length-append buf (escaped ch), h)),
    )

-- Where there is room for it, append_json_string_literal writes the whole value between quotes.
pub append_literal_whole :
    (buf_len : ℕ) (buf value : Bytes)
    → length buf + length (escape_all value) + 3 ≤ buf_len
    → append_json_string_literal buf_len buf value ≡ buf ++ b'"' ∷ (escape_all value ++ b'"' ∷ [])
unfolding append_json_string_literal
append_literal_whole buf_len buf value h =
    let quote = b'"' ∷ [] in
    let start = buf ++ quote in
    let text = escape_all value in
    ground (
      arith,
      h,
      length-append buf quote,
      length-append start text,
      append_bytes_all buf_len start value (omega (arith, length-append buf quote, h)),
      append_assoc start text quote,
      append_assoc buf quote (text ++ quote),
    )
