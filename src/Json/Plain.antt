-- ===== src/Json/Plain.antt =====
-- json_get_string and json_get_ulong of storage_server/src/main.c. The payload is not null.
use network_file_storage.Prelude.{
  ℕ, ◌-◌, Bytes, codes, Option, none, some, ◌>>=◌, ◌∷◌, ◌++◌, take, drop, length, strstr,
  starts_with, before_byte, strtoull,
}
use network_file_storage.Json.{skip_tabs}

-- "\"%s\":\"" and "\"%s\":" of a key, in a buffer of 128 bytes.
abbrev pub string_key : Bytes → Bytes
string_key key = take 127 (b'"' ∷ (key ++ codes "\":\""))

abbrev pub number_key : Bytes → Bytes
number_key key = take 127 (b'"' ∷ (key ++ codes "\":"))

-- json_get_string into a buffer of `bufsize` bytes; none is NULL, and the buffer is left alone.
unfoldable pub json_get_string : Bytes → Bytes → ℕ → Option Bytes
unfolding strstr starts_with before_byte
json_get_string json key bufsize = strstr json (string_key key) >>= λ p.
    before_byte b'"' (drop (length (string_key key)) p) >>= λ t. some (take (bufsize - 1) t)

-- A buffer that holds `old` before the call.
abbrev pub string_or : Bytes → Bytes → ℕ → Bytes → Bytes
string_or json key bufsize old = elim (json_get_string json key bufsize) [ none ↦ old | some t ↦ t ]

unfoldable pub json_get_ulong : Bytes → Bytes → ℕ
unfolding strstr starts_with skip_tabs strtoull
json_get_ulong json key = elim (strstr json (number_key key)) [
  | none ↦ 0
  | some p ↦ strtoull (skip_tabs (drop (length (number_key key)) p))
]
