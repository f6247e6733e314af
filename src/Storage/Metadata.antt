-- ===== src/Storage/Metadata.antt =====
-- The metadata of a file as text: the object that persist_metadata writes and what load_metadata
-- finds in one.
use network_file_storage.Prelude.{
  strstr, after_byte, skip_space, read_sign, strtoull, ℕ, zero, suc, ◌-◌, ◌%◌, ◌^◌, Bytes, ◌||◌,
  if◌then◌else◌, [], ◌∷◌, ◌++◌, Option, none, some, ◌>>=◌, ◌==◌, leb, ltb, codes, c_str, decimal,
  read_digits,
}
use network_file_storage.Storage.{StorageFile}

-- %lld of the 64 bits of a number.
unfoldable pub lld : ℕ → Bytes
lld n = if ltb n (2 ^ 63) then decimal n else b'-' ∷ decimal (2 ^ 64 - n)

-- The text that snprintf makes of a file in persist_metadata.
unfoldable pub metadata_text : StorageFile → Bytes
unfolding lld
metadata_text f =
    codes "{\"filename\":\""
    ++ (f.filename
        ++ (codes "\",\"owner\":\""
            ++ (f.owner
                ++ (codes "\",\"word_count\":"
                    ++ (decimal f.word_count
                        ++ (codes ",\"char_count\":"
                            ++ (decimal f.char_count
                                ++ (codes ",\"sentence_count\":"
                                    ++ (decimal f.sentence_count
                                        ++ (codes ",\"created_at\":"
                                            ++ (lld f.created_at
                                                ++ (codes ",\"modified_at\":"
                                                    ++ (lld f.modified_at
                                                        ++ (codes ",\"last_accessed\":"
                                                            ++ (lld f.last_accessed
                                                            ++ (codes ",\"last_accessed_by\":\""
                                                            ++ (f.last_accessed_by
                                                            ++ (codes "\",\"undo_token\":\""
                                                            ++ (f.undo_token
                                                            ++ codes "\"}")))))))))))))))))))

-- What follows the colon behind a key.
unfoldable pub value_of : Bytes → Bytes → Option Bytes
unfolding strstr after_byte
value_of text key = strstr text key >>= λ found. after_byte b':' found

-- while (*s == ' ' || *s == '"') s++;
unfoldable pub skip_quotes : Bytes → Bytes
skip_quotes [] = []
skip_quotes (c ∷ s) = if c == 32 || c == 34 then skip_quotes s else c ∷ s

-- The bytes before a quote, as many as the field holds.
unfoldable pub read_name : ℕ → Bytes → Bytes
read_name zero s = []
read_name (suc room) [] = []
read_name (suc room) (c ∷ s) = let rest = read_name room s in if c == 34 then [] else c ∷ rest

-- The quoted value of a key, or what the field has.
abbrev pub name_or : Bytes → Bytes → ℕ → Bytes → Bytes
name_or text key room old = elim (value_of text key) [
  | none ↦ old
  | some s ↦ read_name room (skip_quotes s)
]

-- strtoll(s, NULL, 10), as 64 bits.
unfoldable pub strtoll : Bytes → ℕ
unfolding skip_space
strtoll s =
    let (negative, t) = read_sign (skip_space s) in
    let n = read_digits 0 t in
    if negative
    then (if leb (2 ^ 63) n then 2 ^ 63 else (2 ^ 64 - n) % 2 ^ 64)
    else (if leb (2 ^ 63) n then 2 ^ 63 - 1 else n)

-- The number behind a key, or what the field has.
abbrev pub number_or : (Bytes → ℕ) → Bytes → Bytes → ℕ → ℕ
number_or read text key old = elim (value_of text key) [ none ↦ old | some s ↦ read s ]

-- load_metadata at the time `now`.
unfoldable pub load_metadata : StorageFile → Option Bytes → ℕ → StorageFile
unfolding value_of skip_quotes read_name strtoull strtoll
load_metadata f metadata_json now = elim metadata_json [
  | none ↦ record f { created_at = now; modified_at = now; last_accessed = 0 }
  | some buffer ↦
      let text = c_str buffer in
      record f {
        owner = name_or text (codes "\"owner\"") 127 f.owner;
        word_count = number_or strtoull text (codes "word_count") f.word_count;
        char_count = number_or strtoull text (codes "char_count") f.char_count;
        sentence_count = number_or strtoull text (codes "sentence_count") f.sentence_count;
        created_at = number_or strtoll text (codes "created_at") f.created_at;
        modified_at = number_or strtoll text (codes "modified_at") f.modified_at;
        last_accessed = number_or strtoll text (codes "last_accessed") f.last_accessed;
        undo_token = name_or text (codes "undo_token") 63 f.undo_token;
        last_accessed_by = name_or text (codes "last_accessed_by") 127 f.last_accessed_by;
      }
]
