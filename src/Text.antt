-- ===== src/Text.antt =====
-- The text routines of storage_server/src/storage_engine.c: sentences, words, the edits of a
-- sentence, checkpoint tags and relative paths. A counted buffer is the list of its bytes.
pub mod Spans
pub mod Words
pub mod Counting
pub mod Updates
pub mod Names
mod Tests
use network_file_storage.Prelude.{
  ℕ, zero, suc, ◌+◌, ◌-◌, Bytes, Bool, true, false, not, ◌&&◌, ◌||◌, if◌then◌else◌, List, [], ◌∷◌,
  ◌++◌, Option, none, some, ◌==◌, leb, ltb, length, take, drop, codes, c_str, str_eq,
}

-- c == '.' || c == '!' || c == '?'
abbrev pub is_delimiter : ℕ → Bool
is_delimiter c = c == b'.' || (c == b'!' || c == b'?')

-- c == ' ' || c == '\n' || c == '\r' || c == '\t'
abbrev pub is_blank : ℕ → Bool
is_blank c = c == 32 || (c == 10 || (c == 13 || c == 9))

-- sentence_span_t
pub record SentenceSpan : Type 0 where
  pub start : ℕ
  pub length : ℕ

-- The loop of compute_spans at byte `i`, in a sentence that begins at `start`. With `skipping` the
-- loop that moves `start` over the blanks behind a sentence is under way, and `start` is `i`.
unfoldable pub scan_spans : Bool → ℕ → ℕ → Bytes → List SentenceSpan
scan_spans skipping i start [] = []
scan_spans skipping i start (c ∷ rest) =
    let skipped = skipping && is_blank c in
    let next = i + 1 in
    let spans =
      scan_spans (skipped || is_delimiter c) next
        (if skipped || is_delimiter c then next else start) rest in
    if not skipped && is_delimiter c
    then record { start = start; length = next - start } ∷ spans
    else spans

-- compute_spans, while memory does not run out.
unfoldable pub compute_spans : Bytes → List SentenceSpan
unfolding scan_spans
compute_spans text = scan_spans false 0 0 text

-- The loop of count_words.
unfoldable pub count_from : Bool → Bytes → ℕ
count_from in_word [] = 0
count_from in_word (c ∷ rest) =
    let count = count_from (not (is_blank c)) rest in
    if is_blank c then count else if in_word then count else count + 1

-- count_words stops at a NUL.
unfoldable pub count_words : Bytes → ℕ
unfolding count_from
count_words text = count_from false (c_str text)

-- normalise_inline_whitespace
abbrev pub normalise_byte : ℕ → ℕ
normalise_byte c = if c == 13 || (c == 10 || c == 9) then 32 else c

unfoldable pub normalise_inline_whitespace : Bytes → Bytes
normalise_inline_whitespace [] = []
normalise_inline_whitespace (c ∷ rest) = normalise_byte c ∷ normalise_inline_whitespace rest

abbrev pub is_empty : Bytes → Bool
is_empty [] = true
is_empty (c ∷ s) = false

-- strtok_r(s, " ", …) until it returns NULL: the longest runs without the separator. `word` is the
-- run that is being read.
unfoldable pub split_from : ℕ → Bytes → Bytes → List Bytes
split_from separator word [] = if is_empty word then [] else word ∷ []
split_from separator word (c ∷ rest) =
    let tokens = split_from separator (if c == separator then [] else word ++ c ∷ []) rest in
    if c == separator && not (is_empty word) then word ∷ tokens else tokens

-- tokenize_words, while memory does not run out.
unfoldable pub tokenize_words : Bytes → List Bytes
unfolding split_from normalise_inline_whitespace
tokenize_words sentence = split_from 32 [] (normalise_inline_whitespace (c_str sentence))

-- storage_word_update_t. `text` is null or a string.
pub record WordUpdate : Type 0 where
  pub index : ℕ
  pub text : Option Bytes

-- memmove and the loop that stores the new tokens.
abbrev pub insert_words : List Bytes → ℕ → List Bytes → List Bytes
insert_words words index tokens = take index words ++ (tokens ++ drop index words)

-- One round of apply_updates; none is STORAGE_ERR_INVALID.
unfoldable pub apply_update : List Bytes → WordUpdate → Option (List Bytes)
unfolding tokenize_words
apply_update words u = elim u.text [
  | none ↦ none
  | some text ↦
      if ltb (length words) u.index
      then none
      else some (insert_words words u.index (tokenize_words text))
]

-- What apply_updates returns: the words behind the caller's pointer, or STORAGE_ERR_INVALID, with
-- whether realloc has taken the words that the caller still points to.
pub data UpdateResult : Type 0 where
  updated : List Bytes → UpdateResult
  refused : Bool → UpdateResult

-- The loop of apply_updates; `taken` is whether an earlier round has given the words to realloc.
unfoldable pub update_loop : Bool → List Bytes → List WordUpdate → UpdateResult
unfolding apply_update
update_loop taken words [] = updated words
update_loop taken words (u ∷ updates) = elim (apply_update words u) [
  | none ↦ refused taken
  | some words' ↦ update_loop (taken || ltb (length words) (length words')) words' updates
]

-- apply_updates, while memory does not run out.
unfoldable pub apply_updates : List Bytes → List WordUpdate → UpdateResult
unfolding update_loop
apply_updates words updates = update_loop false words updates

-- join_words: a blank between two words.
unfoldable pub join_words : List Bytes → Bytes
join_words [] = []
join_words (w ∷ []) = w
join_words (w ∷ w' ∷ words) = w ++ (32 ∷ join_words (w' ∷ words))

-- The test on one byte of a checkpoint tag.
abbrev pub is_tag_byte : ℕ → Bool
is_tag_byte c =
    (leb b'a' c && leb c b'z')
    || ((leb b'A' c && leb c b'Z') || ((leb b'0' c && leb c b'9') || (c == b'-' || c == b'_')))

unfoldable pub all_tag_bytes : Bytes → Bool
all_tag_bytes [] = true
all_tag_bytes (c ∷ rest) = if is_tag_byte c then all_tag_bytes rest else false

-- is_valid_checkpoint_tag
unfoldable pub is_valid_checkpoint_tag : Bytes → Bool
unfolding all_tag_bytes
is_valid_checkpoint_tag tag = if is_empty tag then false else all_tag_bytes tag

abbrev pub path_max : ℕ
path_max = 4096

-- The loop that skips the leading slashes.
unfoldable pub skip_slashes : Bytes → Bytes
skip_slashes [] = []
skip_slashes (c ∷ rest) = if c == b'/' then skip_slashes rest else c ∷ rest

-- The copying loop: a run of slashes becomes one. `after_slash` says that a slash was just copied,
-- and `room` how many more bytes fit into `temp`.
unfoldable pub squeeze : Bool → ℕ → Bytes → Bytes
squeeze after_slash room [] = []
squeeze after_slash zero (c ∷ rest) = []
squeeze after_slash (suc room) (c ∷ rest) =
    let dropped = after_slash && c == b'/' in
    let tail = squeeze (c == b'/') (if dropped then suc room else room) rest in
    if dropped then tail else c ∷ tail

-- The loop that removes trailing slashes.
unfoldable pub trim_slashes : Bytes → Bytes
trim_slashes [] = []
trim_slashes (c ∷ rest) =
    let tail = trim_slashes rest in if c == b'/' && is_empty tail then [] else c ∷ tail

-- A component "." or "..".
abbrev pub is_dots : Bytes → Bool
is_dots tok = str_eq tok (codes ".") || str_eq tok (codes "..")

unfoldable pub any_dots : List Bytes → Bool
any_dots [] = false
any_dots (tok ∷ toks) = if is_dots tok then true else any_dots toks

-- normalize_relative_path into a buffer of `len` bytes; none is the return value -1.
unfoldable pub normalize_relative_path : Option Bytes → ℕ → Option Bytes
unfolding skip_slashes squeeze trim_slashes any_dots split_from
normalize_relative_path input len = if len == 0 then none else elim input [
  | none ↦ some []
  | some s ↦
      let temp = trim_slashes (squeeze false (path_max - 1) (skip_slashes s)) in
      if any_dots (split_from b'/' [] temp) then none else some (take (len - 1) temp)
]
