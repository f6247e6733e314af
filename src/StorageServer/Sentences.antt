-- ===== src/StorageServer/Sentences.antt =====
-- The search for a sentence in handle_write_request, against the spans of the storage engine.
use network_file_storage.Prelude.{
  ℕ, ◌+◌, ◌-◌, Bytes, Bool, false, not, ◌&&◌, ◌||◌, if◌then◌else◌, [], ◌∷◌, ◌++◌, ◌==◌, take,
}
use network_file_storage.Text.{is_delimiter}

-- *pos == ' ' || *pos == '\t' || *pos == '\n'
abbrev pub is_gap : ℕ → Bool
is_gap c = c == 32 || (c == 9 || c == 10)

-- The loop over the content: `left` sentences are still to be passed, `sentence` is what stands
-- between sentence_start and pos, and with `skipping` the loop over the gap behind a sentence is under
-- way. The result is the sentence with its delimiter, or the text behind the last delimiter.
unfoldable pub find_sentence : Bool → ℕ → Bytes → Bytes → Bytes
find_sentence skipping left sentence [] = if left == 0 then sentence else []
find_sentence skipping left sentence (c ∷ s) =
    let skipped = skipping && is_gap c in
    let passed = not skipped && is_delimiter c in
    let more =
      find_sentence (skipped || passed) (if passed then left - 1 else left)
        (if skipped || passed then [] else sentence ++ c ∷ []) s in
    if passed && left == 0 then sentence ++ c ∷ [] else more

-- The sentence, of which 511 bytes are kept.
unfoldable pub sentence_text : Bytes → ℕ → Bytes
unfolding find_sentence
sentence_text content sentence_idx = take 511 (find_sentence false sentence_idx [] content)

-- strtok(s, " \t\n"): the number of words.
unfoldable pub count_tokens : Bool → Bytes → ℕ
count_tokens in_word [] = 0
count_tokens in_word (c ∷ s) =
    let count = count_tokens (not (is_gap c)) s in
    if is_gap c then count else if in_word then count else count + 1
